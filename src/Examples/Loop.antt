-- ===== src/Examples/Loop.antt =====
-- Schedules of the server's loop, and the timers of the daily tasks.
use schedule_center.Base.{inr, List, [], ◌∷◌, some, true, false, ◌≡◌, refl, arith, ◌++◌, map, take}
use schedule_center.Base.Text.{Text, codes, text_eq, c_str}
use schedule_center.Base.Map.{find}
use schedule_center.Phones.Lists.{lookup}
use schedule_center.Phones.{read_msg, do_read_msg, no_error, other_error}
use schedule_center.Protocol.{read_int, int_bytes}
use schedule_center.Devices.{get_devices_pro_copy}
use schedule_center.Daily.{idle_phones}
use schedule_center.Threads.{new_daily_session}
use schedule_center.TaskProcessor.{start, reset_task, do_task, push_task}
use schedule_center.Server.{Server, construct, prepare, fire}
use schedule_center.Server.Accept.{phone_connects, schedule_connects, phone_fails}
use schedule_center.Server.Day.{without, fire-do_task, IsReset, fire-reset_task}
use schedule_center.Server.Loop.{
  Turn, accepts, runs_posted, IsOrder, ends_timer, reads_phone, reads_client, signalled, run_loop,
  has_signal,
}
use schedule_center.Server.Loop.Run.{RunsOn, run_loop-prepare}
use schedule_center.Examples.{ip_a, server, login}
use schedule_center.Examples.Schedule.{parser, tasks}
use schedule_center.Schedule.{c_string, set_nul, read_frame}
use schedule_center.Schedule.Frame.{frame}
use schedule_center.Examples.Accounts.{mgr}
use schedule_center.Examples.Sessions.{answers, decimal}
use schedule_center.Examples.Server.{above, above-NotIn, begun, begun_with, moment}

abbrev heartbeat : Text
heartbeat = 0 ∷ 0 ∷ 0 ∷ 0 ∷ 0 ∷ 0 ∷ 0 ∷ 0 ∷ []

-- An order to vote, framed, before a NUL.
abbrev order : Text
order = frame (codes "v") ++ 0 ∷ []

-- A phone and a client connect, the phone connects again and sends a heartbeat, the client orders a
-- vote and leaves, the phone leaves, and the server is stopped. In between the timers of `start_others`
-- and of `reset_task` expire.
abbrev turns : List Turn
turns =
    accepts (phone_connects ip_a)
    ∷ accepts schedule_connects
    ∷ accepts phone_fails
    ∷ accepts (phone_connects ip_a)
    ∷ ends_timer 0 no_error moment
    ∷ reads_phone 0 no_error heartbeat
    ∷ reads_client 0 no_error order true
    ∷ reads_client 0 other_error [] true
    ∷ ends_timer 0 no_error moment
    ∷ reads_phone 0 other_error []
    ∷ signalled
    ∷ []

abbrev waiting_start : Server server login parser above
waiting_start = record (begun_with parser []) {
  processor = record { posted = start ∷ []; timers = [] };
}

order-IsOrder : IsOrder parser no_error order true
unfolding read_frame c_string read_int set_nul text_eq int_bytes c_str
order-IsOrder = (codes "v", refl, inr (refl, refl), refl)

run_loop-prepare_example :
    RunsOn server login parser above decimal tasks (has_signal turns) (
      run_loop decimal server login parser tasks above
        (runs_posted moment ∷ turns)
        waiting_start
        [])
unfolding prepare construct push_task lookup find read_msg do_read_msg read_int
run_loop-prepare_example =
    run_loop-prepare server login parser above decimal tasks (λ _. true) moment turns
      (begun_with parser []) waiting_start [] above-NotIn
      (record {
        going = refl;
        open_acceptors = (refl, refl);
        phones_ok = record { open_all = tt; distinct = tt; live = (refl, refl) };
        one_client = omega arith;
        short_phones = λ ip q e. ground arith;
        accounts_live = (refl, refl);
        short_names = λ acc e. ground arith;
      })
      refl refl
      (
        omega arith,
        (
          tt,
          (tt, (omega arith, (tt, ((_, refl, refl), (order-IsOrder, (tt, (tt, (tt, (tt, tt))))))))),
        ),
      )

-- A server with two idle accounts and the two timers of the daily tasks.
abbrev timed : Server server login answers above
timed = record (begun []) {
  common = record (begun []).common { shared = record (begun []).common.shared { accounts = mgr } };
  processor = record { posted = []; timers = (5, reset_task) ∷ (7, do_task) ∷ [] };
}

fire-do_task_example :
    fire server login answers above 1 no_error moment timed
    ≡ some (record (without server login answers above 1 timed) {
      sessions =
          map
            (new_daily_session answers)
            (take 1 (idle_phones (get_devices_pro_copy server timed.common.shared.devices)));
    })
fire-do_task_example = fire-do_task server login answers above 1 moment timed refl

fire-reset_task_example :
    (s' : Server server login answers above) × (fire server login answers above 0 no_error moment
        timed
      ≡ some s')
    × IsReset server login answers above 0 moment timed s'
fire-reset_task_example =
    fire-reset_task server login answers above 0 moment timed refl (refl, refl)
      (omega arith, (omega arith, tt))

-- The server with one phone.
abbrev one_phone : Server server login answers above
one_phone = record (begun []) {
  common = record (begun []).common {
    connections = 7 ∷ [];
    store =
        λ _. record { peer = ip_a; is_open = true; reset = false; reading = true; written = [] };
  };
}
