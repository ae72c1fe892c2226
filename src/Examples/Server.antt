-- ===== src/Examples/Server.antt =====
-- A server from its first accepts to its end.
use schedule_center.Base.{
  ℕ, suc, ◌+◌, ◌≤◌, ◌<◌, ◌==◌, true, false, List, [], ◌∷◌, none, some, ◌≡◌, refl, arith,
}
use schedule_center.Accounts.{reset_all_everyday_task, reset_each}
use schedule_center.Json.{Json}
use schedule_center.Phones.{Ec, no_error}
use schedule_center.Phones.Fresh.{NotIn}
use schedule_center.Daily
use schedule_center.Server.{
  Moment, Server, construct, start_phone_accept, start_schedule_accept, start_main, start_daily,
  start_all_others, reset_day, fire, handle_stop,
}
use schedule_center.TaskProcessor.{run_at, run_after, task_wrapped, timer_task}
use schedule_center.Mysql.{returned}
use schedule_center.Server.Stop.{IsStopped, handle_stop-IsStopped}
use schedule_center.Server.Timers.{fire_each, resets_le_one}
use schedule_center.Examples.{ip_a, server, login, live}
use schedule_center.Examples.Devices.{phones}
use schedule_center.Examples.Sessions.{answers}

total : List ℕ → ℕ
total [] = 0
total (x ∷ l) = x + total l

-- An address above all that are in use.
unfoldable pub above : List ℕ → ℕ
unfolding total
above l = suc (total l)

more-NotIn : (n : ℕ) (l : List ℕ) → total l < n → NotIn n l
unfolding total
more-NotIn n [] h = tt
more-NotIn n (q ∷ l) h = (differs n q (omega (arith, h)), more-NotIn n l (omega (arith, h)))
  where
    differs : (a b : ℕ) → b < a → (a == b) ≡ false
    differs a b h = ground arith

pub above-NotIn : (l : List ℕ) → NotIn (above l) l
unfolding above
above-NotIn l = more-NotIn (suc (total l)) l (omega arith)

abbrev pub begun_with : (j : Json) → List ℕ → Server server login j above
begun_with j connections = record {
  common = record {
    shared = record {
      accounts = record { accounts_pro = []; idle_accounts = []; db = live };
      devices = phones;
      votes = record { success_count = 0; target_count = 0 };
    };
    connections = connections;
    store =
        λ _. record { peer = ip_a; is_open = true; reset = false; reading = true; written = [] };
  };
  sessions = [];
  sches = record { connections = []; store = λ _. record { is_open = false; reading = false } };
  new_phone_connection = some 9;
  new_sche_connection = some 1;
  phone_acceptor = true;
  schedule_acceptor = true;
  processor = record { posted = []; timers = [] };
  worker = false;
  stopped = false;
}

abbrev pub begun : List ℕ → Server server login answers above
begun = begun_with answers

constructed : construct server login answers above (λ _. true) (begun []) ≡ returned (begun [])
unfolding construct
constructed = refl

handle_stop-IsStopped_example :
    (s' : Server server login answers above) × (handle_stop server login answers above
        (begun (3 ∷ []))
      ≡ some s')
    × IsStopped server login answers above (begun (3 ∷ [])) s'
handle_stop-IsStopped_example =
    handle_stop-IsStopped server login answers above (begun (3 ∷ []))
      (record { open_all = (refl, tt); distinct = (tt, tt); live = (refl, refl) }) (omega arith, tt)

abbrev pub moment : Moment
moment = record { now = 1000; day = 5; first = 11; draw = λ i. (i, i); threads = 1 }

-- The timer of `start_others`, and then that of `reset_task`.
abbrev timers : List (ℕ × Ec × Moment)
timers = (0, no_error, moment) ∷ (0, no_error, moment) ∷ []

abbrev after : Server server login answers above
after =
    elim (fire_each server login answers above timers
      (start_main server login answers above 1000 (begun []))) [ none ↦ begun [] | some r ↦ r.1 ]

timers_run :
    fire_each server login answers above timers
      (start_main server login answers above 1000 (begun []))
    ≡ some (1, after)
unfolding fire_each fire start_main start_phone_accept start_schedule_accept run_after run_at
    timer_task task_wrapped start_all_others start_daily reset_day Daily.reset_task
    reset_all_everyday_task reset_each
timers_run = refl

resets_le_one_example : 1 ≤ 1
resets_le_one_example =
    resets_le_one server login answers above 1000 timers (begun []) after 1 refl timers_run
