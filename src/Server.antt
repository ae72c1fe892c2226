-- ===== src/Server.antt =====
-- main_task (src/common/main_task.cpp): the two acceptors, the start of the server and its end, with
-- keep_wx_account_task (src/wx/keep_wx_account_task.cpp: start and do_task) on the timers of
-- task_processor. All of it runs on the thread of the
-- `io_service`, one handler after another. A time is in seconds, a day is a number.
pub mod Accept
pub mod Connects
pub mod Begin
pub mod Stop
pub mod Timers
pub mod Day
pub mod Loop
pub mod Whole
use schedule_center.Base.{
  ℕ, zero, suc, ◌+◌, ◌-◌, ◌*◌, Bool, true, false, not, List, [], ◌∷◌, ◌++◌, Option, none, some, map,
  if◌then◌else◌, ◌>>=◌, ◌==◌,
}
use schedule_center.Base.Text.{Text}
use schedule_center.Base.Pointers.{put}
use schedule_center.Json.{Json}
use schedule_center.Mysql.{Connector, Login, Outcome, returned, thrown}
use schedule_center.Protocol.{phone_port, schedule_port}
use schedule_center.Devices.{get_devices_pro_copy}
use schedule_center.Phones
use schedule_center.Phones.{
  Store, reset_peer, PhonePool, Ec, no_error, operation_aborted, other_error,
}
use schedule_center.Schedule
use schedule_center.Schedule.{SchePool}
use schedule_center.Daily
use schedule_center.Daily.{idle_phones}
use schedule_center.TaskProcessor.{
  Callback, start, start_others, reset_task, do_task, TaskProcessor, push_task, run_at, run_after,
  run_each_at, removed, nth_callback, Ran, done, std_exception, task_wrapped, timer_task,
}
use schedule_center.Threads.{Session, Common, with_accounts, new_daily_session}

-- The local time, what the generator of random numbers gives, and how many threads the system can
-- still start: after these, the constructor of `boost::thread` throws a `std::exception`.
pub record Moment : Type 0 where
  pub now : ℕ
  pub day : ℕ
  pub first : ℕ
  pub draw : ℕ → ℕ × ℕ
  pub threads : ℕ

abbrev pub in_use : Option ℕ → List ℕ → List ℕ
in_use none l = l
in_use (some p) l = p ∷ l

-- `fresh` is the address that `new` gives, when these are in use.
module _ (c : Connector) (login : Login) (j : Json) (fresh : List ℕ → ℕ) where
  pub record Server : Type 0 where
    pub common : Common c login
    pub sessions : List (Session j)
    pub sches : SchePool
    pub new_phone_connection : Option ℕ
    pub new_sche_connection : Option ℕ
    pub phone_acceptor : Bool
    pub schedule_acceptor : Bool
    pub processor : TaskProcessor
    -- Whether the thread of `start_work_queue` was started, and whether `io_service_.stop` was called.
    pub worker : Bool
    pub stopped : Bool

  -- `main_task::main_task`, which listens at both ports. `listens` tells at which ports `bind` and
  -- `listen` succeed; else they throw.
  unfoldable pub construct : (ℕ → Bool) → Server → Outcome Server
  construct listens s =
      if listens phone_port
      then if listens schedule_port
        then returned (record s { phone_acceptor = true; schedule_acceptor = true })
        else thrown
      else thrown

  abbrev pub pool_of : Common c login → PhonePool c login
  pool_of w = record { connections = w.connections; store = w.store; devices = w.shared.devices }

  abbrev pub with_pool : PhonePool c login → Common c login → Common c login
  with_pool pool w = record w {
    connections = pool.connections;
    store = pool.store;
    shared = record w.shared { devices = pool.devices };
  }

  -- The addresses that the pool, the waiting object and the sessions hold.
  abbrev pub phones_in_use : Server → List ℕ
  phones_in_use s =
      in_use s.new_phone_connection (s.common.connections ++ map (λ t. t.pconn) s.sessions)

  -- The new object, and that `async_accept` waits to open its socket.
  unfoldable pub start_phone_accept : Server → Server
  start_phone_accept s =
      let p = fresh (phones_in_use s) in
      record s {
        new_phone_connection = some p;
        common = record s.common {
          store =
              put s.common.store p (record {
                peer = [];
                is_open = false;
                reset = false;
                reading = false;
                written = [];
              });
        };
      }

  unfoldable pub start_schedule_accept : Server → Server
  start_schedule_accept s =
      let p = fresh (in_use s.new_sche_connection s.sches.connections) in
      record s {
        new_sche_connection = some p;
        sches = record s.sches {
          store = put s.sches.store p (record { is_open = false; reading = false });
        };
      }

  -- A phone has connected: the socket of the waiting object is open.
  abbrev pub opened_phone : Option ℕ → Text → Server → Server
  opened_phone none peer s = s
  opened_phone (some p) peer s = record s {
    common = record s.common {
      store =
          put s.common.store p
            (record (s.common.store p) { peer = peer; is_open = true; reset = false });
    };
  }

  unfoldable pub accept_phone : Text → Server → Server
  accept_phone peer s = opened_phone s.new_phone_connection peer s

  -- The peer of this object resets the connection.
  abbrev pub reset_phone : Option ℕ → Server → Server
  reset_phone none s = s
  reset_phone (some p) s = record s {
    common = record s.common { store = reset_peer p s.common.store };
  }

  unfoldable pub aborted_phone : Server → Server
  unfolding reset_peer
  aborted_phone s = reset_phone s.new_phone_connection s

  -- The client has connected.
  abbrev pub opened_schedule : Option ℕ → Server → Server
  opened_schedule none s = s
  opened_schedule (some p) s = record s {
    sches = record s.sches {
      store = put s.sches.store p (record (s.sches.store p) { is_open = true });
    };
  }

  unfoldable pub accept_schedule : Server → Server
  accept_schedule s = opened_schedule s.new_sche_connection s

  abbrev pub start_phone : Option ℕ → Server → Option Server
  start_phone none s = none
  start_phone (some p) s = Phones.start c login p (pool_of s.common) >>= λ pool.
      some (record s { common = with_pool pool s.common })

  -- `pho_conn_pool::get().start`, if there was no error, and the next accept.
  abbrev pub accepted_phone : Ec → Server → Option Server
  accepted_phone no_error s =
      start_phone s.new_phone_connection s >>= λ s'. some (start_phone_accept s')
  accepted_phone _ s = some (start_phone_accept s)

  unfoldable pub handle_phone_accept : Ec → Server → Option Server
  unfolding start_phone_accept
  handle_phone_accept e s = if not s.phone_acceptor then some s else accepted_phone e s

  abbrev pub start_schedule : Option ℕ → Server → Option Server
  start_schedule none s = none
  start_schedule (some p) s = some (record s { sches = Schedule.start p s.sches })

  abbrev pub accepted_schedule : Ec → Server → Option Server
  accepted_schedule no_error s =
      start_schedule s.new_sche_connection s >>= λ s'. some (start_schedule_accept s')
  accepted_schedule _ s = some (start_schedule_accept s)

  unfoldable pub handle_schedule_accept : Ec → Server → Option Server
  unfolding start_schedule_accept
  handle_schedule_accept e s = if not s.schedule_acceptor then some s else accepted_schedule e s

  unfoldable pub handle_stop : Server → Option Server
  handle_stop s = Phones.stop_all c login (pool_of s.common) >>= λ pool. some (record s {
    phone_acceptor = false;
    schedule_acceptor = false;
    common = with_pool pool s.common;
    sches = Schedule.stop_all s.sches;
    stopped = true;
  })

  -- `main_task::start`
  unfoldable pub start_main : ℕ → Server → Server
  unfolding start_phone_accept start_schedule_accept run_after
  start_main now s =
      let s' = start_schedule_accept (start_phone_accept s) in
      record s' { processor = run_after now 20 start_others s'.processor }

  -- `keep_wx_account_task::start`: the time is that of the next day less 8 hours.
  unfoldable pub start_daily : ℕ → Server → Server
  unfolding run_at
  start_daily day s = record s {
    processor = run_at ((day + 1) * 86400 - 8 * 3600) reset_task s.processor;
  }

  -- `main_task::start_others`
  unfoldable pub start_all_others : Moment → Server → Ran Server
  unfolding start_daily
  start_all_others t s =
      if t.threads == 0
      then std_exception (start_daily t.day s)
      else done (record (start_daily t.day s) { worker = true })

  -- `keep_wx_account_task::reset_task`
  unfoldable pub reset_day : Moment → Server → Option Server
  unfolding run_each_at
  reset_day t s = Daily.reset_task c login t.first t.draw s.common.shared.accounts >>= λ r.
      some (record s {
        common = with_accounts c login r.0 s.common;
        processor = run_each_at t.day r.1 s.processor;
      })

  -- The loop of `keep_wx_account_task::do_task` over the idle phones: a session for each, on a thread
  -- of its own.
  unfoldable pub create_each : ℕ → List Text → Server → Ran Server
  create_each threads [] s = done s
  create_each zero (ip ∷ ips) s = std_exception s
  create_each (suc threads) (ip ∷ ips) s =
      create_each threads ips (record s { sessions = s.sessions ++ new_daily_session j ip ∷ [] })

  -- `keep_wx_account_task::do_task`
  unfoldable pub do_daily_task : ℕ → Server → Ran Server
  unfolding create_each
  do_daily_task threads s =
      create_each threads (idle_phones (get_devices_pro_copy c s.common.shared.devices)) s

  abbrev pub call : Callback → Moment → Server → Option (Ran Server)
  call start t s = some (done (start_main t.now s))
  call start_others t s = some (start_all_others t s)
  call reset_task t s = reset_day t s >>= λ s'. some (done s')
  call do_task t s = some (do_daily_task t.threads s)

  abbrev pub end_timer : Ec → Option Callback → Moment → Server → Option Server
  end_timer e none t s = some s
  end_timer e (some f) t s = timer_task e (call f t) s

  -- A timer expires or is cancelled.
  unfoldable pub fire : ℕ → Ec → Moment → Server → Option Server
  unfolding start_main start_all_others reset_day do_daily_task timer_task
  fire n e t s =
      end_timer e (nth_callback n s.processor.timers) t
        (record s { processor = record s.processor { timers = removed n s.processor.timers } })

  -- The first of the posted tasks runs, if there is one.
  abbrev pub run_first : List Callback → Moment → Server → Option Server
  run_first [] t s = some s
  run_first (f ∷ fs) t s =
      task_wrapped (call f t) (record s { processor = record s.processor { posted = fs } })

  unfoldable pub run_posted : Moment → Server → Option Server
  unfolding start_main start_all_others reset_day do_daily_task task_wrapped
  run_posted t s = run_first s.processor.posted t s

  -- `main` makes the server and posts its start.
  unfoldable pub prepare : (ℕ → Bool) → Server → Outcome Server
  unfolding construct push_task
  prepare listens s = elim (construct listens s) [
    | thrown ↦ thrown
    | returned s' ↦ returned (record s' { processor = push_task start s'.processor })
  ]
