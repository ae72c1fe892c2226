-- ===== src/Server/Loop/Task.antt =====
-- The tasks and timers of task_processor, on the loop (inc/public/task.hpp: the wrappers;
-- src/common/main_task.cpp and src/wx/keep_wx_account_task.cpp: the functions that they call).
use schedule_center.Base.{
  ℕ, Bool, true, List, [], ◌∷◌, Option, none, some, is_some, ◌≡◌, refl, sym, ap, subst, ◌∙◌, modify,
  ◌==◌, ◌>>=◌, Bool-cases, inl, inr,
}
use schedule_center.Base.Text.{Text}
use schedule_center.Base.Map.{find}
use schedule_center.Json.{Json}
use schedule_center.Mysql.{Connector, Login}
use schedule_center.Mysql.Live.{IsLive}
use schedule_center.Devices.{get_devices_pro_copy}
use schedule_center.Accounts.{AccountMgr}
use schedule_center.Accounts.Reset.{
  reset, reset_all_everyday_task_lem, ShortKeys-contains, is_some-modify,
}
use schedule_center.Daily
use schedule_center.Daily.{idle_phones, task_times}
use schedule_center.Phones.{Ec, no_error, operation_aborted, other_error}
use schedule_center.TaskProcessor.{
  Callback, start, start_others, reset_task, do_task, TaskProcessor, run_each_at, Ran, caught, done,
  task_wrapped, timer_task, nth_callback,
}
use schedule_center.Threads.{Session, with_accounts}
use schedule_center.Server.{
  Moment, Server, start_daily, start_all_others, reset_day, do_daily_task, call, end_timer, fire,
  run_first, run_posted,
}
use schedule_center.Server.Accept.{IsFresh}
use schedule_center.Server.Day.{without, create_each_lem}
use schedule_center.Server.Loop.{Going}
use schedule_center.Server.Loop.Ready.{Going-Ready, start_main-Going}

module _ (c : Connector) (login : Login) (j : Json) (fresh : List ℕ → ℕ) where
  -- The server with other sessions, timers and worker.
  same_pools :
      (l : List (Session j)) (t : TaskProcessor) (worker : Bool) (s : Server c login j fresh)
      → Going c login j fresh s
      → Going c login j fresh (record s { sessions = l; processor = t; worker = worker })
  same_pools l t worker s g = record {
    going = g.going;
    serving = record {
      open_acceptors = g.serving.open_acceptors;
      waiting = g.serving.waiting;
      waiting_client = g.serving.waiting_client;
      phones_ok = g.serving.phones_ok;
      one_client = g.serving.one_client;
    };
    short_phones = g.short_phones;
    accounts_live = g.accounts_live;
    short_names = g.short_names;
  }

  start_all_others-Going :
      (t : Moment) (s : Server c login j fresh)
      → Going c login j fresh s
      → Going c login j fresh (caught (start_all_others c login j fresh t s))
  unfolding start_all_others start_daily
  start_all_others-Going t s g = elim (Bool-cases (t.threads == 0)) [
    | inl none_left ↦ rw none_left (same_pools s.sessions _ s.worker s g)
    | inr left ↦ rw left (same_pools s.sessions _ true s g)
  ]

  do_daily_task-Going :
      (threads : ℕ) (s : Server c login j fresh)
      → Going c login j fresh s
      → Going c login j fresh (caught (do_daily_task c login j fresh threads s))
  unfolding do_daily_task
  do_daily_task-Going threads s g =
      let ips = idle_phones (get_devices_pro_copy c s.common.shared.devices) in
      subst (Going c login j fresh) (sym (create_each_lem c login j fresh threads ips s))
        (same_pools _ s.processor s.worker s g)

  -- The accounts after `reset_task`.
  with_accounts-Going :
      (m : AccountMgr c) (t : TaskProcessor) (s : Server c login j fresh)
      → IsLive m.db
      → ((acc : Text)
          → find acc m.accounts_pro ≡ modify reset (find acc s.common.shared.accounts.accounts_pro))
      → Going c login j fresh s
      → Going c login j fresh
          (record s { common = with_accounts c login m s.common; processor = t })
  with_accounts-Going m t s live same g = record {
    going = g.going;
    serving = record {
      open_acceptors = g.serving.open_acceptors;
      waiting = g.serving.waiting;
      waiting_client = g.serving.waiting_client;
      phones_ok = g.serving.phones_ok;
      one_client = g.serving.one_client;
    };
    short_phones = g.short_phones;
    accounts_live = live;
    short_names =
        λ acc e. g.short_names acc (sym (is_some-modify _ _) ∙ sym (ap is_some (same acc)) ∙ e);
  }

  reset_day-Going :
      (t : Moment) (s : Server c login j fresh)
      → Going c login j fresh s
      → (s' : Server c login j fresh) × (reset_day c login j fresh t s ≡ some s')
        × Going c login j fresh s'
  unfolding reset_day Daily.reset_task
  reset_day-Going t s g =
      let (m, run, live, _, same) =
        reset_all_everyday_task_lem login s.common.shared.accounts g.accounts_live
          (ShortKeys-contains _ g.short_names) in
      let p = run_each_at t.day (task_times t.first t.draw) s.processor in
      (
        record s { common = with_accounts c login m s.common; processor = p },
        rw run refl,
        with_accounts-Going m p s live same g,
      )

  -- Whatever a callback throws, the server goes on.
  abbrev CallGoes : Option (Ran (Server c login j fresh)) → Type 0
  CallGoes o = (r : Ran (Server c login j fresh)) × (o ≡ some r) × Going c login j fresh (caught r)

  call-CallGoes :
      (f : Callback) (t : Moment) (s : Server c login j fresh)
      → IsFresh c login j fresh
      → Going c login j fresh s
      → CallGoes (call c login j fresh f t s)
  call-CallGoes start t s new g =
      (_, refl, start_main-Going c login j fresh t.now s new (Going-Ready c login j fresh s g))
  call-CallGoes start_others t s new g = (_, refl, start_all_others-Going t s g)
  call-CallGoes reset_task t s new g =
      let (s', run, g') = reset_day-Going t s g in
      (done s', ap (λ o. o >>= λ s'. some (done s')) run, g')
  call-CallGoes do_task t s new g = (_, refl, do_daily_task-Going t.threads s g)

  -- The rest of a turn goes on likewise.
  abbrev Goes : Option (Server c login j fresh) → Type 0
  Goes o = (s' : Server c login j fresh) × (o ≡ some s') × Going c login j fresh s'

  task_wrapped-Goes :
      (f : Callback) (t : Moment) (s : Server c login j fresh)
      → IsFresh c login j fresh
      → Going c login j fresh s
      → Goes (task_wrapped (call c login j fresh f t) s)
  unfolding task_wrapped
  task_wrapped-Goes f t s new g =
      let (r, run, g') = call-CallGoes f t s new g in
      (caught r, ap (λ o. o >>= λ r. some (caught r)) run, g')

  end_timer-Goes :
      (e : Ec) (o : Option Callback) (t : Moment) (s : Server c login j fresh)
      → IsFresh c login j fresh
      → Going c login j fresh s
      → Goes (end_timer c login j fresh e o t s)
  unfolding timer_task
  end_timer-Goes e none t s new g = (s, refl, g)
  end_timer-Goes no_error (some f) t s new g = task_wrapped-Goes f t s new g
  end_timer-Goes operation_aborted (some f) t s new g = (s, refl, g)
  end_timer-Goes other_error (some f) t s new g = (s, refl, g)

  pub fire-Goes :
      (n : ℕ) (e : Ec) (t : Moment) (s : Server c login j fresh)
      → IsFresh c login j fresh
      → Going c login j fresh s
      → Goes (fire c login j fresh n e t s)
  unfolding fire
  fire-Goes n e t s new g =
      end_timer-Goes e (nth_callback n s.processor.timers) t (without c login j fresh n s) new
        (same_pools s.sessions _ s.worker s g)

  run_first-Goes :
      (l : List Callback) (t : Moment) (s : Server c login j fresh)
      → IsFresh c login j fresh
      → Going c login j fresh s
      → Goes (run_first c login j fresh l t s)
  run_first-Goes [] t s new g = (s, refl, g)
  run_first-Goes (f ∷ l) t s new g =
      task_wrapped-Goes f t _ new (same_pools s.sessions _ s.worker s g)

  pub run_posted-Goes :
      (t : Moment) (s : Server c login j fresh)
      → IsFresh c login j fresh
      → Going c login j fresh s
      → Goes (run_posted c login j fresh t s)
  unfolding run_posted
  run_posted-Goes t s new g = run_first-Goes s.processor.posted t s new g
