-- ===== src/Server/Whole/Tasks.antt =====
-- What the posted tasks and the timers (inc/public/task.hpp and what it calls) keep of the idle list
-- and the sessions.
use schedule_center.Base.{
  ℕ, List, [], ◌∷◌, Option, none, some, map, ◌≡◌, refl, sym, subst, ap, ◌∙◌, ◌++◌, ◌>>=◌, inl, inr,
  take, >>=-eq-some, some-injective, ◌==◌, Bool-cases,
}
use schedule_center.Base.Text.{Text}
use schedule_center.Base.Map.{Map}
use schedule_center.Json.{Json}
use schedule_center.Mysql.{Connector, Login}
use schedule_center.Devices.{get_devices_pro_copy}
use schedule_center.Accounts.{AccountMgr, set_everyday_task, reset_each, reset_all_everyday_task}
use schedule_center.Accounts.Data.{AccountPro}
use schedule_center.Accounts.Known.{set_account-fields}
use schedule_center.Daily
use schedule_center.Daily.{idle_phones}
use schedule_center.Phones.{Ec, no_error, operation_aborted, other_error}
use schedule_center.TaskProcessor.{
  Callback, start, start_others, reset_task, do_task, Ran, caught, done, task_wrapped, timer_task,
  nth_callback,
}
use schedule_center.Threads.{Session, new_daily_session}
use schedule_center.Server.{
  Moment, Server, start_phone_accept, start_schedule_accept, start_main, start_daily,
  start_all_others, reset_day, do_daily_task, call, end_timer, fire, run_first, run_posted,
}
use schedule_center.Server.Day.{without, create_each_lem}
use schedule_center.Server.Whole.Handlers.{Has, Kept}

-- `reset_all_everyday_task` leaves the idle list alone.
set_everyday_task-idle :
    (c : Connector) (login : Login) (acc : Text) (b_done : ℕ) (m m' : AccountMgr c)
    → set_everyday_task c login acc b_done m ≡ some m'
    → m'.idle_accounts ≡ m.idle_accounts
unfolding set_everyday_task
set_everyday_task-idle c login acc b_done m m' e =
    (set_account-fields login acc _ _ _ m m' _ refl e).0

reset_each-idle :
    (c : Connector) (login : Login) (keys : Map AccountPro) (m m' : AccountMgr c)
    → reset_each c login keys m ≡ some m'
    → m'.idle_accounts ≡ m.idle_accounts
unfolding reset_each
reset_each-idle c login [] m m' e =
    ap (λ (a : AccountMgr c). a.idle_accounts) (sym (some-injective _ _ e))
reset_each-idle c login ((acc, _) ∷ keys) m m' e =
    let (n, first, rest) =
      >>=-eq-some (set_everyday_task c login acc 0 m) (reset_each c login keys) e in
    reset_each-idle c login keys n m' rest ∙ set_everyday_task-idle c login acc 0 m n first

reset_all-idle :
    (c : Connector) (login : Login) (m m' : AccountMgr c)
    → reset_all_everyday_task c login m ≡ some m'
    → m'.idle_accounts ≡ m.idle_accounts
unfolding reset_all_everyday_task
reset_all-idle c login m m' e = reset_each-idle c login m.accounts_pro m m' e

-- `I` is kept by new daily sessions.
module _ (c : Connector) (login : Login) (j : Json) (fresh : List ℕ → ℕ)
    (I : List Text → List (Session j) → Type 0)
    (grows : (idle : List Text) (l : List (Session j)) (ips : List Text)
      → I idle l
      → I idle (l ++ map (new_daily_session j) ips)) where
  abbrev RanKept : Option (Ran (Server c login j fresh)) → Type 0
  RanKept none = Unit
  RanKept (some r) = Has c login j fresh I (caught r)

  do_daily_task-Has :
      (threads : ℕ) (s : Server c login j fresh)
      → Has c login j fresh I s
      → Has c login j fresh I (caught (do_daily_task c login j fresh threads s))
  unfolding do_daily_task
  do_daily_task-Has threads s h =
      let ips = idle_phones (get_devices_pro_copy c s.common.shared.devices) in
      subst (Has c login j fresh I) (sym (create_each_lem c login j fresh threads ips s))
        (grows _ s.sessions (take threads ips) h)

  start_all_others-Has :
      (t : Moment) (s : Server c login j fresh)
      → Has c login j fresh I s
      → Has c login j fresh I (caught (start_all_others c login j fresh t s))
  unfolding start_all_others start_daily
  start_all_others-Has t s h = elim (Bool-cases (t.threads == 0)) [
    | inl none_left ↦ rw none_left h
    | inr left ↦ rw left h
  ]

  reset_day-RanKept :
      (t : Moment) (s : Server c login j fresh) (o : Option (AccountMgr c))
      → reset_all_everyday_task c login s.common.shared.accounts ≡ o
      → Has c login j fresh I s
      → RanKept (reset_day c login j fresh t s >>= λ s'. some (done s'))
  unfolding reset_day Daily.reset_task
  reset_day-RanKept t s none e h = rw e tt
  reset_day-RanKept t s (some m) e h =
      rw e (subst (λ idle. I idle s.sessions) (sym (reset_all-idle c login _ m e)) h)

  call-RanKept :
      (f : Callback) (t : Moment) (s : Server c login j fresh)
      → Has c login j fresh I s
      → RanKept (call c login j fresh f t s)
  unfolding start_main start_phone_accept start_schedule_accept
  call-RanKept start t s h = h
  call-RanKept start_others t s h = start_all_others-Has t s h
  call-RanKept reset_task t s h = reset_day-RanKept t s _ refl h
  call-RanKept do_task t s h = do_daily_task-Has t.threads s h

  ran-Kept :
      (o : Option (Ran (Server c login j fresh)))
      → RanKept o
      → Kept c login j fresh I (o >>= λ r. some (caught r))
  ran-Kept none h = tt
  ran-Kept (some r) h = h

  task_wrapped-Kept :
      (f : Callback) (t : Moment) (s : Server c login j fresh)
      → Has c login j fresh I s
      → Kept c login j fresh I (task_wrapped (call c login j fresh f t) s)
  unfolding task_wrapped
  task_wrapped-Kept f t s h = ran-Kept (call c login j fresh f t s) (call-RanKept f t s h)

  end_timer-Kept :
      (e : Ec) (o : Option Callback) (t : Moment) (s : Server c login j fresh)
      → Has c login j fresh I s
      → Kept c login j fresh I (end_timer c login j fresh e o t s)
  unfolding timer_task
  end_timer-Kept e none t s h = h
  end_timer-Kept no_error (some f) t s h = task_wrapped-Kept f t s h
  end_timer-Kept operation_aborted (some f) t s h = h
  end_timer-Kept other_error (some f) t s h = h

  pub fire-Kept :
      (n : ℕ) (e : Ec) (t : Moment) (s : Server c login j fresh)
      → Has c login j fresh I s
      → Kept c login j fresh I (fire c login j fresh n e t s)
  unfolding fire
  fire-Kept n e t s h =
      end_timer-Kept e (nth_callback n s.processor.timers) t (without c login j fresh n s) h

  run_first-Kept :
      (l : List Callback) (t : Moment) (s : Server c login j fresh)
      → Has c login j fresh I s
      → Kept c login j fresh I (run_first c login j fresh l t s)
  run_first-Kept [] t s h = h
  run_first-Kept (f ∷ l) t s h = task_wrapped-Kept f t _ h

  pub run_posted-Kept :
      (t : Moment) (s : Server c login j fresh)
      → Has c login j fresh I s
      → Kept c login j fresh I (run_posted c login j fresh t s)
  unfolding run_posted
  run_posted-Kept t s h = run_first-Kept s.processor.posted t s h
