-- ===== src/Server/Timers.antt =====
-- How often the daily tasks are reset (src/wx/keep_wx_account_task.cpp: start and reset_task).
use schedule_center.Base.{
  ℕ, zero, suc, ◌+◌, ◌-◌, ◌*◌, ◌≤◌, Bool, true, false, List, [], ◌∷◌, Option, none, some, ◌≡◌, refl,
  ap, arith, count_if, count_if-append, >>=-eq-some, some-injective, subst, ◌>>=◌, if◌then◌else◌,
}
use schedule_center.Json.{Json}
use schedule_center.Mysql.{Connector, Login}
use schedule_center.Phones.{Ec, no_error, operation_aborted, other_error}
use schedule_center.Accounts.{AccountMgr}
use schedule_center.Base.Text.{Text}
use schedule_center.Daily
use schedule_center.Threads.{with_accounts}
use schedule_center.Server.{
  Moment, Server, start_phone_accept, start_schedule_accept, start_main, start_daily,
  start_all_others, create_each, reset_day, do_daily_task, call, end_timer, fire,
}
use schedule_center.TaskProcessor.{
  Callback, start, start_others, reset_task, do_task, TaskProcessor, run_at, run_after, run_each_at,
  removed, nth_callback, Ran, caught, done, task_wrapped, timer_task,
}

-- What leads to a reset of the daily tasks.
abbrev leads : Callback → Bool
leads do_task = false
leads _ = true

abbrev pending : List (ℕ × Callback) → ℕ
pending = count_if (λ x. leads x.1)

weight : Option Callback → ℕ
weight none = 0
weight (some f) = if leads f then 1 else 0

removed-pending :
    (n : ℕ) (l : List (ℕ × Callback))
    → pending (removed n l) + weight (nth_callback n l) ≡ pending l
unfolding weight
removed-pending n [] = refl
removed-pending zero (x ∷ l) = omega arith
removed-pending (suc n) (x ∷ l) = omega (arith, removed-pending n l)

run_at-pending :
    (time : ℕ) (f : Callback) (t : TaskProcessor)
    → pending (run_at time f t).timers ≡ pending t.timers + (if leads f then 1 else 0)
unfolding run_at
run_at-pending time f t = omega (arith, count_if-append (λ x. leads x.1) t.timers ((time, f) ∷ []))

run_each_at-pending :
    (day : ℕ) (times : List ℕ) (t : TaskProcessor)
    → pending (run_each_at day times t).timers ≡ pending t.timers
unfolding run_each_at
run_each_at-pending day [] t = refl
run_each_at-pending day (time ∷ times) t = omega (
  arith,
  run_each_at-pending day times (run_at (day * 86400 + time) do_task t),
  run_at-pending (day * 86400 + time) do_task t,
)

-- Whether a timer that ends so runs `reset_task`.
abbrev pub resets : Ec → Option Callback → ℕ
resets no_error (some reset_task) = 1
resets _ _ = 0

module _ (c : Connector) (login : Login) (j : Json) (fresh : List ℕ → ℕ) where
  -- Timers that end one after another, and how often `reset_task` has run.
  unfoldable pub fire_each :
      List (ℕ × Ec × Moment) → Server c login j fresh → Option (ℕ × Server c login j fresh)
  fire_each [] s = some (0, s)
  fire_each ((n, e, t) ∷ l) s = fire c login j fresh n e t s >>= λ s'.
      fire_each l s' >>= λ r. some (resets e (nth_callback n s.processor.timers) + r.0, r.1)

  -- A result has at most `n` timers that lead to a reset.
  abbrev Leads : ℕ → Option (Server c login j fresh) → Type 0
  Leads n none = Unit
  Leads n (some s) = pending s.processor.timers ≤ n

  with_times-Leads :
      (t : Moment) (s : Server c login j fresh) (o : Option (AccountMgr c × List ℕ))
      → Leads (pending s.processor.timers) (
          o >>= λ r. some (record s {
            common = with_accounts c login r.0 s.common;
            processor = run_each_at t.day r.1 s.processor;
          }))
  with_times-Leads t s none = tt
  with_times-Leads t s (some (a, times)) =
      omega (arith, run_each_at-pending t.day times s.processor)

  -- A result has at most `n` such timers, where a reset that has run counts as one.
  abbrev Within : ℕ → ℕ → Option (Server c login j fresh) → Type 0
  Within k n none = Unit
  Within k n (some s) = k + pending s.processor.timers ≤ n

  Leads-Within :
      (n m : ℕ) (o : Option (Server c login j fresh)) → Leads n o → n + 1 ≤ m → Within 1 m o
  Leads-Within n m none h k = tt
  Leads-Within n m (some s) h k = omega arith

  -- The same of a callback's result.
  abbrev CallWithin : ℕ → ℕ → Option (Ran (Server c login j fresh)) → Type 0
  CallWithin k n none = Unit
  CallWithin k n (some r) = k + pending (caught r).processor.timers ≤ n

  task_wrapped-Within :
      (k n : ℕ) (task : Server c login j fresh → Option (Ran (Server c login j fresh)))
      (s : Server c login j fresh)
      → CallWithin k n (task s)
      → Within k n (task_wrapped task s)
  unfolding task_wrapped
  task_wrapped-Within k n task s h = ran (task s) h
    where
      ran :
          (o : Option (Ran (Server c login j fresh)))
          → CallWithin k n o
          → Within k n (o >>= λ r. some (caught r))
      ran none h = tt
      ran (some r) h = h

  finished :
      (k n : ℕ) (o : Option (Server c login j fresh))
      → Within k n o
      → CallWithin k n (o >>= λ s'. some (done s'))
  finished k n none h = tt
  finished k n (some s) h = h

  start_all_others-pending :
      (t : Moment) (s : Server c login j fresh)
      → pending (caught (start_all_others c login j fresh t s)).processor.timers
        ≡ pending s.processor.timers + 1
  unfolding start_all_others start_daily
  start_all_others-pending t s =
      ground (arith, run_at-pending ((t.day + 1) * 86400 - 8 * 3600) reset_task s.processor)

  create_each-processor :
      (threads : ℕ) (ips : List Text) (s : Server c login j fresh)
      → (caught (create_each c login j fresh threads ips s)).processor ≡ s.processor
  unfolding create_each
  create_each-processor threads [] s = refl
  create_each-processor zero (ip ∷ ips) s = refl
  create_each-processor (suc threads) (ip ∷ ips) s = create_each-processor threads ips _

  call-Within :
      (f : Callback) (t : Moment) (s : Server c login j fresh)
      → CallWithin
          (resets no_error (some f))
          (pending s.processor.timers + weight (some f))
          (call c login j fresh f t s)
  unfolding start_main start_phone_accept start_schedule_accept run_after do_daily_task reset_day
      weight
  call-Within start t s = omega (arith, run_at-pending (t.now + 20) start_others s.processor)
  call-Within start_others t s = omega (arith, start_all_others-pending t s)
  call-Within reset_task t s = finished 1 _ _ (
      Leads-Within (pending s.processor.timers) _ _
        (with_times-Leads t s (Daily.reset_task c login t.first t.draw s.common.shared.accounts))
        (omega arith))
  call-Within do_task t s =
      omega (arith, ap (λ p. pending p.timers) (create_each-processor t.threads _ s))

  end_timer-Within :
      (e : Ec) (o : Option Callback) (t : Moment) (s : Server c login j fresh)
      → Within
          (resets e o)
          (pending s.processor.timers + weight o)
          (end_timer c login j fresh e o t s)
  unfolding weight timer_task
  end_timer-Within no_error none t s = omega arith
  end_timer-Within operation_aborted none t s = omega arith
  end_timer-Within other_error none t s = omega arith
  end_timer-Within no_error (some f) t s =
      task_wrapped-Within _ _ (call c login j fresh f t) s (call-Within f t s)
  end_timer-Within operation_aborted (some f) t s = omega arith
  end_timer-Within other_error (some f) t s = omega arith

  fire-Within :
      (n : ℕ) (e : Ec) (t : Moment) (s s' : Server c login j fresh)
      → fire c login j fresh n e t s ≡ some s'
      → resets e (nth_callback n s.processor.timers) + pending s'.processor.timers
        ≤ pending s.processor.timers
  unfolding fire
  fire-Within n e t s s' h =
      let s1 : Server c login j fresh = record s {
        processor = record s.processor { timers = removed n s.processor.timers };
      } in
      let k =
        subst
          (Within (resets e (nth_callback n s.processor.timers))
            (pending (removed n s.processor.timers) + weight (nth_callback n s.processor.timers)))
          h (end_timer-Within e (nth_callback n s.processor.timers) t s1) in
      omega (arith, k, removed-pending n s.processor.timers)

  fire_each-pending :
      (l : List (ℕ × Ec × Moment)) (s s' : Server c login j fresh) (k : ℕ)
      → fire_each l s ≡ some (k, s')
      → k + pending s'.processor.timers ≤ pending s.processor.timers
  unfolding fire_each
  fire_each-pending [] s s' k h =
      let same = some-injective _ _ h in
      omega (arith, ap (λ r. r.0) same, ap (λ r. pending r.1.processor.timers) same)
  fire_each-pending ((n, e, t) ∷ l) s s' k h =
      let (s1, first, rest) = >>=-eq-some (fire c login j fresh n e t s) _ h in
      let ((k2, s2), later, last) = >>=-eq-some (fire_each l s1) _ rest in
      let same = some-injective _ _ last in
      omega (
        arith,
        ap (λ r. r.0) same,
        ap (λ r. pending r.1.processor.timers) same,
        fire_each-pending l s1 s2 k2 later,
        fire-Within n e t s s1 first,
      )

  -- On a server that is started with no timers, `reset_task` runs at most once, in whatever order the
  -- timers end, and however often.
  pub resets_le_one :
      (now : ℕ) (l : List (ℕ × Ec × Moment)) (s s' : Server c login j fresh) (k : ℕ)
      → s.processor.timers ≡ []
      → fire_each l (start_main c login j fresh now s) ≡ some (k, s')
      → k ≤ 1
  unfolding start_main start_phone_accept start_schedule_accept run_after
  resets_le_one now l s s' k empty h = omega (
    arith,
    fire_each-pending l (start_main c login j fresh now s) s' k h,
    run_at-pending (now + 20) start_others s.processor,
    ap pending empty,
  )
