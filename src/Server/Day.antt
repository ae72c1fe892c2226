-- ===== src/Server/Day.antt =====
-- What the two timers of the daily tasks do (src/wx/keep_wx_account_task.cpp: reset_task and do_task,
-- inc/public/task.hpp: the wrappers that call them).
use schedule_center.Base.{
  ℕ, zero, suc, ◌+◌, ◌*◌, List, [], ◌∷◌, ◌++◌, some, map, ◌≡◌, refl, sym, ap, ◌∙◌, append-nil,
  append_assoc, take, modify,
}
use schedule_center.Base.Text.{Text}
use schedule_center.Base.Map.{find}
use schedule_center.Json.{Json}
use schedule_center.Mysql.{Connector, Login}
use schedule_center.Mysql.Live.{IsLive}
use schedule_center.Phones.{no_error}
use schedule_center.Devices.{get_devices_pro_copy}
use schedule_center.Accounts.Reset.{ShortKeys, reset, reset_all_everyday_task_lem}
use schedule_center.Daily
use schedule_center.Daily.{idle_phones, task_times}
use schedule_center.TaskProcessor.{
  Callback, reset_task, do_task, TaskProcessor, run_at, run_each_at, removed, nth_callback, caught,
  task_wrapped, timer_task,
}
use schedule_center.Threads.{with_accounts, new_daily_session}
use schedule_center.Server.{Moment, Server, reset_day, create_each, do_daily_task, end_timer, fire}

-- A timer for each of the day's runs.
abbrev pub runs_of : ℕ → List ℕ → List (ℕ × Callback)
runs_of day times = map (λ time. (day * 86400 + time, do_task)) times

run_each_at-runs_of :
    (day : ℕ) (times : List ℕ) (t : TaskProcessor)
    → (run_each_at day times t).timers ≡ t.timers ++ runs_of day times
unfolding run_each_at run_at
run_each_at-runs_of day [] t = sym (append-nil t.timers)
run_each_at-runs_of day (time ∷ times) t =
    run_each_at-runs_of day times (run_at (day * 86400 + time) do_task t)
    ∙ append_assoc t.timers ((day * 86400 + time, do_task) ∷ []) (runs_of day times)

module _ (c : Connector) (login : Login) (j : Json) (fresh : List ℕ → ℕ) where
  -- The server without the timer at this position.
  abbrev pub without : ℕ → Server c login j fresh → Server c login j fresh
  without n s = record s {
    processor = record s.processor { timers = removed n s.processor.timers };
  }

  no_more : (s : Server c login j fresh) → s ≡ record s { sessions = s.sessions ++ [] }
  no_more s = ap (λ l. record s { sessions = l }) (sym (append-nil s.sessions))

  pub create_each_lem :
      (threads : ℕ) (ips : List Text) (s : Server c login j fresh)
      → caught (create_each c login j fresh threads ips s)
        ≡ record s { sessions = s.sessions ++ map (new_daily_session j) (take threads ips) }
  unfolding create_each
  create_each_lem zero [] s = no_more s
  create_each_lem (suc threads) [] s = no_more s
  create_each_lem zero (ip ∷ ips) s = no_more s
  create_each_lem (suc threads) (ip ∷ ips) s =
      create_each_lem threads ips
        (record s { sessions = s.sessions ++ new_daily_session j ip ∷ [] })
      ∙ ap (λ l. record s { sessions = l })
          (append_assoc s.sessions (new_daily_session j ip ∷ [])
            (map (new_daily_session j) (take threads ips)))

  -- When a timer of `do_task` expires, a session starts on each of the first idle phones, as many as
  -- the system can start threads for. If there are more idle phones, the exception of the next thread
  -- is caught; in any case nothing else changes but that the timer is gone.
  pub fire-do_task :
      (n : ℕ) (t : Moment) (s : Server c login j fresh)
      → nth_callback n s.processor.timers ≡ some do_task
      → fire c login j fresh n no_error t s
        ≡ some (record (without n s) {
          sessions =
              s.sessions
              ++ map
                  (new_daily_session j)
                  (take t.threads (idle_phones (get_devices_pro_copy c s.common.shared.devices)));
        })
  unfolding fire timer_task task_wrapped do_daily_task
  fire-do_task n t s e =
      ap (λ o. end_timer c login j fresh no_error o t (without n s)) e
      ∙ ap some (
          create_each_lem t.threads (idle_phones (get_devices_pro_copy c s.common.shared.devices))
            (without n s))

  -- What `reset_task` leaves, at a timer's end.
  pub record IsReset (n : ℕ) (t : Moment) (s s' : Server c login j fresh) : Type 0 where
    pub accounts :
        (acc : Text)
        → find acc s'.common.shared.accounts.accounts_pro
          ≡ modify reset (find acc s.common.shared.accounts.accounts_pro)
    pub idle : s'.common.shared.accounts.idle_accounts ≡ s.common.shared.accounts.idle_accounts
    pub timers :
        s'.processor.timers
        ≡ removed n s.processor.timers ++ runs_of t.day (task_times t.first t.draw)
    pub sessions : s'.sessions ≡ s.sessions

  -- When the timer of `reset_task` expires, with live pointers and names of at most 500 bytes, the
  -- daily task of every account is undone, with nothing else of the accounts changed, and instead of
  -- this timer there is one of `do_task` for each of the day's times.
  pub fire-reset_task :
      (n : ℕ) (t : Moment) (s : Server c login j fresh)
      → nth_callback n s.processor.timers ≡ some reset_task
      → IsLive s.common.shared.accounts.db
      → ShortKeys s.common.shared.accounts.accounts_pro
      → (s' : Server c login j fresh) × (fire c login j fresh n no_error t s ≡ some s')
        × IsReset n t s s'
  unfolding fire timer_task task_wrapped reset_day Daily.reset_task
  fire-reset_task n t s e live short =
      let (m, run, _, idle, accounts) =
        reset_all_everyday_task_lem login s.common.shared.accounts live short in
      (
        record (without n s) {
          common = with_accounts c login m s.common;
          processor = run_each_at t.day (task_times t.first t.draw) (without n s).processor;
        },
        rw e (rw run refl),
        record {
          accounts = accounts;
          idle = idle;
          timers = run_each_at-runs_of t.day (task_times t.first t.draw) (without n s).processor;
          sessions = refl;
        },
      )
