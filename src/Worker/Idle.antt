-- ===== src/Worker/Idle.antt =====
-- The idle accounts across a vote (src/wx/wx_vote.cpp: do_task, with the sessions that it runs).
use schedule_center.Base.{
  ℕ, ◌≤◌, Bool, true, false, List, Option, none, some, ◌≡◌, subst, arith, if◌then◌else◌, ◌>>=◌,
}
use schedule_center.Base.Text.{Text, codes}
use schedule_center.Boost.{Boost}
use schedule_center.Json.{Json}
use schedule_center.Mysql.{Connector, Login}
use schedule_center.Sessions.{Handled, returns, escapes}
use schedule_center.Threads.{Input, Common}
use schedule_center.Threads.Running
use schedule_center.Threads.Running.{System}
use schedule_center.Threads.Idle.{times}
use schedule_center.Threads.Exclusive.{AtMost, run-AtMost}
use schedule_center.Worker.{
  all_ended, join_all, report, Voting, over, joins, begin_vote, run_votes, do_task,
}
use schedule_center.Worker.Begin.{Keeps, Begins, finish-Keeps, begin_vote-Begins}

module _ {c : Connector} {login : Login} where
  abbrev JoinKeeps : Text → ℕ → Option (Handled (Common c login)) → Type 0
  JoinKeeps x n none = Unit
  JoinKeeps x n (some escapes) = Unit
  JoinKeeps x n (some (returns w)) = times x w.shared.accounts.idle_accounts ≤ n

  JoinKeeps-if :
      (x : Text) (n : ℕ) (t : Bool) (w : Common c login)
      → times x w.shared.accounts.idle_accounts ≤ n
      → JoinKeeps x n (if t then some (returns w) else none)
  JoinKeeps-if x n true w h = h
  JoinKeeps-if x n false w h = tt

module _ (b : Boost) (c : Connector) (login : Login) (j : Json) (threads : ℕ)
    (turns : List (ℕ × Input)) where
  join_all-JoinKeeps :
      (x : Text) (n : ℕ) (r : Option (Handled (System c login j)))
      → AtMost x n r
      → JoinKeeps x n (join_all b c login j r)
  join_all-JoinKeeps x n none h = tt
  join_all-JoinKeeps x n (some escapes) h = tt
  join_all-JoinKeeps x n (some (returns y)) h =
      JoinKeeps-if x n (all_ended y.sessions) y.common (omega arith)

  report-Keeps :
      (x : Text) (n : ℕ) (pt : j.Ptree) (r : Option (Handled (Common c login)))
      → JoinKeeps x n r
      → Keeps x n (r >>= λ h. some (report b c login j pt h))
  report-Keeps x n pt none h = tt
  report-Keeps x n pt (some escapes) h = tt
  report-Keeps x n pt (some (returns w)) h =
      finish-Keeps b c login j x n (j.get_int pt (codes "task_id"))
        (j.get_int pt (codes "task_cmd")) 0 _ _ _ h

  run_votes-Keeps :
      (x : Text) (n : ℕ) (v : Voting b c login j)
      → Begins b c login j x n v
      → Keeps x n (run_votes b c login j threads turns v)
  run_votes-Keeps x n (over e) h = h
  run_votes-Keeps x n (joins pt l w) h =
      let y : System c login j = record { sessions = l; common = w } in
      report-Keeps x n pt _ (
        join_all-JoinKeeps x n (Running.run b c login j turns y)
          (run-AtMost b c login j x n turns y h))

  -- A vote that ends with a result, whatever the schedule of the sessions' steps was, has put no
  -- account into the idle list more often than it was there before, where no call that hands an
  -- account out is disturbed, so that it is one step.
  pub do_task-times :
      (x : Text) (pt : j.Ptree) (w w' : Common c login) (result : Text)
      → do_task b c login j threads turns pt w ≡ some (returns (result, w'))
      → times x w'.shared.accounts.idle_accounts ≤ times x w.shared.accounts.idle_accounts
  unfolding do_task
  do_task-times x pt w w' result e = subst (Keeps x (times x w.shared.accounts.idle_accounts)) e (
      run_votes-Keeps x _ (begin_vote b c login j threads pt w)
        (begin_vote-Begins b c login j x _ threads pt w (omega arith)))
