-- ===== src/Worker/Results.antt =====
-- From an order in the buffer to the result that the client can ask for.
use schedule_center.Base.{
  ap, ◌∙◌, Option, ◌>>=◌, ℕ, List, Bool, none, some, ◌==◌, ◌≡◌, ◌≢◌, false, refl, arith,
}
use schedule_center.Base.Text.{Text, codes, c_str}
use schedule_center.Mysql.{Connector, Login}
use schedule_center.Json.{Json, TasksInfo, TasksMgr}
use schedule_center.Protocol.{cmd_sche_wx_vote}
use schedule_center.Phones.{no_error}
use schedule_center.Schedule
use schedule_center.Schedule.{SchePool, start_reading, handle_read}
use schedule_center.Schedule.Read.{IsOrder, IsSent, handle_read_vote}
use schedule_center.Sessions.{Handled, returns}
use schedule_center.Threads.{Input, Common}
use schedule_center.Boost.{Boost}
use schedule_center.Worker.{
  Voting, over, run_votes, store_result, begin_work, begin_vote, new_vote, with_votes, do_task,
  do_work_queue, work,
}

test_differs : (a b : ℕ) → a ≢ b → (a == b) ≡ false
test_differs a b h = ground arith

module _ (b : Boost) (c : Connector) (login : Login) (j : Json) (t : TasksMgr) (threads : ℕ)
    (turns : List (ℕ × Input)) where
  -- What the rest of a round makes of the beginning of the task.
  abbrev rest :
      TasksInfo → t.State → Voting b c login j → Option (Handled (Text × t.State × Common c login))
  rest task st v =
      run_votes b c login j threads turns v >>= λ e. some (store_result b c login j t task.id st e)

  begin_work-vote :
      (task old text : Text) (pt : j.Ptree) (s : Common c login)
      → c_str task ≡ text
      → IsOrder j text pt cmd_sche_wx_vote
      → begin_work b c login j threads task old s
        ≡ begin_vote b c login j threads pt (with_votes b c login j new_vote s)
  unfolding begin_work
  begin_work-vote task old text pt s e o = rw (begin_work, e, o.parsed, o.cmd_of) refl

  begin_work-stale :
      (task old : Text) (pt : j.Ptree) (cmd : ℕ) (s : Common c login)
      → j.read_json (c_str task) ≡ some pt
      → j.get_int pt (codes "task_cmd") ≡ some cmd
      → cmd ≢ cmd_sche_wx_vote
      → begin_work b c login j threads task old s ≡ over (returns (old, s))
  unfolding begin_work
  begin_work-stale task old pt cmd s parsed e other =
      rw (begin_work, parsed, e) (rw (test_differs cmd cmd_sche_wx_vote other) refl)

  work-vote :
      (task : TasksInfo) (text old result : Text) (pt : j.Ptree) (st : t.State)
      (s s' : Common c login)
      → c_str task.description ≡ text
      → IsOrder j text pt cmd_sche_wx_vote
      → do_task b c login j threads turns pt (with_votes b c login j new_vote s)
        ≡ some (returns (result, s'))
      → work b c login j threads turns t task old st s
        ≡ some (
            returns (
              result,
              t.set_status task.id t.task_status_finished (t.set_result task.id result st),
              s',
            ))
  unfolding work do_work_queue do_task
  work-vote task text old result pt st s s' e o done =
      ap (rest task st) (begin_work-vote task.description old text pt s e o)
      ∙ ap (λ r. r >>= λ e. some (store_result b c login j t task.id st e)) done

  -- An order to vote that arrives in the buffer, with an integer as its id: `handle_read` queues one
  -- task, and when a worker takes this task and its `do_task` ends with a result, the worker stores
  -- this result under the order's id and marks the task as finished, whatever the tasks, the
  -- accounts and the worker's last result are by then.
  pub work-handle_read :
      (p : ℕ) (buffer text : Text) (wrote : Bool) (pool : SchePool) (st later : t.State)
      (pt : j.Ptree) (n : ℕ) (old result : Text) (s s' : Common c login)
      → IsSent buffer text
      → IsOrder j text pt cmd_sche_wx_vote
      → j.get_int pt (codes "task_id") ≡ some n
      → do_task b c login j threads turns pt (with_votes b c login j new_vote s)
        ≡ some (returns (result, s'))
      → (task : TasksInfo) × (handle_read j t p no_error buffer wrote pool st
          ≡ some (start_reading p pool, Schedule.returns (t.add_task task st) none))
        × (work b c login j threads turns t task old later s
            ≡ some (
                returns (
                  result,
                  t.set_status n t.task_status_finished (t.set_result n result later),
                  s',
                )))
  work-handle_read p buffer text wrote pool st later pt n old result s s' sent o id done =
      let (task, queued, same_id, same_text, _) =
        handle_read_vote j t p buffer text wrote pool st pt n sent o id in
      (task, queued, rw (← same_id) (work-vote task text old result pt later s s' same_text o done))

  -- A task whose command is an integer other than that of a vote gets the result of the worker's
  -- last task, and is marked as finished.
  pub work-stale :
      (task : TasksInfo) (old : Text) (pt : j.Ptree) (cmd : ℕ) (st : t.State) (s : Common c login)
      → j.read_json (c_str task.description) ≡ some pt
      → j.get_int pt (codes "task_cmd") ≡ some cmd
      → cmd ≢ cmd_sche_wx_vote
      → work b c login j threads turns t task old st s
        ≡ some (
            returns
              (old, t.set_status task.id t.task_status_finished (t.set_result task.id old st), s))
  unfolding work do_work_queue
  work-stale task old pt cmd st s parsed e other =
      ap (rest task st) (begin_work-stale task.description old pt cmd s parsed e other)
