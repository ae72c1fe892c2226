-- ===== src/Worker.antt =====
-- The worker of main_task (src/common/main_task.cpp: start_work_queue and do_work_queue) and
-- `wx_vote::do_task` (src/wx/wx_vote.cpp), which it calls and which runs the voting sessions. Nothing
-- catches an exception of theirs. `none` is a run that C++ leaves undefined.
pub mod Results
pub mod Begin
pub mod Idle
use schedule_center.Base.{
  ℕ, zero, suc, ◌-◌, ◌%◌, ◌^◌, Bool, true, false, List, [], ◌∷◌, Option, none, some, ◌==◌, ◌&&◌,
  if◌then◌else◌, ◌>>=◌,
}
use schedule_center.Base.Text.{Text, codes, c_str}
use schedule_center.Boost.{Boost, number, text}
use schedule_center.Mysql.{Connector, Login}
use schedule_center.Json.{Json, TasksInfo, TasksMgr}
use schedule_center.Protocol.{cmd_sche_wx_vote}
use schedule_center.Devices.{get_devices_pro_copy}
use schedule_center.Accounts.{get_idle_not_vote_count}
use schedule_center.Daily.{idle_phones}
use schedule_center.Sessions.{WxVote, Handled, returns, escapes, int_lt}
use schedule_center.Threads.{Pc, ended, Input, Session, Common, new_vote_session}
use schedule_center.Threads.Running
use schedule_center.Threads.Running.{System}

abbrev pub kvote_ret_fmt : Text
kvote_ret_fmt =
    codes
      "{\"task_id\":%1%,\"task_cmd\":%2%,\"result_code\":%3%,\"success count\":%4%,\"msg\":\"%5%\"}"

-- A new `wx_vote`; its target is set before it is read.
abbrev pub new_vote : WxVote
new_vote = record { success_count = 0; target_count = 0 }

abbrev pub is_ended : Pc → Bool
is_ended ended = true
is_ended _ = false

abbrev pub all_ended : {j : Json} → List (Session j) → Bool
all_ended [] = true
all_ended (s ∷ l) = is_ended s.pc && all_ended l

module _ (b : Boost) (c : Connector) (login : Login) (j : Json) where
  -- The result text, `fmter.str()`.
  unfoldable pub vote_ret : ℕ → ℕ → ℕ → ℕ → Text → Text
  vote_ret id cmd code count msg =
      b.format kvote_ret_fmt (number id ∷ number cmd ∷ number code ∷ number count ∷ text msg ∷ [])

  -- How `do_task` ends: with a result, or by an exception.
  abbrev pub Ended : Type 0
  Ended = Handled (Text × Common c login)

  abbrev pub with_votes : WxVote → Common c login → Common c login
  with_votes v w = record w { shared = record w.shared { votes = v } }

  -- The end of a branch of `do_task`: `task_id` or `task_cmd` may throw.
  abbrev pub finish : Option ℕ → Option ℕ → ℕ → ℕ → Text → Common c login → Ended
  finish none cmd code count msg w = escapes
  finish (some id) none code count msg w = escapes
  finish (some id) (some cmd) code count msg w = returns (vote_ret id cmd code count msg, w)

  abbrev pub with_first : Session j → Handled (List (Session j)) → Handled (List (Session j))
  with_first s escapes = escapes
  with_first s (returns l) = returns (s ∷ l)

  -- The loop over the idle phones, where the system can still start so many threads: after these,
  -- `create_thread` throws.
  unfoldable pub create_threads : ℕ → j.Ptree → List Text → Handled (List (Session j))
  create_threads threads pt [] = returns []
  create_threads zero pt (ip ∷ ips) = escapes
  create_threads (suc threads) pt (ip ∷ ips) =
      with_first (new_vote_session j ip pt) (create_threads threads pt ips)

  -- The threads of the sessions, one for each idle phone.
  unfoldable pub vote_threads : ℕ → j.Ptree → Common c login → Handled (List (Session j))
  unfolding create_threads
  vote_threads threads pt w =
      create_threads threads pt (idle_phones (get_devices_pro_copy c w.shared.devices))

  -- `join_all`, after the sessions' schedule: it returns when every thread has ended. After any other
  -- schedule it does not return, and there is no further state.
  abbrev pub join_all : Option (Handled (System c login j)) → Option (Handled (Common c login))
  join_all none = none
  join_all (some escapes) = some escapes
  join_all (some (returns y)) = if all_ended y.sessions then some (returns y.common) else none

  -- What the loop of `start_work_queue` does with the result.
  abbrev pub store_result :
      (t : TasksMgr) → ℕ → t.State → Ended → Handled (Text × t.State × Common c login)
  store_result t id st escapes = escapes
  store_result t id st (returns (result, w)) =
      returns (result, t.set_status id t.task_status_finished (t.set_result id result st), w)

  -- The end of `do_task` after `join_all`.
  abbrev pub report : j.Ptree → Handled (Common c login) → Ended
  report pt escapes = escapes
  report pt (returns w) =
      finish (j.get_int pt (codes "task_id")) (j.get_int pt (codes "task_cmd")) 0
        w.shared.votes.success_count (codes "ok")
        (with_votes (record w.shared.votes { success_count = 0 }) w)

  -- A task up to `join_all`: it has ended, or its threads are started and waited for.
  pub data Voting : Type 0 where
    over : Ended → Voting
    joins : j.Ptree → List (Session j) → Common c login → Voting

  abbrev pub started : j.Ptree → Handled (List (Session j)) → Common c login → Voting
  started pt escapes w = over escapes
  started pt (returns l) w = joins pt l w

  -- `threads` is how many threads can be started.
  module _ (threads : ℕ) where
    abbrev pub vote_for : ℕ → Option Text → j.Ptree → Common c login → Voting
    vote_for target none pt w = over escapes
    vote_for target (some url) pt w =
        if int_lt (get_idle_not_vote_count c url w.shared.accounts % 2 ^ 32) target
        then over (
            finish (j.get_int pt (codes "task_id")) (j.get_int pt (codes "task_cmd")) (2 ^ 32 - 1) 0
              (codes "There's no too many accounts.") w)
        else started pt (vote_threads threads pt w) w

    -- `wx_vote::do_task` up to `join_all`.
    unfoldable pub begin_vote : j.Ptree → Common c login → Voting
    unfolding vote_threads
    begin_vote pt w = elim (j.get_int pt (codes "votes_cnt")) [
      | none ↦ over escapes
      | some target ↦
          vote_for target (j.get_string pt (codes "url")) pt
            (with_votes (record w.shared.votes { target_count = target }) w)
    ]

    -- The switch of `do_work_queue` on the command; `result` is what it held before.
    abbrev pub begin_command : Option ℕ → j.Ptree → Text → Common c login → Voting
    begin_command none pt result w = over escapes
    begin_command (some cmd) pt result w =
        if cmd == cmd_sche_wx_vote
        then begin_vote pt (with_votes new_vote w)
        else over (returns (result, w))

    -- `do_work_queue` up to `join_all`.
    unfoldable pub begin_work : Text → Text → Common c login → Voting
    unfolding begin_vote
    begin_work task result w = elim (j.read_json (c_str task)) [
      | none ↦ over escapes
      | some pt ↦ begin_command (j.get_int pt (codes "task_cmd")) pt result w
    ]

    -- `turns` is the schedule of the sessions until `join_all` returns.
    module _ (turns : List (ℕ × Input)) where
      abbrev pub run_votes : Voting → Option Ended
      run_votes (over e) = some e
      run_votes (joins pt l w) =
          join_all (Running.run b c login j turns (record { sessions = l; common = w })) >>= λ h.
          some (report pt h)

      unfoldable pub do_task : j.Ptree → Common c login → Option Ended
      unfolding begin_vote
      do_task pt w = run_votes (begin_vote pt w)

      unfoldable pub do_work_queue : Text → Text → Common c login → Option Ended
      unfolding begin_work
      do_work_queue task result w = run_votes (begin_work task result w)

      -- One round of that loop, with the task that `pop_task` gave.
      unfoldable pub work :
          (t : TasksMgr)
          → TasksInfo
          → Text
          → t.State
          → Common c login
          → Option (Handled (Text × t.State × Common c login))
      unfolding do_work_queue
      work t ti result st w =
          do_work_queue ti.description result w >>= λ e. some (store_result t ti.id st e)
