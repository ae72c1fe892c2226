-- ===== src/Server/Whole.antt =====
-- The whole server: the thread of the io_service (src/common/main_task.cpp and what its handlers call),
-- the threads of the sessions (src/common/a_session.cpp), and the worker (src/common/main_task.cpp:
-- start_work_queue) with the votes that it starts and joins (src/wx/wx_vote.cpp: do_task), in any
-- interleaving of their steps.
pub mod Handlers
pub mod Tasks
pub mod Turns
pub mod Exclusive
pub mod Group
pub mod Votes
pub mod Blocked
use schedule_center.Base.{
  ℕ, zero, suc, ◌+◌, Bool, true, false, List, [], ◌∷◌, ◌++◌, Option, none, some, if◌then◌else◌,
  ◌&&◌, leb, ltb, length,
}
use schedule_center.Base.Text.{Text}
use schedule_center.Boost.{Boost}
use schedule_center.Json.{Json, TasksInfo, TasksMgr}
use schedule_center.Mysql.{Connector, Login}
use schedule_center.Sessions.{Handled, returns, escapes}
use schedule_center.Threads.{Input, Session, Common}
use schedule_center.Threads.Running.{System, step_nth}
use schedule_center.Worker.{is_ended, Voting, over, joins, begin_work, Ended, report, store_result}
use schedule_center.Server.{Server}
use schedule_center.Server.Loop.{Turn, Turned, take_turn}

-- Whether a position is one of the group's.
abbrev pub in_group : ℕ → ℕ → ℕ → Bool
in_group first past n = leb first n && ltb n past

-- Whether every session of the group has ended, from position `n` on.
unfoldable pub joined : {j : Json} → ℕ → ℕ → ℕ → List (Session j) → Bool
joined first past n [] = true
joined first past n (s ∷ l) =
    (if in_group first past n then is_ended s.pc else true) && joined first past (suc n) l

module _ (j : Json) where
  -- A handler of the io_service runs, the session at this position makes a step, or the worker goes
  -- on, where the system can start so many threads and `pop_task` gives this task.
  pub data Move : Type 0 where
    handler : Turn → Move
    session : ℕ → Input → Move
    works : ℕ → TasksInfo → Move

  -- Where the worker's thread stands: in `pop_task`, or in `join_all` for the task with this id and
  -- this order, whose sessions stand from the first position on and before the second.
  pub data Working : Type 0 where
    popping : Working
    joining : ℕ → j.Ptree → ℕ → ℕ → Working

module _ (b : Boost) (c : Connector) (login : Login) (j : Json) (tm : TasksMgr)
    (fresh : List ℕ → ℕ) where
  -- The server with the tasks, and the worker with its last result.
  pub record World : Type 0 where
    pub server : Server c login j fresh
    pub tasks : tm.State
    pub result : Text
    pub working : Working j

  -- How a move ends: an exception that leaves a thread ends the server.
  abbrev pub Moved : Type 0
  Moved = Option (Handled World)

  abbrev pub with_turn : World → Turned b c login j tm fresh → Moved
  with_turn y none = none
  with_turn y (some escapes) = some escapes
  with_turn y (some (returns (s, st))) = some (returns (record y { server = s; tasks = st }))

  abbrev pub with_system : World → Option (Handled (System c login j)) → Moved
  with_system y none = none
  with_system y (some escapes) = some escapes
  with_system y (some (returns z)) =
      some (
        returns
          (record y { server = record y.server { sessions = z.sessions; common = z.common } }))

  -- The task is done, with what the worker stored.
  abbrev pub stored : World → Handled (Text × tm.State × Common c login) → Handled World
  stored y escapes = escapes
  stored y (returns (result, st, w)) = returns (record {
    server = record y.server { common = w };
    tasks = st;
    result = result;
    working = popping;
  })

  -- The task up to `join_all`: its sessions take the next positions.
  abbrev pub begun : ℕ → World → Voting b c login j → Handled World
  begun id y (over e) = stored y (store_result b c login j tm id y.tasks e)
  begun id y (joins pt l w) =
      let first = length y.server.sessions in
      returns (record y {
        server = record y.server { sessions = y.server.sessions ++ l; common = w };
        working = joining id pt first (first + length l);
      })

  -- The worker goes on: `join_all` returns when the sessions of the task have ended.
  abbrev pub work_at : Working j → ℕ → TasksInfo → World → Handled World
  work_at popping threads ti y =
      begun ti.id y (begin_work b c login j threads ti.description y.result y.server.common)
  work_at (joining id pt first past) threads ti y =
      if joined first past 0 y.server.sessions
      then stored y
          (store_result b c login j tm id y.tasks (report b c login j pt (returns y.server.common)))
      else returns y

  abbrev pub move : Move j → World → Moved
  move (handler x) y =
      if y.server.stopped
      then some (returns y)
      else with_turn y (take_turn b c login j tm fresh x y.server y.tasks)
  move (session n i) y = with_system y (step_nth b c login j n i y.server.sessions y.server.common)
  move (works threads ti) y =
      some (if y.server.worker then work_at y.working threads ti y else returns y)

  unfoldable pub run_all : List (Move j) → World → Moved
  unfolding joined
  run_all [] y = some (returns y)
  run_all (x ∷ moves) y = elim (move x y) [
    | none ↦ none
    | some escapes ↦ some escapes
    | some (returns y') ↦ run_all moves y'
  ]
