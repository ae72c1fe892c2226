-- ===== src/Server/Whole/Votes.antt =====
-- Which sessions run while the worker is in `pop_task` and in `join_all` (src/wx/wx_vote.cpp: do_task,
-- whose `wx_vote` the sessions use).
use schedule_center.Base.{
  ℕ, ◌+◌, Bool, true, false, List, [], ◌∷◌, Option, none, some, ◌≡◌, refl, subst, arith,
  if◌then◌else◌, length, inl, inr, Bool-cases,
}
use schedule_center.Base.Text.{Text}
use schedule_center.Boost.{Boost}
use schedule_center.Json.{Json, TasksInfo, TasksMgr}
use schedule_center.Mysql.{Connector, Login}
use schedule_center.Sessions.{Handled, returns, escapes}
use schedule_center.Threads.{Common}
use schedule_center.Threads.Running.{System, step_nth}
use schedule_center.Worker.{Voting, over, joins, report, store_result}
use schedule_center.Server.Loop.{Turned, take_turn}
use schedule_center.Server.Whole.{
  in_group, joined, Move, handler, session, works, Working, popping, joining, World, Moved,
  with_turn, with_system, stored, begun, work_at, move, run_all,
}
use schedule_center.Server.Whole.Turns.{TurnKept, take_turn-Kept}
use schedule_center.Server.Whole.Group.{
  group_of, OnlyVote, OnlyVote-grows, OnlyGroup-append, OnlyGroup-none, OnlyGroup-new,
  OnlyGroup-joined, StepKeeps, step_nth-StepKeeps,
}

module _ (b : Boost) (c : Connector) (login : Login) (j : Json) (tm : TasksMgr)
    (fresh : List ℕ → ℕ) where
  -- Every voting session that runs is one of those that the worker waits for.
  abbrev pub Waits : World b c login j tm fresh → Type 0
  Waits y = OnlyVote b c login j y.working y.server.sessions

  abbrev WaitKept : Moved b c login j tm fresh → Type 0
  WaitKept none = Unit
  WaitKept (some escapes) = Unit
  WaitKept (some (returns y)) = Waits y

  with_turn-WaitKept :
      (y : World b c login j tm fresh) (o : Turned b c login j tm fresh)
      → TurnKept b c login j tm fresh
          (λ idle l. OnlyVote b c login j y.working l)
          (OnlyVote-grows b c login j y.working)
          o
      → WaitKept (with_turn b c login j tm fresh y o)
  with_turn-WaitKept y none h = tt
  with_turn-WaitKept y (some escapes) h = tt
  with_turn-WaitKept y (some (returns (s, st))) h = h

  turn-if :
      (stop : Bool) (y : World b c login j tm fresh) (r : Moved b c login j tm fresh)
      → Waits y
      → WaitKept r
      → WaitKept (if stop then some (returns y) else r)
  turn-if true y r h k = h
  turn-if false y r h k = k

  with_system-WaitKept :
      (y : World b c login j tm fresh) (r : Option (Handled (System c login j)))
      → StepKeeps b c login j (group_of b c login j y.working) 0 r
      → WaitKept (with_system b c login j tm fresh y r)
  with_system-WaitKept y none h = tt
  with_system-WaitKept y (some escapes) h = tt
  with_system-WaitKept y (some (returns z)) h = h

  stored-WaitKept :
      (y : World b c login j tm fresh) (r : Handled (Text × tm.State × Common c login))
      → OnlyVote b c login j popping y.server.sessions
      → WaitKept (some (stored b c login j tm fresh y r))
  stored-WaitKept y escapes h = tt
  stored-WaitKept y (returns (result, st, w)) h = h

  begun-WaitKept :
      (id : ℕ) (y : World b c login j tm fresh) (v : Voting b c login j)
      → OnlyVote b c login j popping y.server.sessions
      → WaitKept (some (begun b c login j tm fresh id y v))
  begun-WaitKept id y (over e) h = stored-WaitKept y _ h
  begun-WaitKept id y (joins pt l w) h =
      let first = length y.server.sessions in
      OnlyGroup-append b c login j (in_group first (first + length l)) 0 y.server.sessions l
        (OnlyGroup-none b c login j _ 0 y.server.sessions h)
        (OnlyGroup-new b c login j first (first + length l) (0 + first) l (omega arith)
          (omega arith))

  work_at-WaitKept :
      (at : Working j) (threads : ℕ) (ti : TasksInfo) (y : World b c login j tm fresh)
      → y.working ≡ at
      → Waits y
      → WaitKept (some (work_at b c login j tm fresh at threads ti y))
  work_at-WaitKept popping threads ti y e h =
      begun-WaitKept ti.id y _ (subst (λ at. OnlyVote b c login j at y.server.sessions) e h)
  work_at-WaitKept (joining id pt first past) threads ti y e h =
      elim (Bool-cases (joined first past 0 y.server.sessions)) [
        | inl all ↦ rw all (
            stored-WaitKept y
              (store_result b c login j tm id y.tasks
                (report b c login j pt (returns y.server.common)))
              (OnlyGroup-joined b c login j first past 0 y.server.sessions all
                (subst (λ at. OnlyVote b c login j at y.server.sessions) e h)))
        | inr some_left ↦ rw some_left h
      ]

  works-if :
      (t : Bool) (y : World b c login j tm fresh) (r : Handled (World b c login j tm fresh))
      → Waits y
      → WaitKept (some r)
      → WaitKept (some (if t then r else returns y))
  works-if true y r h k = k
  works-if false y r h k = h

  move-WaitKept :
      (m : Move j) (y : World b c login j tm fresh)
      → Waits y
      → WaitKept (move b c login j tm fresh m y)
  move-WaitKept (handler t) y h = turn-if y.server.stopped y _ h (
      with_turn-WaitKept y (take_turn b c login j tm fresh t y.server y.tasks) (
        take_turn-Kept b c login j tm fresh (λ idle l. OnlyVote b c login j y.working l)
          (OnlyVote-grows b c login j y.working) t y.server y.tasks h))
  move-WaitKept (session k i) y h =
      with_system-WaitKept y (step_nth b c login j k i y.server.sessions y.server.common)
        (step_nth-StepKeeps b c login j _ 0 k i y.server.sessions y.server.common h)
  move-WaitKept (works threads ti) y h =
      works-if y.server.worker y (work_at b c login j tm fresh y.working threads ti y) h
        (work_at-WaitKept y.working threads ti y refl h)

  onward-WaitKept :
      (moves : List (Move j)) (r : Moved b c login j tm fresh)
      → WaitKept r
      → ((y : World b c login j tm fresh)
          → Waits y
          → WaitKept (run_all b c login j tm fresh moves y))
      → WaitKept (elim r [
        | none ↦ none
        | some escapes ↦ some escapes
        | some (returns y) ↦ run_all b c login j tm fresh moves y
      ])
  onward-WaitKept moves none h k = tt
  onward-WaitKept moves (some escapes) h k = tt
  onward-WaitKept moves (some (returns y)) h k = k y h

  run_all-WaitKept :
      (moves : List (Move j)) (y : World b c login j tm fresh)
      → Waits y
      → WaitKept (run_all b c login j tm fresh moves y)
  unfolding run_all
  run_all-WaitKept [] y h = h
  run_all-WaitKept (m ∷ moves) y h =
      onward-WaitKept moves (move b c login j tm fresh m y) (move-WaitKept m y h)
        (run_all-WaitKept moves)

  -- Where no slot of `op_ok_sig_` calls `start` on the io_service's thread, and no call that holds
  -- no lock throughout (those that hand an account out, `reset_all_everyday_task`, `find_connection`)
  -- is disturbed: if every voting session whose thread runs is one that the worker waits
  -- for, it is so after any interleaving of the handlers of the io_service, of the steps of any
  -- sessions and of those of the worker. So while the worker is
  -- in `pop_task` none runs, and in `join_all` only those of its own vote: no running session has a
  -- `wx_vote` that is destroyed.
  pub run_all-Waits :
      (moves : List (Move j)) (y y' : World b c login j tm fresh)
      → Waits y
      → run_all b c login j tm fresh moves y ≡ some (returns y')
      → Waits y'
  run_all-Waits moves y y' h e = subst WaitKept e (run_all-WaitKept moves y h)
