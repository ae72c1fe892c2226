-- ===== src/Server/Whole/Exclusive.antt =====
-- Which sessions hold an account, whatever the threads of the server do.
use schedule_center.Base.{
  ℕ, ◌+◌, ◌≤◌, Bool, true, false, List, [], ◌∷◌, ◌++◌, Option, none, some, map, ◌≡◌, refl, subst,
  arith, count_if-append, if◌then◌else◌, ◌⊎◌,
}
use schedule_center.Base.Text.{Text}
use schedule_center.Boost.{Boost}
use schedule_center.Json.{Json, TasksInfo, TasksMgr}
use schedule_center.Mysql.{Connector, Login}
use schedule_center.Sessions.{Handled, returns, escapes}
use schedule_center.Threads.{Session, new_session, new_daily_session}
use schedule_center.Threads.Idle.{times}
use schedule_center.Threads.Holding.{holds}
use schedule_center.Threads.Exclusive.{holders, AtMost, AtMost-mono, step_nth-AtMost, sum_le_one}
use schedule_center.Threads.Running.{System}
use schedule_center.Worker.{Voting, over, joins, Ended, report, store_result}
use schedule_center.Worker.Begin.{Keeps, Begins, begin_work-Begins, finish-Keeps}
use schedule_center.Server.Loop.{Turned, take_turn}
use schedule_center.Server.Whole.{
  Move, handler, session, works, Working, popping, joining, joined, World, Moved, with_turn,
  with_system, stored, begun, work_at, move, run_all,
}
use schedule_center.Server.Whole.Turns.{TurnKept, take_turn-Kept}

-- The account is in at most `n` places.
abbrev pub InPlaces : {j : Json} → Text → ℕ → List Text → List (Session j) → Type 0
InPlaces x n idle l = times x idle + holders x l ≤ n

holders-daily :
    (j : Json) (x : Text) (ips : List Text) → holders x (map (new_daily_session j) ips) ≡ 0
unfolding new_daily_session new_session
holders-daily j x [] = refl
holders-daily j x (ip ∷ ips) = omega (arith, holders-daily j x ips)

InPlaces-grows :
    {j : Json} (x : Text) (n : ℕ) (idle : List Text) (l : List (Session j)) (ips : List Text)
    → InPlaces x n idle l
    → InPlaces x n idle (l ++ map (new_daily_session j) ips)
InPlaces-grows {j = j} x n idle l ips h = omega (
  arith,
  h,
  count_if-append (λ (t : Session j). holds x t.pc) l (map (new_daily_session j) ips),
  holders-daily j x ips,
)

module _ (b : Boost) (c : Connector) (login : Login) (j : Json) (tm : TasksMgr)
    (fresh : List ℕ → ℕ) where
  -- In how many places an account is.
  abbrev pub spots : Text → World b c login j tm fresh → ℕ
  spots x y = times x y.server.common.shared.accounts.idle_accounts + holders x y.server.sessions

  -- A result of a move: the account is in at most `n` places.
  abbrev Placed : Text → ℕ → Moved b c login j tm fresh → Type 0
  Placed x n none = Unit
  Placed x n (some escapes) = Unit
  Placed x n (some (returns y)) = spots x y ≤ n

  with_turn-Placed :
      (x : Text) (n : ℕ) (y : World b c login j tm fresh) (o : Turned b c login j tm fresh)
      → TurnKept b c login j tm fresh (InPlaces x n) (InPlaces-grows x n) o
      → Placed x n (with_turn b c login j tm fresh y o)
  with_turn-Placed x n y none h = tt
  with_turn-Placed x n y (some escapes) h = tt
  with_turn-Placed x n y (some (returns (s, st))) h = h

  turn-if :
      (x : Text) (n : ℕ) (stop : Bool) (y : World b c login j tm fresh)
      (r : Moved b c login j tm fresh)
      → spots x y ≤ n
      → Placed x n r
      → Placed x n (if stop then some (returns y) else r)
  turn-if x n true y r h k = h
  turn-if x n false y r h k = k

  with_system-Placed :
      (x : Text) (n : ℕ) (y : World b c login j tm fresh) (r : Option (Handled (System c login j)))
      → AtMost x n r
      → Placed x n (with_system b c login j tm fresh y r)
  with_system-Placed x n y none h = tt
  with_system-Placed x n y (some escapes) h = tt
  with_system-Placed x n y (some (returns z)) h = h

  stored-Placed :
      (x : Text) (m n id : ℕ) (y : World b c login j tm fresh) (e : Ended b c login j)
      → Keeps x m (some e)
      → m + holders x y.server.sessions ≤ n
      → Placed x n (some (stored b c login j tm fresh y (store_result b c login j tm id y.tasks e)))
  stored-Placed x m n id y escapes h k = tt
  stored-Placed x m n id y (returns (result, w)) h k = omega (arith, h, k)

  begun-Placed :
      (x : Text) (m n id : ℕ) (y : World b c login j tm fresh) (v : Voting b c login j)
      → Begins b c login j x m v
      → m + holders x y.server.sessions ≤ n
      → Placed x n (some (begun b c login j tm fresh id y v))
  begun-Placed x m n id y (over e) h k = stored-Placed x m n id y e h k
  begun-Placed x m n id y (joins pt l w) h k =
      omega (arith, h, k, count_if-append (λ (t : Session j). holds x t.pc) y.server.sessions l)

  joined-if :
      (x : Text) (n : ℕ) (t : Bool) (y : World b c login j tm fresh)
      (r : Handled (World b c login j tm fresh))
      → spots x y ≤ n
      → Placed x n (some r)
      → Placed x n (some (if t then r else returns y))
  joined-if x n true y r h k = k
  joined-if x n false y r h k = h

  work_at-Placed :
      (x : Text) (n : ℕ) (at : Working j) (threads : ℕ) (ti : TasksInfo)
      (y : World b c login j tm fresh)
      → spots x y ≤ n
      → Placed x n (some (work_at b c login j tm fresh at threads ti y))
  work_at-Placed x n popping threads ti y h =
      begun-Placed x (times x y.server.common.shared.accounts.idle_accounts) n ti.id y _
        (begin_work-Begins b c login j x _ threads ti.description y.result y.server.common
          (omega arith))
        h
  work_at-Placed x n (joining id pt first past) threads ti y h =
      joined-if x n (joined first past 0 y.server.sessions) y _ h (
        stored-Placed x (times x y.server.common.shared.accounts.idle_accounts) n id y
          (report b c login j pt (returns y.server.common))
          (finish-Keeps b c login j x _ (j.get_int pt _) (j.get_int pt _) 0 _ _ _ (omega arith)) h)

  move-Placed :
      (x : Text) (n : ℕ) (m : Move j) (y : World b c login j tm fresh)
      → spots x y ≤ n
      → Placed x n (move b c login j tm fresh m y)
  move-Placed x n (handler t) y h = turn-if x n y.server.stopped y _ h (
      with_turn-Placed x n y (take_turn b c login j tm fresh t y.server y.tasks) (
        take_turn-Kept b c login j tm fresh (InPlaces x n) (InPlaces-grows x n) t y.server y.tasks
          h))
  move-Placed x n (session k i) y h =
      with_system-Placed x n y _ (
        AtMost-mono x _ n _ (step_nth-AtMost b c login j x k i y.server.sessions y.server.common) h)
  move-Placed x n (works threads ti) y h =
      joined-if x n y.server.worker y _ h (work_at-Placed x n y.working threads ti y h)

  onward-Placed :
      (x : Text) (n : ℕ) (moves : List (Move j)) (r : Moved b c login j tm fresh)
      → Placed x n r
      → ((y : World b c login j tm fresh)
          → spots x y ≤ n
          → Placed x n (run_all b c login j tm fresh moves y))
      → Placed x n (elim r [
        | none ↦ none
        | some escapes ↦ some escapes
        | some (returns y) ↦ run_all b c login j tm fresh moves y
      ])
  onward-Placed x n moves none h k = tt
  onward-Placed x n moves (some escapes) h k = tt
  onward-Placed x n moves (some (returns y)) h k = k y h

  run_all-Placed :
      (x : Text) (n : ℕ) (moves : List (Move j)) (y : World b c login j tm fresh)
      → spots x y ≤ n
      → Placed x n (run_all b c login j tm fresh moves y)
  unfolding run_all
  run_all-Placed x n [] y h = h
  run_all-Placed x n (m ∷ moves) y h =
      onward-Placed x n moves (move b c login j tm fresh m y) (move-Placed x n m y h)
        (run_all-Placed x n moves)

  -- Where no call that hands an account out is disturbed, nor another one that holds no lock throughout
  -- (`reset_all_everyday_task`, `find_connection`), so that each is one step, and no slot of
  -- `op_ok_sig_` calls `start` on the io_service's thread: an account that
  -- starts in at most one place, the idle list or a session's hands, is held by at most one session,
  -- and is not idle while one holds it, after any interleaving of the handlers of the io_service, of
  -- the steps of any sessions and of those of the worker, which starts and joins votes.
  pub run_all-Exclusive :
      (x : Text) (moves : List (Move j)) (y y' : World b c login j tm fresh)
      → spots x y ≤ 1
      → run_all b c login j tm fresh moves y ≡ some (returns y')
      → (holders x y'.server.sessions ≤ 1)
        × ((holders x y'.server.sessions ≡ 0)
            ⊎ (times x y'.server.common.shared.accounts.idle_accounts ≡ 0))
  run_all-Exclusive x moves y y' h e =
      let k = subst (Placed x 1) e (run_all-Placed x 1 moves y h) in
      (omega (arith, k), sum_le_one _ _ (omega (arith, k)))
