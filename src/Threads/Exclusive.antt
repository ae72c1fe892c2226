-- ===== src/Threads/Exclusive.antt =====
-- Which sessions hold an account, along a schedule of their steps.
use schedule_center.Base.{
  ℕ, zero, suc, ◌+◌, ◌≤◌, List, [], ◌∷◌, Option, none, some, ◌≡◌, refl, subst, arith, count_if, ◌⊎◌,
  inl, inr,
}
use schedule_center.Base.Text.{Text}
use schedule_center.Boost.{Boost}
use schedule_center.Json.{Json}
use schedule_center.Mysql.{Connector, Login}
use schedule_center.Sessions.{Handled, returns, escapes}
use schedule_center.Threads.{Input, Session, Common, step, step_at}
use schedule_center.Threads.Running.{System, stepped, keep, step_nth, run}
use schedule_center.Threads.Idle.{one_if, times}
use schedule_center.Threads.Holding.{holds, Within, step_at-Within}

pub sum_le_one : (a b : ℕ) → a + b ≤ 1 → (b ≡ 0) ⊎ (a ≡ 0)
sum_le_one zero b h = inr refl
sum_le_one (suc a) b h = inl (omega arith)

-- How many of the sessions hold the account.
abbrev pub holders : {j : Json} → Text → List (Session j) → ℕ
holders x = count_if (λ s. holds x s.pc)

-- In how many places an account is: in the idle list, or held by a session.
abbrev pub places : {c : Connector} {login : Login} {j : Json} → Text → System c login j → ℕ
places x y = times x y.common.shared.accounts.idle_accounts + holders x y.sessions

module _ {c : Connector} {login : Login} {j : Json} where
  -- A result of a step or of a schedule: the account is in at most `n` places.
  abbrev pub AtMost : Text → ℕ → Option (Handled (System c login j)) → Type 0
  AtMost x n none = Unit
  AtMost x n (some escapes) = Unit
  AtMost x n (some (returns y)) = places x y ≤ n

  pub AtMost-mono :
      (x : Text) (n m : ℕ) (r : Option (Handled (System c login j)))
      → AtMost x n r
      → n ≤ m
      → AtMost x m r
  AtMost-mono x n m none h k = tt
  AtMost-mono x n m (some escapes) h k = tt
  AtMost-mono x n m (some (returns y)) h k = omega arith

module _ (b : Boost) (c : Connector) (login : Login) (j : Json) where
  stepped-AtMost :
      (x : Text) (n m : ℕ) (l : List (Session j))
      (r : Option (Handled (Session j × Common c login)))
      → Within x n r
      → n + holders x l ≤ m
      → AtMost x m (stepped b c login j l r)
  stepped-AtMost x n m l none h k = tt
  stepped-AtMost x n m l (some escapes) h k = tt
  stepped-AtMost x n m l (some (returns (s, w))) h k = omega arith

  keep-AtMost :
      (x : Text) (n m : ℕ) (s : Session j) (r : Option (Handled (System c login j)))
      → AtMost x n r
      → n + one_if (holds x s.pc) ≤ m
      → AtMost x m (keep b c login j s r)
  keep-AtMost x n m s none h k = tt
  keep-AtMost x n m s (some escapes) h k = tt
  keep-AtMost x n m s (some (returns y)) h k = omega arith

  pub step_nth-AtMost :
      (x : Text) (n : ℕ) (i : Input) (l : List (Session j)) (w : Common c login)
      → AtMost x
          (times x w.shared.accounts.idle_accounts + holders x l)
          (step_nth b c login j n i l w)
  unfolding step_nth step
  step_nth-AtMost x n i [] w = omega arith
  step_nth-AtMost x zero i (s ∷ l) w =
      stepped-AtMost x _ _ l (step_at b c login j s.pc i s w)
        (step_at-Within b c login j x s.pc i s w) (omega arith)
  step_nth-AtMost x (suc n) i (s ∷ l) w =
      keep-AtMost x _ _ s (step_nth b c login j n i l w) (step_nth-AtMost x n i l w) (omega arith)

  onward-AtMost :
      (x : Text) (n : ℕ) (turns : List (ℕ × Input)) (r : Option (Handled (System c login j)))
      → AtMost x n r
      → ((y : System c login j) → places x y ≤ n → AtMost x n (run b c login j turns y))
      → AtMost x n (elim r [
        | none ↦ none
        | some escapes ↦ some escapes
        | some (returns y) ↦ run b c login j turns y
      ])
  onward-AtMost x n turns none h k = tt
  onward-AtMost x n turns (some escapes) h k = tt
  onward-AtMost x n turns (some (returns y)) h k = k y h

  pub run-AtMost :
      (x : Text) (n : ℕ) (turns : List (ℕ × Input)) (y : System c login j)
      → places x y ≤ n
      → AtMost x n (run b c login j turns y)
  unfolding run
  run-AtMost x n [] y h = h
  run-AtMost x n ((k, i) ∷ turns) y h =
      onward-AtMost x n turns (step_nth b c login j k i y.sessions y.common)
        (AtMost-mono x _ n _ (step_nth-AtMost x k i y.sessions y.common) h) (run-AtMost x n turns)

  -- A schedule of steps of any sessions brings an account into no more places, where a place is an
  -- occurrence in the idle list or a session that holds it.
  pub places-run :
      (x : Text) (turns : List (ℕ × Input)) (y y' : System c login j)
      → run b c login j turns y ≡ some (returns y')
      → places x y' ≤ places x y
  places-run x turns y y' e = subst (AtMost x (places x y)) e (run-AtMost x _ turns y (omega arith))

  -- Where no call that hands an account out is disturbed, so that it is one step: an account that
  -- starts in at most one place is, after any schedule of steps, held by at most one session, and if
  -- one holds it, it is not in the idle list.
  pub run-Exclusive :
      (x : Text) (turns : List (ℕ × Input)) (y y' : System c login j)
      → places x y ≤ 1
      → run b c login j turns y ≡ some (returns y')
      → (holders x y'.sessions ≤ 1)
        × ((holders x y'.sessions ≡ 0) ⊎ (times x y'.common.shared.accounts.idle_accounts ≡ 0))
  run-Exclusive x turns y y' h e =
      let k = places-run x turns y y' e in (omega (arith), sum_le_one _ _ (omega (arith, h)))
