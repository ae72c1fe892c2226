-- ===== src/Threads/Turns.antt =====
-- Single turns of a schedule of the sessions' steps.
use schedule_center.Base.{ℕ, List, ◌∷◌, none, some, ◌≡◌, ap}
use schedule_center.Boost.{Boost}
use schedule_center.Json.{Json}
use schedule_center.Mysql.{Connector, Login}
use schedule_center.Sessions.{returns, escapes}
use schedule_center.Threads.{Input, Session, Common, step}
use schedule_center.Threads.Running.{System, stepped, keep, step_nth, run}

module _ (b : Boost) (c : Connector) (login : Login) (j : Json) where
  run-onward :
      (n : ℕ) (i : Input) (turns : List (ℕ × Input)) (y y' : System c login j)
      → step_nth b c login j n i y.sessions y.common ≡ some (returns y')
      → run b c login j ((n, i) ∷ turns) y ≡ run b c login j turns y'
  unfolding run
  run-onward n i turns y y' e =
      ap
        (λ r. elim r [
          | none ↦ none
          | some escapes ↦ some escapes
          | some (returns t) ↦ run b c login j turns t
        ])
        e

  -- A turn of the first session, and of the second one.
  pub run-first :
      (i : Input) (turns : List (ℕ × Input)) (s s' : Session j) (l : List (Session j))
      (w w' : Common c login)
      → step b c login j i s w ≡ some (returns (s', w'))
      → run b c login j ((0, i) ∷ turns) (record { sessions = s ∷ l; common = w })
        ≡ run b c login j turns (record { sessions = s' ∷ l; common = w' })
  unfolding step_nth
  run-first i turns s s' l w w' e =
      run-onward 0 i turns (record { sessions = s ∷ l; common = w }) _
        (ap (stepped b c login j l) e)

  pub run-second :
      (i : Input) (turns : List (ℕ × Input)) (r s s' : Session j) (l : List (Session j))
      (w w' : Common c login)
      → step b c login j i s w ≡ some (returns (s', w'))
      → run b c login j ((1, i) ∷ turns) (record { sessions = r ∷ s ∷ l; common = w })
        ≡ run b c login j turns (record { sessions = r ∷ s' ∷ l; common = w' })
  unfolding step_nth
  run-second i turns r s s' l w w' e =
      run-onward 1 i turns (record { sessions = r ∷ s ∷ l; common = w }) _
        (ap (λ t. keep b c login j r (stepped b c login j l t)) e)
