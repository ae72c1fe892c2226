-- ===== src/Threads/Slots.antt =====
-- The slots of the sessions at `op_ok_sig_` (src/common/a_session.cpp: start and
-- on_restart_lua_timeout).
use schedule_center.Base.{
  ℕ, zero, suc, Bool, true, false, List, [], ◌∷◌, Option, none, some, ◌≡◌, refl, ap, ◌∙◌, subst,
  All, if◌then◌else◌, ◌>>=◌, >>=-none, eq→==,
}
use schedule_center.Boost.{Boost}
use schedule_center.Json.{Json}
use schedule_center.Mysql.{Connector, Login}
use schedule_center.Sessions.{Handled, returns, escapes}
use schedule_center.Threads.{Pc, ended, Input, Session, Common, step_at, step}
use schedule_center.Threads.Running.{
  System, stepped, keep, step_nth, run, call_slot, start_again, is_slot_of, raise,
}
use schedule_center.Threads.Stays.{is_timeout, Stays, step_at-Stays}

module _ {j : Json} where
  -- The object to which the session at this position is connected.
  abbrev pub connected_at : ℕ → List (Session j) → Option ℕ
  connected_at n [] = none
  connected_at zero (s ∷ l) = s.connected
  connected_at (suc n) (s ∷ l) = connected_at n l

  -- The session at this position has ended.
  abbrev pub has_ended : ℕ → List (Session j) → Bool
  has_ended n [] = false
  has_ended zero (s ∷ l) = elim s.pc [ ended ↦ true | _ ↦ false ]
  has_ended (suc n) (s ∷ l) = has_ended n l

module _ {c : Connector} {login : Login} {j : Json} where
  abbrev AllStay : ℕ → ℕ → Option (Handled (System c login j)) → Type 0
  AllStay n p none = Unit
  AllStay n p (some escapes) = Unit
  AllStay n p (some (returns y)) = connected_at n y.sessions ≡ some p

module _ (b : Boost) (c : Connector) (login : Login) (j : Json) where
  stepped-zero :
      (p : ℕ) (l : List (Session j)) (r : Option (Handled (Session j × Common c login)))
      → Stays p r
      → AllStay zero p (stepped b c login j l r)
  stepped-zero p l none h = tt
  stepped-zero p l (some escapes) h = tt
  stepped-zero p l (some (returns (s, w))) h = h

  stepped-suc :
      (n p : ℕ) (l : List (Session j)) (r : Option (Handled (Session j × Common c login)))
      → connected_at n l ≡ some p
      → AllStay (suc n) p (stepped b c login j l r)
  stepped-suc n p l none h = tt
  stepped-suc n p l (some escapes) h = tt
  stepped-suc n p l (some (returns (s, w))) h = h

  keep-zero :
      (p : ℕ) (s : Session j) (r : Option (Handled (System c login j)))
      → s.connected ≡ some p
      → AllStay zero p (keep b c login j s r)
  keep-zero p s none h = tt
  keep-zero p s (some escapes) h = tt
  keep-zero p s (some (returns y)) h = h

  keep-suc :
      (n p : ℕ) (s : Session j) (r : Option (Handled (System c login j)))
      → AllStay n p r
      → AllStay (suc n) p (keep b c login j s r)
  keep-suc n p s none h = tt
  keep-suc n p s (some escapes) h = tt
  keep-suc n p s (some (returns y)) h = h

  step_nth-AllStay :
      (n p k : ℕ) (i : Input) (l : List (Session j)) (w : Common c login)
      → is_timeout i ≡ false
      → connected_at n l ≡ some p
      → AllStay n p (step_nth b c login j k i l w)
  unfolding step_nth step
  step_nth-AllStay n p k i [] w t h = cc
  step_nth-AllStay zero p zero i (s ∷ l) w t h =
      stepped-zero p l (step_at b c login j s.pc i s w) (step_at-Stays b c login j p s.pc i s w t h)
  step_nth-AllStay (suc n) p zero i (s ∷ l) w t h =
      stepped-suc n p l (step_at b c login j s.pc i s w) h
  step_nth-AllStay zero p (suc k) i (s ∷ l) w t h = keep-zero p s (step_nth b c login j k i l w) h
  step_nth-AllStay (suc n) p (suc k) i (s ∷ l) w t h =
      keep-suc n p s (step_nth b c login j k i l w) (step_nth-AllStay n p k i l w t h)

  onward-AllStay :
      (n p : ℕ) (turns : List (ℕ × Input)) (r : Option (Handled (System c login j)))
      → AllStay n p r
      → ((y : System c login j)
          → connected_at n y.sessions ≡ some p
          → AllStay n p (run b c login j turns y))
      → AllStay n p (elim r [
        | none ↦ none
        | some escapes ↦ some escapes
        | some (returns y) ↦ run b c login j turns y
      ])
  onward-AllStay n p turns none h k = tt
  onward-AllStay n p turns (some escapes) h k = tt
  onward-AllStay n p turns (some (returns y)) h k = k y h

  run-AllStay :
      (n p : ℕ) (turns : List (ℕ × Input)) (y : System c login j)
      → All (λ t. is_timeout t.1 ≡ false) turns
      → connected_at n y.sessions ≡ some p
      → AllStay n p (run b c login j turns y)
  unfolding run
  run-AllStay n p [] y t h = h
  run-AllStay n p ((k, i) ∷ turns) y t h =
      onward-AllStay n p turns (step_nth b c login j k i y.sessions y.common)
        (step_nth-AllStay n p k i y.sessions y.common t.0 h) (λ y'. run-AllStay n p turns y' t.1)

  called-none :
      (t : Bool) (o : Option (Bool × Common c login)) (w : Common c login)
      (f : Common c login → Option (Common c login))
      → t ≡ true
      → o ≡ none
      → ((if t then (o >>= start_again b c login j) else some w) >>= f) ≡ none
  called-none t none w f e h = rw e refl
  called-none t (some r) w f e h = cc

  slot-ended :
      (pc : Pc) (cmd : ℕ) (s : Session j) (w : Common c login)
      → elim pc [ ended ↦ true | _ ↦ false ] ≡ true
      → call_slot b c login j pc cmd s w ≡ none
  slot-ended ended cmd s w h = refl
  slot-ended pc cmd s w h = cc

  raise-ended :
      (n p cmd : ℕ) (l : List (Session j)) (w : Common c login)
      → connected_at n l ≡ some p
      → has_ended n l ≡ true
      → raise b c login j p cmd l w ≡ none
  unfolding raise
  raise-ended n p cmd [] w h k = cc
  raise-ended zero p cmd (s ∷ l) w h k =
      called-none _ (call_slot b c login j s.pc cmd s w) w _ (ap (is_slot_of p) h ∙ eq→== p p refl)
        (slot-ended s.pc cmd s w k)
  raise-ended (suc n) p cmd (s ∷ l) w h k = >>=-none _ _ (λ w'. raise-ended n p cmd l w' h k)

  -- A session that is connected to a phone's `op_ok_sig_` and ends without that a timer has expired
  -- leaves its slot there: any later answer of that phone makes the signal call it, which is undefined
  -- once the session is destroyed.
  pub raise-dangling :
      (n p cmd : ℕ) (turns : List (ℕ × Input)) (y y' : System c login j)
      → All (λ t. is_timeout t.1 ≡ false) turns
      → connected_at n y.sessions ≡ some p
      → run b c login j turns y ≡ some (returns y')
      → has_ended n y'.sessions ≡ true
      → (w : Common c login) → raise b c login j p cmd y'.sessions w ≡ none
  raise-dangling n p cmd turns y y' t h e k w =
      raise-ended n p cmd y'.sessions w (subst (AllStay n p) e (run-AllStay n p turns y t h)) k
