-- ===== src/Server/Whole/Group.antt =====
-- The threads of a vote among all sessions, by their positions (src/wx/wx_vote.cpp: do_task).
use schedule_center.Base.{
  ℕ, zero, suc, ◌+◌, ◌≤◌, ◌<◌, Bool, true, false, List, [], ◌∷◌, ◌++◌, Option, none, some, map, ◌≡◌,
  refl, subst, arith, if◌then◌else◌, ◌&&◌, ◌⊎◌, inl, inr, length,
}
use schedule_center.Base.Text.{Text}
use schedule_center.Boost.{Boost}
use schedule_center.Json.{Json}
use schedule_center.Mysql.{Connector, Login}
use schedule_center.Sessions.{Handled, returns, escapes}
use schedule_center.Threads.{
  Pc, ended, Input, Session, Common, step, new_session, new_daily_session,
}
use schedule_center.Threads.Kinds.{IsOver, StaysOver, step_at-StaysOver}
use schedule_center.Threads.Running.{System, stepped, keep, step_nth}
use schedule_center.Worker.{is_ended}
use schedule_center.Server.Whole.{in_group, joined, Working, popping, joining}

module _ (b : Boost) (c : Connector) (login : Login) (j : Json) where
  -- From position `n` on, the sessions outside the group are daily ones or have ended.
  abbrev pub OnlyGroup : (ℕ → Bool) → ℕ → List (Session j) → Type 0
  OnlyGroup g n [] = Unit
  OnlyGroup g n (s ∷ l) = ((g n ≡ true) ⊎ IsOver b c login j s) × OnlyGroup g (suc n) l

  -- The voting sessions whose threads run are those of the vote that the worker waits for.
  abbrev pub group_of : Working j → ℕ → Bool
  group_of popping n = false
  group_of (joining id pt first past) n = in_group first past n

  abbrev pub OnlyVote : Working j → List (Session j) → Type 0
  OnlyVote at l = OnlyGroup (group_of at) 0 l

  pub OnlyGroup-append :
      (g : ℕ → Bool) (n : ℕ) (l l' : List (Session j))
      → OnlyGroup g n l
      → OnlyGroup g (n + length l) l'
      → OnlyGroup g n (l ++ l')
  OnlyGroup-append g n [] l' h k = subst (λ m. OnlyGroup g m l') (omega arith) k
  OnlyGroup-append g n (s ∷ l) l' (h, hs) k =
      (h, OnlyGroup-append g (suc n) l l' hs (subst (λ m. OnlyGroup g m l') (omega arith) k))

  OnlyGroup-daily :
      (g : ℕ → Bool) (n : ℕ) (ips : List Text) → OnlyGroup g n (map (new_daily_session j) ips)
  unfolding new_daily_session new_session
  OnlyGroup-daily g n [] = tt
  OnlyGroup-daily g n (ip ∷ ips) = (inr (inl refl), OnlyGroup-daily g (suc n) ips)

  pub OnlyVote-grows :
      (at : Working j) (idle : List Text) (l : List (Session j)) (ips : List Text)
      → OnlyVote at l
      → OnlyVote at (l ++ map (new_daily_session j) ips)
  OnlyVote-grows at idle l ips h =
      OnlyGroup-append (group_of at) 0 l _ h (OnlyGroup-daily (group_of at) (0 + length l) ips)

  -- A larger group.
  pub OnlyGroup-none :
      (g : ℕ → Bool) (n : ℕ) (l : List (Session j)) → OnlyGroup (λ _. false) n l → OnlyGroup g n l
  OnlyGroup-none g n [] h = tt
  OnlyGroup-none g n (s ∷ l) (inl e, hs) = cc
  OnlyGroup-none g n (s ∷ l) (inr e, hs) = (inr e, OnlyGroup-none g (suc n) l hs)

  in_group-true : (first past n : ℕ) → first ≤ n → n < past → in_group first past n ≡ true
  in_group-true first past n h k = ground arith

  pub OnlyGroup-new :
      (first past n : ℕ) (l : List (Session j))
      → first ≤ n
      → n + length l ≤ past
      → OnlyGroup (in_group first past) n l
  OnlyGroup-new first past n [] h k = tt
  OnlyGroup-new first past n (s ∷ l) h k = (
    inl (in_group-true first past n h (omega arith)),
    OnlyGroup-new first past (suc n) l (omega arith) (omega arith),
  )

  ended_or :
      (s : Session j) (g : Bool)
      → (if g then is_ended s.pc else true) ≡ true
      → ((g ≡ true) ⊎ IsOver b c login j s)
      → IsOver b c login j s
  ended_or s true e h = inr (is_ended→ended s.pc e)
    where
      is_ended→ended : (pc : Pc) → is_ended pc ≡ true → pc ≡ ended
      is_ended→ended pc e = ground arith
  ended_or s false e (inl h) = cc
  ended_or s false e (inr h) = h

  -- Once the group has ended, no voting session runs.
  pub OnlyGroup-joined :
      (first past n : ℕ) (l : List (Session j))
      → joined first past n l ≡ true
      → OnlyGroup (in_group first past) n l
      → OnlyGroup (λ _. false) n l
  unfolding joined
  OnlyGroup-joined first past n [] e h = tt
  OnlyGroup-joined first past n (s ∷ l) e (h, hs) =
      let (e1, e2) = both _ _ e in
      (inr (ended_or s (in_group first past n) e1 h), OnlyGroup-joined first past (suc n) l e2 hs)
    where
      both : (x y : Bool) → (x && y) ≡ true → (x ≡ true) × (y ≡ true)
      both x y e = ground arith

  -- A step of a session.
  abbrev pub StepKeeps : (ℕ → Bool) → ℕ → Option (Handled (System c login j)) → Type 0
  StepKeeps g n none = Unit
  StepKeeps g n (some escapes) = Unit
  StepKeeps g n (some (returns y)) = OnlyGroup g n y.sessions

  stepped-StepKeeps :
      (g : ℕ → Bool) (n : ℕ) (l : List (Session j))
      (r : Option (Handled (Session j × Common c login)))
      → ((g n ≡ true) ⊎ StaysOver b c login j r)
      → OnlyGroup g (suc n) l
      → StepKeeps g n (stepped b c login j l r)
  stepped-StepKeeps g n l none h k = tt
  stepped-StepKeeps g n l (some escapes) h k = tt
  stepped-StepKeeps g n l (some (returns (s, w))) h k = (h, k)

  keep-StepKeeps :
      (g : ℕ → Bool) (n : ℕ) (s : Session j) (r : Option (Handled (System c login j)))
      → ((g n ≡ true) ⊎ IsOver b c login j s)
      → StepKeeps g (suc n) r
      → StepKeeps g n (keep b c login j s r)
  keep-StepKeeps g n s none h k = tt
  keep-StepKeeps g n s (some escapes) h k = tt
  keep-StepKeeps g n s (some (returns y)) h k = (h, k)

  pub step_nth-StepKeeps :
      (g : ℕ → Bool) (n k : ℕ) (i : Input) (l : List (Session j)) (w : Common c login)
      → OnlyGroup g n l
      → StepKeeps g n (step_nth b c login j k i l w)
  unfolding step_nth step
  step_nth-StepKeeps g n k i [] w h = tt
  step_nth-StepKeeps g n zero i (s ∷ l) w (inl e, hs) = stepped-StepKeeps g n l _ (inl e) hs
  step_nth-StepKeeps g n zero i (s ∷ l) w (inr e, hs) =
      stepped-StepKeeps g n l _ (inr (step_at-StaysOver b c login j i s w e)) hs
  step_nth-StepKeeps g n (suc k) i (s ∷ l) w (h, hs) =
      keep-StepKeeps g n s (step_nth b c login j k i l w) h
        (step_nth-StepKeeps g (suc n) k i l w hs)
