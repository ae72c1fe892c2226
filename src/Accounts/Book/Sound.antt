-- ===== src/Accounts/Book/Sound.antt =====
-- What the calls keep of a book: whether it is sound, and whether later calls are proper.
use schedule_center.Base.{
  Bool, true, false, List, [], ◌∷◌, Option, none, some, is_some, ◌≡◌, refl, sym, ap, ◌∙◌,
  if◌then◌else◌, All, All-map, arith, Option-cases, inl, inr, Bool-cases, All-append,
}
use schedule_center.Base.Text.{Text, text_eq}
use schedule_center.Base.Map.{Map, find}
use schedule_center.Accounts.Data.{AccountPro}
use schedule_center.Accounts.{vote_status, may_vote, pick}
use schedule_center.Accounts.Daily.{passes}
use schedule_center.Accounts.Reset.{reset, is_some-modify}
use schedule_center.Accounts.Known.{
  Call, vote_turn, daily_turn, give_back, set_vote, set_status, set_daily, reset_daily,
}
use schedule_center.Accounts.Book.{
  Book, votes, needs, without_first, changed, promise, IsProper, IsSound,
}

-- The rest of a search is the list without the first member that passes.
abbrev pub rest_of : List Text → Option (Text × List Text) → List Text
rest_of xs none = xs
rest_of xs (some (acc, rest)) = rest

rest_of-cons :
    (x : Text) (xs : List Text) (o : Option (Text × List Text))
    → rest_of (x ∷ xs) (elim o [ none ↦ none | some (acc, rest) ↦ some (acc, x ∷ rest) ])
      ≡ x ∷ rest_of xs o
rest_of-cons x xs none = refl
rest_of-cons x xs (some (acc, rest)) = refl

pub rest_of-pick :
    (p q : Text → Bool)
    → ((x : Text) → p x ≡ q x)
    → (xs : List Text) → rest_of xs (pick p xs) ≡ without_first q xs
unfolding pick
rest_of-pick p q same [] = refl
rest_of-pick p q same (x ∷ xs) = elim (Bool-cases (q x)) [
  | inl hit ↦ rw (same x, hit) refl
  | inr miss ↦
      rw (same x, miss) (rest_of-cons x xs (pick p xs) ∙ ap (◌∷◌ x) (rest_of-pick p q same xs))
]

pub may_vote-votes :
    (url : Text) (m : Map AccountPro) (acc : Text) → may_vote url m acc ≡ votes url (find acc m)
unfolding vote_status
may_vote-votes url m acc = elim (Option-cases (find acc m)) [
  | inl e ↦ ground arith
  | inr (p, e) ↦ ground arith
]

pub passes-needs : (m : Map AccountPro) (acc : Text) → passes m acc ≡ needs (find acc m)
passes-needs m acc = elim (Option-cases (find acc m)) [
  | inl e ↦ ground arith
  | inr (p, e) ↦ ground arith
]

changed-known :
    (acc : Text) (f : AccountPro → AccountPro) (k : Book) (other : Text)
    → is_some ((changed acc f k).account other) ≡ is_some (k.account other)
changed-known acc f k other = elim (Bool-cases (text_eq acc other)) [
  | inl hit ↦ rw hit (is_some-modify f (k.account other))
  | inr miss ↦ rw miss refl
]

-- What a method leaves sound.
promise-known :
    (call : Call) (k : Book) (acc : Text)
    → is_some ((promise call k).account acc) ≡ is_some (k.account acc)
promise-known (vote_turn url) k acc = refl
promise-known daily_turn k acc = refl
promise-known (give_back other) k acc = refl
promise-known (set_vote other url status) k acc = changed-known other _ k acc
promise-known (set_status other status) k acc = changed-known other _ k acc
promise-known (set_daily other b_done) k acc = changed-known other _ k acc
promise-known reset_daily k acc = is_some-modify reset (k.account acc)

All-either :
    (P : Text → Type 0) (b : Bool) (xs ys : List Text)
    → All P xs
    → All P ys
    → All P (if b then xs else ys)
All-either P true xs ys h k = h
All-either P false xs ys h k = k

All-without_first :
    (P : Text → Type 0) (p : Text → Bool) (xs : List Text) → All P xs → All P (without_first p xs)
All-without_first P p [] h = tt
All-without_first P p (x ∷ xs) h =
    All-either P (p x) xs (x ∷ without_first p xs) h.1 (h.0, All-without_first P p xs h.1)

still_known :
    (call : Call) (k : Book) (xs : List Text)
    → All (λ acc. is_some (k.account acc) ≡ true) xs
    → All (λ acc. is_some ((promise call k).account acc) ≡ true) xs
still_known call k xs h = All-map _ _ (λ acc e. promise-known call k acc ∙ e) xs h

idle-known :
    (call : Call) (k : Book)
    → IsProper k call
    → All (λ acc. is_some (k.account acc) ≡ true) k.idle
    → All (λ acc. is_some (k.account acc) ≡ true) (promise call k).idle
idle-known (vote_turn url) k proper h = All-without_first _ _ k.idle h
idle-known daily_turn k proper h = All-without_first _ _ k.idle h
idle-known (give_back acc) k proper h = All-append _ k.idle (acc ∷ []) h (proper, tt)
idle-known (set_vote acc url status) k proper h = h
idle-known (set_status acc status) k proper h = h
idle-known (set_daily acc b_done) k proper h = h
idle-known reset_daily k proper h = h

pub promise-IsSound :
    (call : Call) (k : Book) → IsProper k call → IsSound k → IsSound (promise call k)
promise-IsSound call k proper sound = record {
  known = still_known call k _ (idle-known call k proper sound.known);
  short = λ acc e. sound.short acc (sym (promise-known call k acc) ∙ e);
}

promise-IsProper :
    (call other : Call) (k : Book) → IsProper k other → IsProper (promise call k) other
promise-IsProper call (give_back acc) k h = promise-known call k acc ∙ h
promise-IsProper call (vote_turn url) k h = tt
promise-IsProper call daily_turn k h = tt
promise-IsProper call (set_vote acc url status) k h = h
promise-IsProper call (set_status acc status) k h = h
promise-IsProper call (set_daily acc b_done) k h = h
promise-IsProper call reset_daily k h = tt

pub still-IsProper :
    (call : Call) (k : Book) (calls : List Call)
    → All (IsProper k) calls
    → All (IsProper (promise call k)) calls
still-IsProper call k calls h = All-map _ _ (λ other. promise-IsProper call other k) calls h
