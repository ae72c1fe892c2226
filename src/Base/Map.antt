-- ===== src/Base/Map.antt =====
-- `std::map<std::string, V>`: an association list in the order of its keys.
use Prim.Native.Nat.{ℕ, ◌+◌}
use mathlib.Core.Path.{◌≡◌, refl, ap, ◌∙◌}
use mathlib.Core.Bool.{Bool, true, false}
use mathlib.Core.Logic.{inl, inr}
use mathlib.Core.List.{List, [], ◌∷◌}
use mathlib.Core.Option.{Option, none, some}
use native.Mathlib.Omega.{arith}
use schedule_center.Base.Tests.{if◌then◌else◌, is_some, Bool-cases}
use schedule_center.Base.Lists.{count_if}
use schedule_center.Base.Text.{Text, text_eq, text_eq_iff, text_eq_refl, text_lt}

abbrev pub Map {ℓ} : Type ℓ → Type ℓ
Map V = List (Text × V)

module _ {ℓ} {V : Type ℓ} where
  -- `m.find(k)`
  unfoldable pub find : Text → Map V → Option V
  find k [] = none
  find k ((j, v) ∷ m) = if text_eq j k then some v else find k m

  abbrev pub contains : Text → Map V → Bool
  contains k m = is_some (find k m)

  -- A new key goes in front of the first greater one.
  unfoldable pub insert_new : Text → V → Map V → Map V
  insert_new k v [] = (k, v) ∷ []
  insert_new k v ((j, w) ∷ m) =
      if text_lt k j then (k, v) ∷ (j, w) ∷ m else (j, w) ∷ insert_new k v m

  -- An assignment through the reference to the value of a key that is present.
  unfoldable pub replace : Text → V → Map V → Map V
  replace k v [] = []
  replace k v ((j, w) ∷ m) = if text_eq j k then (j, v) ∷ m else (j, w) ∷ replace k v m

  -- `m[k] = v`
  unfoldable pub assign : Text → V → Map V → Map V
  assign k v m = if contains k m then replace k v m else insert_new k v m

  -- `m.insert({k, v})`: a key that is present keeps its value.
  unfoldable pub insert : Text → V → Map V → Map V
  insert k v m = if contains k m then m else insert_new k v m

module _ {ℓ} {V : Type ℓ} where
  find-insert_new :
      (k j : Text) (v : V) (m : Map V)
      → find k m ≡ none
      → find j (insert_new k v m) ≡ (if text_eq k j then some v else find j m)
  unfolding find insert_new
  find-insert_new k j v [] h = refl
  find-insert_new k j v ((i, w) ∷ m) h =
      ground (arith, text_eq_iff k j, text_eq_iff i k, text_eq_iff i j, find-insert_new k j v m)

  find-replace :
      (k j : Text) (v : V) (m : Map V)
      → contains k m ≡ true
      → find j (replace k v m) ≡ (if text_eq k j then some v else find j m)
  unfolding find replace
  find-replace k j v [] h = cc
  find-replace k j v ((i, w) ∷ m) h =
      ground (arith, text_eq_iff k j, text_eq_iff i k, text_eq_iff i j, find-replace k j v m)

  contains-false→find : (k : Text) (m : Map V) → contains k m ≡ false → find k m ≡ none
  contains-false→find k m h = ground arith

  pub find-assign :
      (k j : Text) (v : V) (m : Map V)
      → find j (assign k v m) ≡ (if text_eq k j then some v else find j m)
  unfolding assign
  find-assign k j v m = elim (Bool-cases (contains k m)) [
    | inl old ↦ rw old (find-replace k j v m old)
    | inr new ↦ rw new (find-insert_new k j v m (contains-false→find k m new))
  ]

  pub find-insert :
      (k j : Text) (v : V) (m : Map V)
      → find j (insert k v m)
        ≡ (if contains k m then find j m else if text_eq k j then some v else find j m)
  unfolding insert
  find-insert k j v m = elim (Bool-cases (contains k m)) [
    | inl old ↦ rw old refl
    | inr new ↦ rw new (find-insert_new k j v m (contains-false→find k m new))
  ]

  pub find-replace_self :
      (k : Text) (v : V) (m : Map V) → contains k m ≡ true → find k (replace k v m) ≡ some v
  find-replace_self k v m h = rw (find-replace k k v m h, text_eq_refl k) refl

module _ {ℓ} {V : Type ℓ} where
  -- How many values pass a test.
  abbrev pub count_values : (V → Bool) → Map V → ℕ
  count_values p m = count_if (λ e. p e.1) m

  -- What the value of one key adds to that count.
  abbrev pub share : (V → Bool) → Option V → ℕ
  share p none = 0
  share p (some v) = if p v then 1 else 0

  count_values-insert_new :
      (p : V → Bool) (k : Text) (v : V) (m : Map V)
      → count_values p (insert_new k v m) ≡ count_values p m + share p (some v)
  unfolding insert_new
  count_values-insert_new p k v [] = omega arith
  count_values-insert_new p k v ((j, w) ∷ m) = ground (arith, count_values-insert_new p k v m)

  count_values-replace :
      (p : V → Bool) (k : Text) (v : V) (m : Map V)
      → contains k m ≡ true
      → count_values p (replace k v m) + share p (find k m) ≡ count_values p m + share p (some v)
  unfolding find replace
  count_values-replace p k v [] h = cc
  count_values-replace p k v ((j, w) ∷ m) h = ground (arith, count_values-replace p k v m)

  pub count_values-insert :
      (p : V → Bool) (k : Text) (v : V) (m : Map V)
      → count_values p (insert k v m) + share p (find k m)
        ≡ count_values p m + share p (find k (insert k v m))
  unfolding insert
  count_values-insert p k v m = elim (Bool-cases (contains k m)) [
    | inl old ↦ rw old refl
    | inr new ↦
        rw (new, contains-false→find k m new, count_values-insert_new p k v m)
          (omega (
            arith,
            ap (share p) (
                find-insert_new k k v m (contains-false→find k m new)
                ∙ ap (λ (b : Bool). if b then some v else find k m) (text_eq_refl k)),
          ))
  ]

  -- An assignment takes the old value out of the count and puts the new one in.
  pub count_values-assign :
      (p : V → Bool) (k : Text) (v : V) (m : Map V)
      → count_values p (assign k v m) + share p (find k m) ≡ count_values p m + share p (some v)
  unfolding assign
  count_values-assign p k v m = elim (Bool-cases (contains k m)) [
    | inl old ↦ rw old (count_values-replace p k v m old)
    | inr new ↦ rw (new, contains-false→find k m new, count_values-insert_new p k v m) (omega arith)
  ]
