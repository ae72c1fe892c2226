-- ===== src/Base/Pointers.antt =====
-- Objects behind `boost::shared_ptr`: a store by address, and `std::set` of pointers.
use Prim.Native.Nat.{ℕ}
use mathlib.Core.List.{List, [], ◌∷◌}
use schedule_center.Base.Tests.{◌==◌, ltb, if◌then◌else◌}

abbrev pub put {ℓ} : {A : Type ℓ} → (ℕ → A) → ℕ → A → ℕ → A
put s p x q = if p == q then x else s q

-- `insert` into a set in the order of the pointers.
unfoldable pub insert_ptr : ℕ → List ℕ → List ℕ
insert_ptr p [] = p ∷ []
insert_ptr p (q ∷ l) = if p == q then q ∷ l else if ltb p q then p ∷ q ∷ l else q ∷ insert_ptr p l

-- `erase` of a value.
unfoldable pub erase_ptr : ℕ → List ℕ → List ℕ
erase_ptr p [] = []
erase_ptr p (q ∷ l) = if p == q then l else q ∷ erase_ptr p l
