-- ===== src/Accounts/Race.antt =====
-- `get_idle_not_vote_account` and `get_idle_not_daily_task_account` (src/wx/wx_account_mgr.cpp) as
-- their threads run them: the search holds the read lock, which is given up before the iterator is
-- read, and the erasure holds the write lock. Between these three steps other threads may run.
use schedule_center.Base.{
  ℕ, Bool, true, false, List, [], ◌∷◌, map, Option, none, some, ◌==◌, ◌≡◌, refl, if◌then◌else◌,
  ◌>>=◌, Bool-cases, inl, inr, arith, ap, subst,
}
use schedule_center.Base.Text.{Text}
use schedule_center.Accounts.{pick}

-- `std::list` with the identity of each node, which is what an iterator holds.
abbrev pub Nodes : Type 0
Nodes = List (ℕ × Text)

-- The search, under the read lock.
unfoldable pub search_node : (Text → Bool) → Nodes → Option ℕ
search_node p [] = none
search_node p ((n, acc) ∷ l) = if p acc then some n else search_node p l

-- `*itor`, with no lock; `none` is an iterator whose node is erased.
unfoldable pub read_node : ℕ → Nodes → Option Text
read_node i [] = none
read_node i ((n, acc) ∷ l) = if n == i then some acc else read_node i l

-- `idle_accounts.erase(itor)`, under the write lock; `none` as above.
unfoldable pub erase_node : ℕ → Nodes → Option Nodes
erase_node i [] = none
erase_node i ((n, acc) ∷ l) = if n == i then some l else erase_node i l >>= λ r. some ((n, acc) ∷ r)

-- Where a caller stands: before the search, with an iterator, with `acc` too, and returned.
pub data Pc : Type 0 where
  searching : Pc
  holding : ℕ → Pc
  erasing : ℕ → Text → Pc
  returned : Option Text → Pc

unfoldable pub step : (Text → Bool) → Pc → Nodes → Option (Pc × Nodes)
unfolding search_node read_node erase_node
step p searching l = elim (search_node p l) [
  | none ↦ some (returned none, l)
  | some i ↦ some (holding i, l)
]
step p (holding i) l = read_node i l >>= λ acc. some (erasing i acc, l)
step p (erasing i acc) l = erase_node i l >>= λ r. some (returned (some acc), r)
step p (returned r) l = some (returned r, l)

-- Two callers over one list; `true` lets the first one make a step.
unfoldable pub run : (Text → Bool) → List Bool → Pc × Pc × Nodes → Option (Pc × Pc × Nodes)
unfolding step
run p [] s = some s
run p (true ∷ turns) (a, b, l) = step p a l >>= λ (a', l'). run p turns (a', b, l')
run p (false ∷ turns) (a, b, l) = step p b l >>= λ (b', l'). run p turns (a, b', l')

abbrev pub accounts_of : Nodes → List Text
accounts_of l = map (λ e. e.1) l

-- No two nodes are the same.
abbrev pub Distinct : Nodes → Type 0
Distinct [] = Unit
Distinct ((n, _) ∷ l) = (read_node n l ≡ none) × Distinct l

abbrev Found : (Text → Bool) → Nodes → Option (Text × List Text) → Type 0
Found p l none = search_node p l ≡ none
Found p l (some (acc, rest)) =
    (i : ℕ) × (l' : Nodes) × (search_node p l ≡ some i)
    × (read_node i l ≡ some acc)
    × (erase_node i l ≡ some l')
    × (accounts_of l' ≡ rest)

Found-here :
    (p : Text → Bool) (n : ℕ) (acc : Text) (l : Nodes)
    → p acc ≡ true
    → Found p ((n, acc) ∷ l) (some (acc, accounts_of l))
unfolding search_node read_node erase_node
Found-here p n acc l h = (n, l, ground arith, ground arith, ground arith, refl)

Found-later :
    (p : Text → Bool) (n : ℕ) (acc : Text) (l : Nodes) (r : Option (Text × List Text))
    → p acc ≡ false
    → read_node n l ≡ none
    → Found p l r
    → Found p ((n, acc) ∷ l) (elim r [ none ↦ none | some (a, rest) ↦ some (a, acc ∷ rest) ])
unfolding search_node read_node erase_node
Found-later p n acc l none h apart f = ground arith
Found-later p n acc l (some (a, rest)) h apart (i, l', found, read, erased, same) =
    (i, (n, acc) ∷ l', ground arith, ground arith, ground arith, ap (◌∷◌ acc) same)

pick-Found : (p : Text → Bool) (l : Nodes) → Distinct l → Found p l (pick p (accounts_of l))
unfolding pick search_node
pick-Found p [] d = refl
pick-Found p ((n, acc) ∷ l) d = elim (Bool-cases (p acc)) [
  | inl hit ↦ rw hit (Found-here p n acc l hit)
  | inr miss ↦ rw miss (Found-later p n acc l _ miss d.0 (pick-Found p l d.1))
]

erase-missing : (i : ℕ) (l : Nodes) → read_node i l ≡ none → erase_node i l ≡ none
unfolding erase_node read_node
erase-missing i [] e = refl
erase-missing i ((n, acc) ∷ l) e = ground (arith, erase-missing i l)

erase-erase_later :
    (i n : ℕ) (acc : Text) (l' : Nodes) (r : Option Nodes)
    → (n == i) ≡ false
    → ((l'' : Nodes) → r ≡ some l'' → erase_node i l'' ≡ none)
    → (r >>= λ (l'' : Nodes). some ((n, acc) ∷ l'')) ≡ some l'
    → erase_node i l' ≡ none
unfolding erase_node
erase-erase_later i n acc l' none h ih e = cc
erase-erase_later i n acc l' (some l'') h ih e = ground (arith, ih l'' refl)

-- A node can be erased once.
erase-erase :
    (i : ℕ) (l l' : Nodes) → Distinct l → erase_node i l ≡ some l' → erase_node i l' ≡ none
unfolding erase_node read_node
erase-erase i [] l' d e = cc
erase-erase i ((n, acc) ∷ l) l' d e = elim (Bool-cases (n == i)) [
  | inl here ↦ ground (arith, erase-missing i l)
  | inr later ↦
      erase-erase_later i n acc l' (erase_node i l) later (λ l''. erase-erase i l l'' d.1)
        (rw later at e)
]

collide :
    (p : Text → Bool) (l l' : Nodes) (acc : Text) (i : ℕ)
    → search_node p l ≡ some i
    → read_node i l ≡ some acc
    → erase_node i l ≡ some l'
    → erase_node i l' ≡ none
    → (run p (true ∷ false ∷ true ∷ false ∷ []) (searching, searching, l)
        ≡ some (erasing i acc, erasing i acc, l))
      × (run p (true ∷ false ∷ true ∷ false ∷ true ∷ false ∷ []) (searching, searching, l) ≡ none)
unfolding run
collide p l l' acc i found read erased gone = (ground arith, ground arith)

-- Whenever a caller would find an account, two callers can both be given it: if the second one
-- searches before the first one erases, both read the same account, and the second erasure is
-- undefined behaviour.
pub double_hand_out :
    (p : Text → Bool) (l : Nodes) (acc : Text) (rest : List Text)
    → Distinct l
    → pick p (accounts_of l) ≡ some (acc, rest)
    → (i : ℕ) × (run p (true ∷ false ∷ true ∷ false ∷ []) (searching, searching, l)
        ≡ some (erasing i acc, erasing i acc, l))
      × (run p (true ∷ false ∷ true ∷ false ∷ true ∷ false ∷ []) (searching, searching, l) ≡ none)
double_hand_out p l acc rest d e =
    let (i, l', found, read, erased, same) = subst (Found p l) e (pick-Found p l d) in
    let (both, clash) = collide p l l' acc i found read erased (erase-erase i l l' d erased) in
    (i, both, clash)
