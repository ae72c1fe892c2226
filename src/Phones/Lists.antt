-- ===== src/Phones/Lists.antt =====
-- The set of pointers seen as a map from addresses to connections.
use schedule_center.Base.{
  ℕ, Bool, true, false, List, [], ◌∷◌, Option, none, some, ◌==◌, ltb, ◌≡◌, refl, if◌then◌else◌,
  arith, All, Bool-cases, inl, inr, eq→==, sym, subst,
}
use schedule_center.Base.Text.{Text, text_eq, text_eq_iff, text_eq_refl}
use schedule_center.Base.Pointers.{put, insert_ptr, erase_ptr}
use schedule_center.Phones.{PhoneConnection, Store, has_peer, find_connection}

-- The connection whose peer has this address.
unfoldable pub lookup : Store → Text → List ℕ → Option ℕ
lookup s ip [] = none
lookup s ip (p ∷ l) = if text_eq (s p).peer ip then some p else lookup s ip l

-- Every connection of the list is open, and its peer has not reset it.
abbrev pub AllOpen : Store → List ℕ → Type 0
AllOpen s = All (λ p. has_peer (s p) ≡ true)

-- No connection of the list has this address.
abbrev pub Absent : Store → Text → List ℕ → Type 0
Absent s ip = All (λ q. text_eq (s q).peer ip ≡ false)

-- No two connections of the list have one address.
abbrev pub DistinctPeers : Store → List ℕ → Type 0
DistinctPeers s [] = Unit
DistinctPeers s (p ∷ l) = Absent s (s p).peer l × DistinctPeers s l

pub has_peer-open : (x : PhoneConnection) → has_peer x ≡ true → x.is_open ≡ true
has_peer-open x h = ground arith

pub find_connection-lookup :
    (s : Store) (ip : Text) (l : List ℕ)
    → AllOpen s l
    → find_connection s ip l ≡ some (lookup s ip l)
unfolding find_connection lookup
find_connection-lookup s ip [] h = refl
find_connection-lookup s ip (p ∷ l) h = ground (arith, find_connection-lookup s ip l h.1)

lookup-Absent : (s : Store) (ip : Text) (l : List ℕ) → Absent s ip l → lookup s ip l ≡ none
unfolding lookup
lookup-Absent s ip [] h = refl
lookup-Absent s ip (p ∷ l) h = ground (arith, lookup-Absent s ip l h.1)

pub Absent-lookup : (s : Store) (ip : Text) (l : List ℕ) → lookup s ip l ≡ none → Absent s ip l
unfolding lookup
Absent-lookup s ip [] h = tt
Absent-lookup s ip (p ∷ l) h = (ground arith, Absent-lookup s ip l (ground arith))

pub lookup-insert_ptr :
    (s : Store) (p : ℕ) (j : Text) (l : List ℕ)
    → Absent s (s p).peer l
    → lookup s j (insert_ptr p l) ≡ (if text_eq (s p).peer j then some p else lookup s j l)
unfolding lookup insert_ptr
lookup-insert_ptr s p j [] h = refl
lookup-insert_ptr s p j (q ∷ l) h = ground (
  arith,
  lookup-insert_ptr s p j l h.1,
  text_eq_iff (s p).peer j,
  text_eq_iff (s q).peer j,
  text_eq_iff (s q).peer (s p).peer,
)

All-if {ℓ} :
    (P : ℕ → Type ℓ) (b : Bool) (xs ys : List ℕ)
    → All P xs
    → All P ys
    → All P (if b then xs else ys)
All-if P true xs ys h k = h
All-if P false xs ys h k = k

-- What holds of a new pointer and of all others holds after an insertion.
pub All-insert_ptr {ℓ} :
    (P : ℕ → Type ℓ) (p : ℕ) (l : List ℕ) → P p → All P l → All P (insert_ptr p l)
unfolding insert_ptr
All-insert_ptr P p [] h hl = (h, tt)
All-insert_ptr P p (q ∷ l) h hl = All-if P (p == q) (q ∷ l) _ hl (
    All-if P (ltb p q) (p ∷ q ∷ l) (q ∷ insert_ptr p l) (h, hl) (hl.0, All-insert_ptr P p l h hl.1))

pub All-erase_ptr {ℓ} : (P : ℕ → Type ℓ) (p : ℕ) (l : List ℕ) → All P l → All P (erase_ptr p l)
unfolding erase_ptr
All-erase_ptr P p [] hl = tt
All-erase_ptr P p (q ∷ l) hl =
    All-if P (p == q) l (q ∷ erase_ptr p l) hl.1 (hl.0, All-erase_ptr P p l hl.1)

text_eq-sym : (a b : Text) → text_eq a b ≡ false → text_eq b a ≡ false
text_eq-sym a b h = ground (arith, text_eq_iff a b, text_eq_iff b a)

pub DistinctPeers-insert_ptr :
    (s : Store) (p : ℕ) (l : List ℕ)
    → Absent s (s p).peer l
    → DistinctPeers s l
    → DistinctPeers s (insert_ptr p l)
unfolding insert_ptr
DistinctPeers-insert_ptr s p [] a d = (tt, tt)
DistinctPeers-insert_ptr s p (q ∷ l) a d = elim (Bool-cases (p == q)) [
  | inl same ↦ rw same d
  | inr other ↦ elim (Bool-cases (ltb p q)) [
    | inl less ↦ rw (other, less) (a, d)
    | inr more ↦
        rw (other, more)
          (
            All-insert_ptr _ p l (text_eq-sym (s q).peer (s p).peer a.0) d.0,
            DistinctPeers-insert_ptr s p l a.1 d.1,
          )
  ]
]

pub DistinctPeers-erase_ptr :
    (s : Store) (p : ℕ) (l : List ℕ) → DistinctPeers s l → DistinctPeers s (erase_ptr p l)
unfolding erase_ptr
DistinctPeers-erase_ptr s p [] d = tt
DistinctPeers-erase_ptr s p (q ∷ l) d = elim (Bool-cases (p == q)) [
  | inl same ↦ rw same d.1
  | inr other ↦ rw other (All-erase_ptr _ p l d.0, DistinctPeers-erase_ptr s p l d.1)
]

pub lookup-peer :
    (s : Store) (ip : Text) (l : List ℕ) (p : ℕ) → lookup s ip l ≡ some p → (s p).peer ≡ ip
unfolding lookup
lookup-peer s ip [] p e = cc
lookup-peer s ip (q ∷ l) p e = elim (Bool-cases (text_eq (s q).peer ip)) [
  | inl hit ↦ ground (arith, text_eq_iff (s q).peer ip)
  | inr miss ↦ lookup-peer s ip l p (rw miss at e)
]

pub lookup-open :
    (s : Store) (ip : Text) (l : List ℕ) (p : ℕ)
    → AllOpen s l
    → lookup s ip l ≡ some p
    → has_peer (s p) ≡ true
unfolding lookup
lookup-open s ip [] p o e = cc
lookup-open s ip (q ∷ l) p o e = elim (Bool-cases (text_eq (s q).peer ip)) [
  | inl hit ↦ ground arith
  | inr miss ↦ lookup-open s ip l p o.1 (rw miss at e)
]

-- A change of the object at `p` is not seen by the connections with other addresses.
pub put-AllOpen :
    (s : Store) (p : ℕ) (x : PhoneConnection) (l : List ℕ)
    → Absent s (s p).peer l
    → AllOpen s l
    → AllOpen (put s p x) l
put-AllOpen s p x [] a o = tt
put-AllOpen s p x (q ∷ l) a o =
    (ground (arith, text_eq_refl (s p).peer), put-AllOpen s p x l a.1 o.1)

pub AllOpen-insert_ptr :
    (s : Store) (p : ℕ) (x : PhoneConnection) (l : List ℕ)
    → Absent s (s p).peer l
    → has_peer x ≡ true
    → AllOpen s l
    → AllOpen (put s p x) (insert_ptr p l)
AllOpen-insert_ptr s p x l a opened o =
    All-insert_ptr _ p l (ground arith) (put-AllOpen s p x l a o)

pub lookup-erase_ptr :
    (s : Store) (ip j : Text) (p : ℕ) (l : List ℕ)
    → DistinctPeers s l
    → lookup s ip l ≡ some p
    → lookup s j (erase_ptr p l) ≡ (if text_eq (s p).peer j then none else lookup s j l)
unfolding lookup erase_ptr
lookup-erase_ptr s ip j p [] d e = cc
lookup-erase_ptr s ip j p (q ∷ l) d e = elim (Bool-cases (text_eq (s q).peer ip)) [
  | inl hit ↦
      ground
        (arith, lookup-Absent s (s q).peer l d.0, text_eq_iff (s q).peer j, text_eq_refl (s q).peer)
  | inr miss ↦ ground (
    arith,
    lookup-peer s ip l p,
    lookup-erase_ptr s ip j p l d.1,
    text_eq_iff (s q).peer ip,
    text_eq_iff (s p).peer j,
    text_eq_iff (s q).peer j,
  )
]

pub AllOpen-erase_ptr :
    (s : Store) (ip : Text) (p : ℕ) (x : PhoneConnection) (l : List ℕ)
    → DistinctPeers s l
    → lookup s ip l ≡ some p
    → AllOpen s l
    → AllOpen (put s p x) (erase_ptr p l)
unfolding lookup erase_ptr
AllOpen-erase_ptr s ip p x [] d e o = tt
AllOpen-erase_ptr s ip p x (q ∷ l) d e o = elim (Bool-cases (text_eq (s q).peer ip)) [
  | inl hit ↦
      let here : q ≡ p = ground arith in
      rw (eq→== p q (sym here))
        (put-AllOpen s p x l (subst (λ t. Absent s (s t).peer l) here d.0) o.1)
  | inr miss ↦
      let away : (p == q) ≡ false =
        ground (arith, text_eq_iff (s q).peer ip, lookup-peer s ip l p) in
      rw (away, away) (o.0, AllOpen-erase_ptr s ip p x l d.1 (rw miss at e) o.1)
]

-- The two stores have the same addresses.
abbrev pub SamePeers : Store → Store → Type 0
SamePeers s s' = (q : ℕ) → (s' q).peer ≡ (s q).peer

pub lookup-SamePeers :
    (s s' : Store) (ip : Text) (l : List ℕ) → SamePeers s s' → lookup s' ip l ≡ lookup s ip l
unfolding lookup
lookup-SamePeers s s' ip [] h = refl
lookup-SamePeers s s' ip (q ∷ l) h = rw (h q, lookup-SamePeers s s' ip l h)

pub Absent-SamePeers :
    (s s' : Store) (ip : Text) (l : List ℕ) → SamePeers s s' → Absent s ip l → Absent s' ip l
Absent-SamePeers s s' ip [] h a = tt
Absent-SamePeers s s' ip (q ∷ l) h a = (rw (h q) a.0, Absent-SamePeers s s' ip l h a.1)

pub DistinctPeers-SamePeers :
    (s s' : Store) (l : List ℕ) → SamePeers s s' → DistinctPeers s l → DistinctPeers s' l
DistinctPeers-SamePeers s s' [] h d = tt
DistinctPeers-SamePeers s s' (q ∷ l) h d =
    (rw (h q) (Absent-SamePeers s s' _ l h d.0), DistinctPeers-SamePeers s s' l h d.1)

pub put-SamePeers :
    (s : Store) (p : ℕ) (x : PhoneConnection) → x.peer ≡ (s p).peer → SamePeers s (put s p x)
put-SamePeers s p x e q = ground arith
