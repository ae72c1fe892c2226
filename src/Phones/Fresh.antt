-- ===== src/Phones/Fresh.antt =====
-- Pointers that the pool of phones does not hold, and a new object behind one of them.
use schedule_center.Base.{
  ℕ, ◌==◌, false, List, [], ◌∷◌, some, ◌≡◌, ◌≢◌, refl, arith, All, Bool-cases, inl, inr,
}
use schedule_center.Base.Text.{Text, text_eq}
use schedule_center.Base.Pointers.{put}
use schedule_center.Mysql.{Connector, Login}
use schedule_center.Phones.{Store, PhonePool, PhoneConnection}
use schedule_center.Phones.Lists.{lookup, AllOpen, Absent, DistinctPeers}
use schedule_center.Phones.Pool.{Ok}

-- The pointer is none of these.
abbrev pub NotIn : ℕ → List ℕ → Type 0
NotIn p = All (λ q. (p == q) ≡ false)

put-AllOpen :
    (s : Store) (p : ℕ) (x : PhoneConnection) (l : List ℕ)
    → NotIn p l
    → AllOpen s l
    → AllOpen (put s p x) l
put-AllOpen s p x [] n h = tt
put-AllOpen s p x (q ∷ l) n h = (ground arith, put-AllOpen s p x l n.1 h.1)

put-Absent :
    (s : Store) (p : ℕ) (x : PhoneConnection) (ip : Text) (l : List ℕ)
    → NotIn p l
    → Absent s ip l
    → Absent (put s p x) ip l
put-Absent s p x ip [] n h = tt
put-Absent s p x ip (q ∷ l) n h = (rw (n.0) h.0, put-Absent s p x ip l n.1 h.1)

put-DistinctPeers :
    (s : Store) (p : ℕ) (x : PhoneConnection) (l : List ℕ)
    → NotIn p l
    → DistinctPeers s l
    → DistinctPeers (put s p x) l
put-DistinctPeers s p x [] n h = tt
put-DistinctPeers s p x (q ∷ l) n h =
    (rw (n.0) (put-Absent s p x (s q).peer l n.1 h.0), put-DistinctPeers s p x l n.1 h.1)

pub lookup-NotIn : (s : Store) (ip : Text) (p : ℕ) (l : List ℕ) → NotIn p l → lookup s ip l ≢ some p
unfolding lookup
lookup-NotIn s ip p [] n e = cc
lookup-NotIn s ip p (q ∷ l) n e = elim (Bool-cases (text_eq (s q).peer ip)) [
  | inl hit ↦ ground arith
  | inr miss ↦ lookup-NotIn s ip p l n.1 (rw miss at e)
]

pub put-Ok :
    {c : Connector} {login : Login} (p : ℕ) (x : PhoneConnection) (s : PhonePool c login)
    → NotIn p s.connections
    → Ok s
    → Ok (record s { store = put s.store p x })
put-Ok p x s n ok = record {
  open_all = put-AllOpen s.store p x s.connections n ok.open_all;
  distinct = put-DistinctPeers s.store p x s.connections n ok.distinct;
  live = ok.live;
}

pub lookup-put :
    (s : Store) (p : ℕ) (x : PhoneConnection) (ip : Text) (l : List ℕ)
    → NotIn p l
    → lookup (put s p x) ip l ≡ lookup s ip l
unfolding lookup
lookup-put s p x ip [] n = refl
lookup-put s p x ip (q ∷ l) n = rw (n.0, lookup-put s p x ip l n.1) refl
