-- ===== src/Accounts/Idle.antt =====
-- Which account `get_idle_not_vote_account` hands out, and what `get_idle_not_vote_count` counts.
use schedule_center.Base.{
  ℕ, ◌+◌, Bool, true, false, List, [], ◌∷◌, ◌++◌, Option, none, some, ◌≡◌, ◌≢◌, refl, inl, inr, ◌⊎◌,
  Bool-cases, Option-cases, if◌then◌else◌, ◌∙◌, arith, ap, count_if, count_if-append, All, All-map,
}
use schedule_center.Base.Text.{Text}
use schedule_center.Base.Map.{Map, find, contains}
use schedule_center.Mysql.{Connector}
use schedule_center.Accounts.Data.{AccountPro, wx_account_status_normal, wx_account_status_abnormal}
use schedule_center.Accounts.{
  AccountMgr, pick, vote_status, may_vote, counts, get_idle_not_vote_account,
  get_idle_not_vote_count,
}

abbrev pub Picks : (Text → Bool) → List Text → Option (Text × List Text) → Type 0
Picks p xs none = All (λ x. p x ≡ false) xs
Picks p xs (some (a, rest)) =
    (before : List Text) × (after : List Text) × (xs ≡ before ++ a ∷ after)
    × (rest ≡ before ++ after)
    × All (λ x. p x ≡ false) before
    × (p a ≡ true)

Picks-cons :
    (p : Text → Bool) (x : Text) (xs : List Text) (r : Option (Text × List Text))
    → p x ≡ false
    → Picks p xs r
    → Picks p (x ∷ xs) (elim r [ none ↦ none | some (a, rest) ↦ some (a, x ∷ rest) ])
Picks-cons p x xs none h s = (h, s)
Picks-cons p x xs (some (a, rest)) h (before, after, e, e', skipped, good) =
    (x ∷ before, after, ap (◌∷◌ x) e, ap (◌∷◌ x) e', (h, skipped), good)

pub pick-Picks : (p : Text → Bool) (xs : List Text) → Picks p xs (pick p xs)
unfolding pick
pick-Picks p [] = tt
pick-Picks p (x ∷ xs) = elim (Bool-cases (p x)) [
  | inl hit ↦ rw hit ([], xs, refl, refl, tt, hit)
  | inr miss ↦ rw miss (Picks-cons p x xs (pick p xs) miss (pick-Picks p xs))
]

-- The account is known, has no vote for the url, and is not marked abnormal.
pub record CanVote (url : Text) (m : Map AccountPro) (acc : Text) : Type 0 where
  pub pro : AccountPro
  pub known : find acc m ≡ some pro
  pub fresh : contains url pro.voted_url ≡ false
  pub sound : pro.status ≢ wx_account_status_abnormal

module _ (url : Text) (m : Map AccountPro) (acc : Text) where
  known-of-may_vote : may_vote url m acc ≡ true → (p : AccountPro) × (find acc m ≡ some p)
  unfolding vote_status
  known-of-may_vote h = ground arith

  may_vote→CanVote : may_vote url m acc ≡ true → CanVote url m acc
  unfolding vote_status
  may_vote→CanVote h =
      let (p, e) = known-of-may_vote h in
      record { pro = p; known = e; fresh = ground arith; sound = ground arith }

  may_vote-false : may_vote url m acc ≡ false → ¬ CanVote url m acc
  unfolding vote_status
  may_vote-false h v = ground (arith, v.known, v.fresh, v.sound)

-- What handing out does: no idle account is fit and nothing changes, or the first one that is fit
-- is taken out of the idle list.
abbrev pub Turn :
    (c : Connector) → (Text → Type 0) → AccountMgr c → Option Text × AccountMgr c → Type 0
Turn c Fit m (none, m') = All (λ acc. ¬ Fit acc) m.idle_accounts × (m' ≡ m)
Turn c Fit m (some acc, m') =
    (before : List Text) × (after : List Text) × (m.idle_accounts ≡ before ++ acc ∷ after)
    × (m' ≡ record m { idle_accounts = before ++ after })
    × All (λ other. ¬ Fit other) before
    × Fit acc

pub Picks-Turn :
    {c : Connector} {Fit : Text → Type 0} (p : Text → Bool) (m : AccountMgr c)
    (r : Option (Text × List Text))
    → ((acc : Text) → p acc ≡ true → Fit acc)
    → ((acc : Text) → p acc ≡ false → ¬ Fit acc)
    → Picks p m.idle_accounts r
    → Turn c Fit m (elim r [
      | none ↦ (none, m)
      | some (acc, rest) ↦ (some acc, record m { idle_accounts = rest })
    ])
Picks-Turn p m none fit unfit s = (All-map _ _ unfit m.idle_accounts s, refl)
Picks-Turn p m (some (acc, rest)) fit unfit (before, after, e, e', skipped, good) = (
  before,
  after,
  e,
  ap (λ (idle : List Text). record m { idle_accounts = idle }) e',
  All-map _ _ unfit before skipped,
  fit acc good,
)

-- In one undisturbed call, with any accounts and any idle list: the account that is handed out is
-- the first idle one that is known, has not voted for the url and is not abnormal, and it leaves
-- the idle list; if there is none the call gives none and changes nothing.
pub get_idle_not_vote_account_lem :
    {c : Connector} (url : Text) (m : AccountMgr c)
    → Turn c (CanVote url m.accounts_pro) m (get_idle_not_vote_account c url m)
unfolding get_idle_not_vote_account
get_idle_not_vote_account_lem url m =
    Picks-Turn _ m _ (may_vote→CanVote url m.accounts_pro) (may_vote-false url m.accounts_pro)
      (pick-Picks (may_vote url m.accounts_pro) m.idle_accounts)

-- Every account has one of the two statuses.
abbrev pub HasStatus : Map AccountPro → Type 0
HasStatus m =
    (acc : Text) (p : AccountPro)
    → find acc m ≡ some p
    → (p.status ≡ wx_account_status_normal) ⊎ (p.status ≡ wx_account_status_abnormal)

module _ (url : Text) (m : Map AccountPro) (ok : HasStatus m) where
  counts-eq-may_vote : (acc : Text) → counts url m acc ≡ may_vote url m acc
  unfolding vote_status
  counts-eq-may_vote acc = elim (Option-cases (find acc m)) [
    | inl e ↦ ground arith
    | inr (p, e) ↦ ground (arith, ok acc p e)
  ]

  count-none :
      (xs : List Text) → All (λ x. may_vote url m x ≡ false) xs → count_if (counts url m) xs ≡ 0
  count-none [] h = refl
  count-none (x ∷ xs) h = rw (counts-eq-may_vote x, h.0) (omega (arith, count-none xs h.1))

  -- What a turn does to the count.
  abbrev Drops : ℕ → Option (Text × List Text) → Type 0
  Drops n none = n ≡ 0
  Drops n (some (_, rest)) = n ≡ count_if (counts url m) rest + 1

  Picks-Drops :
      (xs : List Text) (r : Option (Text × List Text))
      → Picks (may_vote url m) xs r
      → Drops (count_if (counts url m) xs) r
  Picks-Drops xs none s = count-none xs s
  Picks-Drops xs (some (a, rest)) (before, after, e, e', skipped, good) = omega (
    arith,
    ap (count_if (counts url m)) e,
    ap (count_if (counts url m)) e',
    count_if-append (counts url m) before (a ∷ after),
    count_if-append (counts url m) before after,
    ap (λ (b : Bool). (if b then 1 else 0) + count_if (counts url m) after)
        (counts-eq-may_vote a ∙ good),
  )

-- What is left to hand out: nothing if the call gave none, else one less than before.
abbrev pub Lowers : (c : Connector) → Text → ℕ → Option Text × AccountMgr c → Type 0
Lowers c url n (none, m') = (n ≡ 0) × (get_idle_not_vote_count c url m' ≡ 0)
Lowers c url n (some _, m') = n ≡ get_idle_not_vote_count c url m' + 1

module _ {c : Connector} (url : Text) (m : AccountMgr c) where
  Lowers-of-Drops :
      (ok : HasStatus m.accounts_pro) (r : Option (Text × List Text))
      → Drops url m.accounts_pro ok (get_idle_not_vote_count c url m) r
      → Lowers c url (get_idle_not_vote_count c url m) (elim r [
        | none ↦ (none, m)
        | some (acc, rest) ↦ (some acc, record m { idle_accounts = rest })
      ])
  unfolding get_idle_not_vote_count
  Lowers-of-Drops ok none d = (d, d)
  Lowers-of-Drops ok (some (acc, rest)) d = d

  -- If every account is normal or abnormal, a call gives an account exactly when the count is not
  -- zero, and each account that is handed out lowers the count by one.
  pub get_idle_not_vote_count-get :
      HasStatus m.accounts_pro
      → Lowers c url (get_idle_not_vote_count c url m) (get_idle_not_vote_account c url m)
  unfolding get_idle_not_vote_account get_idle_not_vote_count
  get_idle_not_vote_count-get ok =
      Lowers-of-Drops ok (pick (may_vote url m.accounts_pro) m.idle_accounts) (
        Picks-Drops url m.accounts_pro ok m.idle_accounts _
          (pick-Picks (may_vote url m.accounts_pro) m.idle_accounts))
