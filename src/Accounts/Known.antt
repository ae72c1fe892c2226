-- ===== src/Accounts/Known.antt =====
-- The methods of wx_account_mgr (src/wx/wx_account_mgr.cpp): the idle list beside the accounts.
use schedule_center.Base.{
  ℕ, true, List, [], ◌∷◌, ◌++◌, Option, none, some, ◌≡◌, refl, sym, subst, arith, All, All-append,
  All-map, inl, inr, ◌⊎◌, >>=-eq-some, some-injective,
}
use schedule_center.Base.Text.{Text, sprintf}
use schedule_center.Base.Map.{Map, find, contains, assign, find-assign}
use schedule_center.Mysql.{Connector, Login}
use schedule_center.Accounts.Data.{AccountPro}
use schedule_center.Accounts.{
  AccountMgr, update_row, set_account, set_vote_status, set_acc_status, set_everyday_task,
  reset_each, reset_all_everyday_task, get_idle_not_vote_account, get_idle_not_daily_task_account,
  set_idle_account,
}
use schedule_center.Accounts.Idle.{Turn, get_idle_not_vote_account_lem}
use schedule_center.Accounts.Daily.{IdleKnown, get_idle_not_daily_task_account_lem}

-- The calls of a manager's methods that change it.
pub data Call : Type 0 where
  vote_turn : Text → Call
  daily_turn : Call
  give_back : Text → Call
  set_vote : Text → Text → ℕ → Call
  set_status : Text → ℕ → Call
  set_daily : Text → ℕ → Call
  reset_daily : Call

-- Sessions give back accounts that they were handed.
abbrev pub Allowed : {c : Connector} → AccountMgr c → Call → Type 0
Allowed m (give_back acc) = contains acc m.accounts_pro ≡ true
Allowed m _ = Unit

abbrev pub apply : (c : Connector) → Login → Call → AccountMgr c → Option (AccountMgr c)
apply c login (vote_turn url) m = some (get_idle_not_vote_account c url m).1
apply c login daily_turn m = some (get_idle_not_daily_task_account c m).1
apply c login (give_back acc) m = some (set_idle_account c acc m)
apply c login (set_vote acc url status) m = set_vote_status c login acc url status m
apply c login (set_status acc status) m = set_acc_status c login acc status m
apply c login (set_daily acc b_done) m = set_everyday_task c login acc b_done m
apply c login reset_daily m = reset_all_everyday_task c login m

abbrev Known : {c : Connector} → AccountMgr c → Type 0
Known m = IdleKnown m.accounts_pro m.idle_accounts

All-drop :
    (P : Text → Type 0) (xs : List Text) (a : Text) (ys : List Text)
    → All P (xs ++ a ∷ ys)
    → All P (xs ++ ys)
All-drop P [] a ys h = h.1
All-drop P (x ∷ xs) a ys h = (h.0, All-drop P xs a ys h.1)

contains-assign :
    (acc j : Text) (p : AccountPro) (m : Map AccountPro)
    → contains j m ≡ true
    → contains j (assign acc p m) ≡ true
contains-assign acc j p m h = ground (arith, find-assign acc j p m)

module _ {c : Connector} where
  Turn-Known :
      (Fit : Text → Type 0) (m : AccountMgr c) (r : Option Text × AccountMgr c)
      → Turn c Fit m r
      → Known m
      → Known r.1
  Turn-Known Fit m (none, m') (_, same) h = subst Known (sym same) h
  Turn-Known Fit m (some acc, m') (before, after, e, same, _, _) h =
      subst Known (sym same) (All-drop _ before acc after (subst (IdleKnown m.accounts_pro) e h))

  update_row-fields :
      (login : Login) (sql : Text) (m m' : AccountMgr c)
      → update_row c login sql m ≡ some m'
      → (m'.idle_accounts ≡ m.idle_accounts) × (m'.accounts_pro ≡ m.accounts_pro)
  update_row-fields login sql m m' e = ground arith

  pub set_account-fields :
      (login : Login) (acc : Text) (f : AccountPro → AccountPro) (size : ℕ) (sql : Text)
      (m m' : AccountMgr c) (o : Option AccountPro)
      → find acc m.accounts_pro ≡ o
      → set_account c login acc f size sql m ≡ some m'
      → (m'.idle_accounts ≡ m.idle_accounts)
        × ((m'.accounts_pro ≡ m.accounts_pro)
            ⊎ ((p : AccountPro) × (m'.accounts_pro ≡ assign acc p m.accounts_pro)))
  set_account-fields login acc f size sql m m' none known e = (ground arith, inl (ground arith))
  set_account-fields login acc f size sql m m' (some p) known e =
      let n : AccountMgr c = record m { accounts_pro = assign acc (f p) m.accounts_pro } in
      let (query, _, run) =
        >>=-eq-some (sprintf size sql) (λ q. update_row c login q n)
          (rw (known, set_account) at e) in
      let (idle, accounts) = update_row-fields login query n m' run in (idle, inr (f p, accounts))

  set_account-Known :
      (login : Login) (acc : Text) (f : AccountPro → AccountPro) (size : ℕ) (sql : Text)
      (m m' : AccountMgr c)
      → set_account c login acc f size sql m ≡ some m'
      → Known m
      → Known m'
  set_account-Known login acc f size sql m m' e h =
      let (idle, way) = set_account-fields login acc f size sql m m' _ refl e in
      elim way [
        | inl same ↦ rw (idle, same) h
        | inr (p, changed) ↦
            rw (idle, changed)
              (All-map _ _ (λ j. contains-assign acc j p m.accounts_pro) m.idle_accounts h)
      ]

  set_everyday_task-Known :
      (login : Login) (acc : Text) (b_done : ℕ) (m m' : AccountMgr c)
      → set_everyday_task c login acc b_done m ≡ some m'
      → Known m
      → Known m'
  unfolding set_everyday_task
  set_everyday_task-Known login acc b_done m m' e h = set_account-Known login acc _ _ _ m m' e h

  reset_each-Known :
      (login : Login) (keys : Map AccountPro) (m m' : AccountMgr c)
      → reset_each c login keys m ≡ some m'
      → Known m
      → Known m'
  unfolding reset_each
  reset_each-Known login [] m m' e h = subst (Known {c = c}) (some-injective _ _ e) h
  reset_each-Known login ((acc, _) ∷ keys) m m' e h =
      let (n, first, rest) =
        >>=-eq-some (set_everyday_task c login acc 0 m) (reset_each c login keys) e in
      reset_each-Known login keys n m' rest (set_everyday_task-Known login acc 0 m n first h)

  give_back-Known :
      (acc : Text) (m : AccountMgr c)
      → contains acc m.accounts_pro ≡ true
      → Known m
      → Known (set_idle_account c acc m)
  unfolding set_idle_account
  give_back-Known acc m known h = All-append _ m.idle_accounts (acc ∷ []) h (known, tt)

  -- Every method that changes the manager keeps every idle account known, if an account that is
  -- given back is a known one.
  pub apply-IdleKnown :
      (login : Login) (call : Call) (m m' : AccountMgr c)
      → Allowed m call
      → apply c login call m ≡ some m'
      → IdleKnown m.accounts_pro m.idle_accounts
      → IdleKnown m'.accounts_pro m'.idle_accounts
  unfolding set_vote_status set_acc_status reset_all_everyday_task
  apply-IdleKnown login (vote_turn url) m m' ok e h =
      subst (Known {c = c}) (some-injective _ _ e)
        (Turn-Known _ m _ (get_idle_not_vote_account_lem url m) h)
  apply-IdleKnown login daily_turn m m' ok e h =
      subst (Known {c = c}) (some-injective _ _ e)
        (Turn-Known _ m _ (get_idle_not_daily_task_account_lem m h) h)
  apply-IdleKnown login (give_back acc) m m' ok e h =
      subst (Known {c = c}) (some-injective _ _ e) (give_back-Known acc m ok h)
  apply-IdleKnown login (set_vote acc url status) m m' ok e h =
      set_account-Known login acc _ _ _ m m' e h
  apply-IdleKnown login (set_status acc status) m m' ok e h =
      set_account-Known login acc _ _ _ m m' e h
  apply-IdleKnown login (set_daily acc b_done) m m' ok e h =
      set_everyday_task-Known login acc b_done m m' e h
  apply-IdleKnown login reset_daily m m' ok e h = reset_each-Known login m.accounts_pro m m' e h
