-- ===== src/Accounts/Loaded.antt =====
-- `load_data` (src/wx/wx_account_mgr.cpp): the idle list beside the accounts.
use schedule_center.Base.{
  ℕ, Bool, true, false, List, [], ◌∷◌, ◌++◌, Option, none, some, ◌≡◌, refl, subst, arith,
  All-append, All-map,
}
use schedule_center.Base.Text.{Text, text_eq_iff}
use schedule_center.Base.Map.{Map, contains, insert, find-insert}
use schedule_center.Mysql.{Outcome, returned, thrown, Row, Connector}
use schedule_center.Accounts.Data.{AccountPro, read_account}
use schedule_center.Accounts.Load.{
  add_account, load_account, load_accounts, close_rows, read_rows, load_from, load_data,
}
use schedule_center.Accounts.{AccountMgr}
use schedule_center.Accounts.Daily.{IdleKnown}

-- An insertion forgets no account.
contains-insert :
    (acc j : Text) (p : AccountPro) (m : Map AccountPro)
    → contains j m ≡ true
    → contains j (insert acc p m) ≡ true
contains-insert acc j p m h = ground (arith, find-insert acc j p m)

contains-insert_self :
    (acc : Text) (p : AccountPro) (m : Map AccountPro) → contains acc (insert acc p m) ≡ true
contains-insert_self acc p m = ground (arith, find-insert acc acc p m, text_eq_iff acc acc)

module _ {c : Connector} where
  -- What a loop that ran to its end leaves.
  abbrev EndsKnown : Option (Bool × AccountMgr c) → Type 0
  EndsKnown none = Unit
  EndsKnown (some (false, m)) = Unit
  EndsKnown (some (true, m)) = IdleKnown m.accounts_pro m.idle_accounts

  abbrev KeepsKnown : (AccountMgr c → Option (Bool × AccountMgr c)) → Type 0
  KeepsKnown f = (m : AccountMgr c) → IdleKnown m.accounts_pro m.idle_accounts → EndsKnown (f m)

  add_account-EndsKnown :
      (r : Outcome (Map (Unit {0}))) (acc : Text) (pro : AccountPro) (m : AccountMgr c)
      (idle : List Text) (rest : AccountMgr c → Option (Bool × AccountMgr c))
      → m.idle_accounts ≡ idle ++ acc ∷ []
      → IdleKnown m.accounts_pro idle
      → KeepsKnown rest
      → EndsKnown (add_account c r acc pro m rest)
  add_account-EndsKnown thrown acc pro m idle rest e h k = tt
  add_account-EndsKnown (returned urls) acc pro m idle rest e h k = k _ (
      rw e (
        All-append _ idle (acc ∷ [])
          (All-map _ _ (λ j. contains-insert acc j (record pro { voted_url = urls }) m.accounts_pro)
            idle h)
          (contains-insert_self acc _ m.accounts_pro, tt)))

  load_account-EndsKnown :
      (r : Outcome (Text × AccountPro)) (con : Option ℕ) (m : AccountMgr c)
      (rest : AccountMgr c → Option (Bool × AccountMgr c))
      → IdleKnown m.accounts_pro m.idle_accounts
      → KeepsKnown rest
      → EndsKnown (load_account c r con m rest)
  load_account-EndsKnown thrown con m rest h k = tt
  load_account-EndsKnown (returned (acc, pro)) none m rest h k = tt
  load_account-EndsKnown (returned (acc, pro)) (some p) m rest h k =
      add_account-EndsKnown _ acc pro _ m.idle_accounts rest refl h k

  load_accounts-EndsKnown : (rows : List (Outcome Row)) → KeepsKnown (load_accounts c rows)
  unfolding load_accounts
  load_accounts-EndsKnown [] m h = h
  load_accounts-EndsKnown (thrown ∷ rows) m h = tt
  load_accounts-EndsKnown (returned row ∷ rows) m h =
      load_account-EndsKnown (read_account row) m.db.con m (load_accounts c rows) h
        (load_accounts-EndsKnown rows)

  done-EndsKnown :
      (r : Outcome (Unit {0})) (m : AccountMgr c)
      → IdleKnown m.accounts_pro m.idle_accounts
      → EndsKnown (some (elim r [ returned _ ↦ true | thrown ↦ false ], m))
  done-EndsKnown (returned _) m h = h
  done-EndsKnown thrown m h = tt

  close_rows-EndsKnown :
      (r : Option (Bool × AccountMgr c)) → EndsKnown r → EndsKnown (close_rows c r)
  close_rows-EndsKnown none h = tt
  close_rows-EndsKnown (some (false, m)) h = tt
  close_rows-EndsKnown (some (true, m)) h = done-EndsKnown (c.close_result m.db.world).0 _ h

  read_rows-EndsKnown : (r : Outcome (List (Outcome Row))) → KeepsKnown (read_rows c r)
  read_rows-EndsKnown thrown m h = tt
  read_rows-EndsKnown (returned rows) m h =
      close_rows-EndsKnown (load_accounts c rows m) (load_accounts-EndsKnown rows m h)

  load_from-EndsKnown : (s : Option ℕ) → KeepsKnown (load_from c s)
  load_from-EndsKnown none m h = tt
  load_from-EndsKnown (some s) m h = read_rows-EndsKnown _ _ h

  -- When `load_data` gives true, every idle account is a known account.
  pub load_data-IdleKnown :
      (m m' : AccountMgr c)
      → load_data c m ≡ some (true, m')
      → IdleKnown m'.accounts_pro m'.idle_accounts
  unfolding load_data
  load_data-IdleKnown m m' e =
      subst EndsKnown e
        (load_from-EndsKnown m.db.stmt (record m { accounts_pro = []; idle_accounts = [] }) tt)
