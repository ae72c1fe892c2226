-- ===== src/Accounts/Live.antt =====
-- `init` of wx_account_mgr (src/wx/wx_account_mgr.cpp): the pointers after it.
use schedule_center.Base.{ℕ, Bool, true, false, List, [], ◌∷◌, Option, none, some, ◌≡◌, refl, arith}
use schedule_center.Base.Text.{Text}
use schedule_center.Base.Map.{Map}
use schedule_center.Mysql.{
  Outcome, returned, thrown, Row, Connector, Login, Db, pure, try_catch, call, set_con, set_stmt,
  close_con, close_stmt,
}
use schedule_center.Mysql.Live.{IsLive}
use schedule_center.Accounts.{AccountMgr}
use schedule_center.Accounts.Data.{AccountPro, read_account}
use schedule_center.Accounts.Sql.{connect_and_select, init_sql_conn}
use schedule_center.Accounts.Load.{
  add_account, load_account, load_accounts, close_rows, read_rows, load_from, load_data,
  after_connect, init,
}

module _ {c : Connector} where
  -- What a run that ended leaves.
  abbrev EndsLive : Option (Bool × AccountMgr c) → Type 0
  EndsLive none = Unit
  EndsLive (some (_, m)) = IsLive m.db

  abbrev StaysLive : (AccountMgr c → Option (Bool × AccountMgr c)) → Type 0
  StaysLive f = (m : AccountMgr c) → IsLive m.db → EndsLive (f m)

  add_account-EndsLive :
      (r : Outcome (Map (Unit {0}))) (acc : Text) (pro : AccountPro) (m : AccountMgr c)
      (rest : AccountMgr c → Option (Bool × AccountMgr c))
      → IsLive m.db
      → StaysLive rest
      → EndsLive (add_account c r acc pro m rest)
  add_account-EndsLive thrown acc pro m rest live k = live
  add_account-EndsLive (returned urls) acc pro m rest live k = k _ live

  load_account-EndsLive :
      (r : Outcome (Text × AccountPro)) (con : Option ℕ) (m : AccountMgr c)
      (rest : AccountMgr c → Option (Bool × AccountMgr c))
      → IsLive m.db
      → StaysLive rest
      → EndsLive (load_account c r con m rest)
  load_account-EndsLive thrown con m rest live k = live
  load_account-EndsLive (returned (acc, pro)) none m rest live k = tt
  load_account-EndsLive (returned (acc, pro)) (some p) m rest live k =
      add_account-EndsLive _ acc pro _ rest live k

  load_accounts-StaysLive : (rows : List (Outcome Row)) → StaysLive (load_accounts c rows)
  unfolding load_accounts
  load_accounts-StaysLive [] m live = live
  load_accounts-StaysLive (thrown ∷ rows) m live = live
  load_accounts-StaysLive (returned row ∷ rows) m live =
      load_account-EndsLive (read_account row) m.db.con m (load_accounts c rows) live
        (load_accounts-StaysLive rows)

  close_rows-EndsLive : (r : Option (Bool × AccountMgr c)) → EndsLive r → EndsLive (close_rows c r)
  close_rows-EndsLive none live = tt
  close_rows-EndsLive (some (false, m)) live = live
  close_rows-EndsLive (some (true, m)) live = live

  read_rows-StaysLive : (r : Outcome (List (Outcome Row))) → StaysLive (read_rows c r)
  read_rows-StaysLive thrown m live = live
  read_rows-StaysLive (returned rows) m live =
      close_rows-EndsLive (load_accounts c rows m) (load_accounts-StaysLive rows m live)

  load_from-StaysLive : (s : Option ℕ) → StaysLive (load_from c s)
  load_from-StaysLive none m live = tt
  load_from-StaysLive (some s) m live = read_rows-StaysLive _ _ live

  load_data-StaysLive : StaysLive (load_data c)
  unfolding load_data
  load_data-StaysLive m live =
      load_from-StaysLive m.db.stmt (record m { accounts_pro = []; idle_accounts = [] }) live

  after_close-live :
      (login : Login) (r : Option (Outcome (Unit {0}) × Db c)) (d' : Db c)
      → elim r [
        | none ↦ none
        | some (returned _, d) ↦ try_catch (connect_and_select c login) (pure false) d
        | some (thrown, d) ↦ some (thrown, d)
      ]
        ≡ some (returned true, d')
      → IsLive d'
  unfolding call set_con set_stmt close_stmt
  after_close-live login none d' e = cc
  after_close-live login (some (returned _, d)) d' e = ground arith
  after_close-live login (some (thrown, d)) d' e = cc

  loaded-live :
      (o : Option (Bool × AccountMgr c)) (m' : AccountMgr c)
      → EndsLive o
      → ◌≡◌ {A = Option (Outcome Bool × AccountMgr c)}
          (elim o [ none ↦ none | some (done, m) ↦ some (returned done, m) ])
          (some (returned true, m'))
      → IsLive m'.db
  loaded-live none m' live e = cc
  loaded-live (some (done, m)) m' live e = ground arith

  after_connect-live :
      (o : Option (Outcome Bool × Db c)) (m m' : AccountMgr c)
      → ((d : Db c) → o ≡ some (returned true, d) → IsLive d)
      → after_connect c o m ≡ some (returned true, m')
      → IsLive m'.db
  after_connect-live none m m' h e = cc
  after_connect-live (some (thrown, d)) m m' h e = cc
  after_connect-live (some (returned false, d)) m m' h e = cc
  after_connect-live (some (returned true, d)) m m' h e =
      loaded-live (load_data c (record m { db = d })) m'
        (load_data-StaysLive (record m { db = d }) (h d refl)) e

  -- When `init` gives true, both pointers are set.
  pub init-live :
      (login : Login) (m m' : AccountMgr c)
      → init c login m ≡ some (returned true, m')
      → IsLive m'.db
  unfolding init init_sql_conn
  init-live login m m' e =
      after_connect-live (init_sql_conn c login m.db) m m'
        (λ d f. after_close-live login (close_con c m.db) d f) e
