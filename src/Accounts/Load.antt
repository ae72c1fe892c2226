-- ===== src/Accounts/Load.antt =====
-- `init` and `load_data` of wx_account_mgr: the accounts with their voted urls, and the idle list.
use schedule_center.Base.{ℕ, Bool, true, false, List, [], ◌∷◌, ◌++◌, Option, none, some}
use schedule_center.Base.Text.{Text, codes, c_str}
use schedule_center.Base.Map.{Map, insert}
use schedule_center.Mysql.{Outcome, returned, thrown, Row, Connector, Login, Db}
use schedule_center.Accounts.Sql.{init_sql_conn}
use schedule_center.Accounts.Data.{AccountPro, read_account, read_urls}
use schedule_center.Accounts.{AccountMgr}

module _ (c : Connector) where
  abbrev pub with_world : AccountMgr c → c.World → AccountMgr c
  with_world m w = record m { db = record m.db { world = w } }

  -- The rest of a round, when the urls of the account have been read, or reading them threw.
  abbrev pub add_account :
      Outcome (Map (Unit {0}))
      → Text
      → AccountPro
      → AccountMgr c
      → (AccountMgr c → Option (Bool × AccountMgr c))
      → Option (Bool × AccountMgr c)
  add_account thrown acc pro m rest = some (false, m)
  add_account (returned urls) acc pro m rest =
      rest (record m { accounts_pro = insert acc (record pro { voted_url = urls }) m.accounts_pro })

  abbrev pub urls_of : Outcome (List (Outcome Row)) → Outcome (Map (Unit {0}))
  urls_of thrown = thrown
  urls_of (returned rows) = read_urls rows []

  -- One round of the loop: the account is queued as idle before its urls are asked for.
  abbrev pub load_account :
      Outcome (Text × AccountPro)
      → Option ℕ
      → AccountMgr c
      → (AccountMgr c → Option (Bool × AccountMgr c))
      → Option (Bool × AccountMgr c)
  load_account thrown con m rest = some (false, m)
  load_account (returned (acc, pro)) none m rest = none
  load_account (returned (acc, pro)) (some p) m rest =
      let (r, w) =
        c.query_with p (codes "select * from wx_vote_url_status where acc = ?") (c_str acc)
          m.db.world in
      add_account (urls_of r) acc pro
        (with_world (record m { idle_accounts = m.idle_accounts ++ acc ∷ [] }) w) rest

  unfoldable pub load_accounts : List (Outcome Row) → AccountMgr c → Option (Bool × AccountMgr c)
  unfolding read_account read_urls
  load_accounts [] m = some (true, m)
  load_accounts (thrown ∷ rows) m = some (false, m)
  load_accounts (returned row ∷ rows) m =
      load_account (read_account row) m.db.con m (load_accounts rows)

  -- `res_acc->close()`, which only a loop that ran to its end reaches.
  abbrev pub close_rows : Option (Bool × AccountMgr c) → Option (Bool × AccountMgr c)
  close_rows none = none
  close_rows (some (false, m)) = some (false, m)
  close_rows (some (true, m)) =
      let (r, w) = c.close_result m.db.world in
      some (elim r [ returned _ ↦ true | thrown ↦ false ], with_world m w)

  abbrev pub read_rows : Outcome (List (Outcome Row)) → AccountMgr c → Option (Bool × AccountMgr c)
  read_rows thrown m = some (false, m)
  read_rows (returned rows) m = close_rows (load_accounts rows m)

  abbrev pub load_from : Option ℕ → AccountMgr c → Option (Bool × AccountMgr c)
  load_from none m = none
  load_from (some s) m =
      let (r, w) = c.execute_query s (codes "select * from wx_accounts_info;") m.db.world in
      read_rows r (with_world m w)

  unfoldable pub load_data : AccountMgr c → Option (Bool × AccountMgr c)
  unfolding load_accounts
  load_data m = load_from m.db.stmt (record m { accounts_pro = []; idle_accounts = [] })

  abbrev pub after_connect :
      Option (Outcome Bool × Db c) → AccountMgr c → Option (Outcome Bool × AccountMgr c)
  after_connect none m = none
  after_connect (some (thrown, d)) m = some (thrown, record m { db = d })
  after_connect (some (returned false, d)) m = some (returned false, record m { db = d })
  after_connect (some (returned true, d)) m = elim (load_data (record m { db = d })) [
    | none ↦ none
    | some (done, m') ↦ some (returned done, m')
  ]

  -- `thrown` is an exception that leaves `init`: that of closing an old connection.
  unfoldable pub init : Login → AccountMgr c → Option (Outcome Bool × AccountMgr c)
  unfolding load_data
  init login m = after_connect (init_sql_conn c login m.db) m
