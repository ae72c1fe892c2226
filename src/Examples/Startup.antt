-- ===== src/Examples/Startup.antt =====
-- A configuration that does not parse, and one that does.
use schedule_center.Base.{
  length, ◌≤◌, Bool, true, false, not, [], ◌∷◌, none, some, ◌≡◌, refl, arith,
}
use schedule_center.Base.Text.{Text, codes, c_str, text_eq_iff}
use schedule_center.Json.{Json}
use schedule_center.Mysql.{Login, returned, call, set_con, set_stmt, close_con, close_stmt}
use schedule_center.Config
use schedule_center.Config.{get_value, login_of}
use schedule_center.Config.Values.{IsTree, get_value_lem}
use schedule_center.Startup.{Queues, Start, Inits, init_fails, ready, exits, init_all, main}
use schedule_center.Startup.Serves.{ShortNames, main-Came}
use schedule_center.Devices
use schedule_center.Devices.{DeviceMgr, load_rows}
use schedule_center.Devices.Sql as DeviceSql
use schedule_center.Accounts.{AccountMgr}
use schedule_center.Accounts.Sql as AccountSql
use schedule_center.Accounts.Data.{AccountPro, read_account, read_urls}
use schedule_center.Accounts.Load
use schedule_center.Accounts.Load.{load_data, load_accounts}
use schedule_center.Base.Map.{find, contains, insert, insert_new}
use schedule_center.Server.Accept.{phone_connects}
use schedule_center.Server.Loop.{runs_posted, accepts, signalled, has_signal}
use schedule_center.Examples.Server.{above, above-NotIn, moment}
use schedule_center.Examples.Schedule.{tasks}
use schedule_center.Examples.Sessions.{decimal}
use schedule_center.Examples.{server, unset, ip_a}
use schedule_center.Examples.Devices.{no_phones}

-- A tree is a text, and every path leads to it.
abbrev texts : Json
texts = record {
  Ptree = Text;
  read_json = λ s. some s;
  has = λ _ _. true;
  child = λ pt _. some pt;
  get_int = λ _ _. none;
  get_string = λ pt _. some pt;
}

texts-IsTree : IsTree texts
texts-IsTree = record { finds = λ pt key plain. refl; texts = λ pt key. refl }

get_value_lem_example :
    get_value texts (codes "10.0.0.9") (codes "db") (codes "ip") ≡ returned (codes "10.0.0.9")
get_value_lem_example =
    get_value_lem texts texts-IsTree (codes "10.0.0.9") (codes "db") (codes "ip")
      (λ e. omega (arith, e), (λ e. omega (arith, e), tt))
      (λ e. omega (arith, e), (λ e. omega (arith, e), tt))

-- One queue, which is there or not.
abbrev one_queue : Queues
one_queue = record { State = Bool; create = λ s. (not s, true); remove = λ s. false }

abbrev garbled : Start one_queue decimal server texts tasks above
garbled = record {
  file = none;
  empty_tree = [];
  devices = no_phones;
  accounts = record { accounts_pro = []; idle_accounts = []; db = unset };
  tasks = true;
  task_state = [];
  listens = λ _. true;
  turns = [];
}

-- A start that finds a file, and a phone that connects before the server is stopped.
abbrev parsed : Start one_queue decimal server texts tasks above
parsed = record garbled {
  file = some (codes "x");
  devices = record { devices_pro = []; db = unset };
  turns = runs_posted moment ∷ accepts (phone_connects ip_a) ∷ signalled ∷ [];
}

-- What the initialisations leave: one phone, and one account that has voted for a url.
abbrev loaded : Inits one_queue decimal server texts tasks above
loaded = elim (init_all one_queue decimal server texts tasks above (true, codes "x") parsed) [
  | none ↦ init_fails
  | some r ↦ r
]

abbrev devices_of : Inits one_queue decimal server texts tasks above → DeviceMgr server
devices_of (ready l devices accounts) = devices
devices_of _ = no_phones

abbrev accounts_of : Inits one_queue decimal server texts tasks above → AccountMgr server
accounts_of (ready l devices accounts) = accounts
accounts_of _ = garbled.accounts

abbrev from_file : Login
from_file = record { ip = codes "x"; usr = codes "x"; pass = codes "x" }

parsed-loaded :
    init_all one_queue decimal server texts tasks above (true, codes "x") parsed
    ≡ some (ready from_file (devices_of loaded) (accounts_of loaded))
unfolding Devices.init Load.init load_data load_accounts read_account read_urls login_of get_value
    load_rows insert DeviceSql.init_sql_conn AccountSql.init_sql_conn call set_con set_stmt
    close_con close_stmt
parsed-loaded = refl

only_key :
    (k acc : Text) (p : AccountPro)
    → length k ≤ 500
    → contains acc ((k, p) ∷ []) ≡ true
    → length acc ≤ 500
unfolding find
only_key k acc p short e = ground (arith, text_eq_iff k acc)

loaded-ShortNames : ShortNames one_queue decimal server texts tasks above (accounts_of loaded)
unfolding Devices.init Load.init load_data load_accounts read_account read_urls login_of get_value
    load_rows insert DeviceSql.init_sql_conn AccountSql.init_sql_conn call set_con set_stmt
    close_con close_stmt find insert_new c_str
loaded-ShortNames acc e = only_key ip_a acc _ (omega arith) e

main-Came_example :
    main one_queue decimal server texts tasks above parsed false ≡ some (exits 0, false)
unfolding Config.init has_signal
main-Came_example =
    main-Came one_queue decimal server texts tasks above parsed false from_file (devices_of loaded)
      (accounts_of loaded) moment (accepts (phone_connects ip_a) ∷ signalled ∷ []) above-NotIn refl
      refl parsed-loaded loaded-ShortNames refl refl refl (omega arith, (tt, tt))
