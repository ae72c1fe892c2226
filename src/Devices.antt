-- ===== src/Devices.antt =====
-- device_mgr (inc/common/device_mgr.hpp, src/common/device_mgr.cpp): the status of each phone by its
-- ip. Each method holds `rwmutex_` for its whole body, so it is one step here. `none` is a run that
-- C++ leaves undefined: a call through a NULL pointer, or a write past the end of an array.
pub mod Sql
pub mod Status
pub mod Count
pub mod Loading
use schedule_center.Base.{
  ℕ, Bool, true, false, List, [], ◌∷◌, Option, none, some, ◌==◌, if◌then◌else◌, ◌>>=◌,
}
use schedule_center.Base.Text.{Text, codes, c_str, sprintf}
use schedule_center.Base.Map.{Map, find, assign, insert, count_values}
use schedule_center.Mysql.{Outcome, returned, thrown, Row, Connector, Login, Db, execute_update}
use Sql.{set_status_sql, init_sql_conn}

abbrev pub device_status_online_idle : ℕ
device_status_online_idle = 1

abbrev pub device_status_offline : ℕ
device_status_offline = 2

abbrev pub device_status_task_begin : ℕ
device_status_task_begin = 3

abbrev pub device_status_wx_voting : ℕ
device_status_wx_voting = 4

abbrev pub device_status_wx_vote_end : ℕ
device_status_wx_vote_end = 5

abbrev pub device_status_daily_task : ℕ
device_status_daily_task = 6

abbrev pub device_status_daily_task_end : ℕ
device_status_daily_task_end = 7

pub record DevicePro : Type 0 where
  pub status : ℕ

-- What `devices_pro[ip]` makes for a new key.
abbrev pub zero_device : DevicePro
zero_device = record { status = 0 }

abbrev pub offline_device : DevicePro
offline_device = record { status = device_status_offline }

-- A row of `init`: `getString("ip")` may throw, and else the phone is entered as offline.
abbrev pub load_row :
    Outcome Text → Map DevicePro → (Map DevicePro → Map DevicePro × Bool) → Map DevicePro × Bool
load_row thrown m rest = (m, false)
load_row (returned ip) m rest = rest (insert (c_str ip) offline_device m)

-- The loop of `init` over the rows: the map and whether it ran to its end.
unfoldable pub load_rows : List (Outcome Row) → Map DevicePro → Map DevicePro × Bool
load_rows [] m = (m, true)
load_rows (thrown ∷ rows) m = (m, false)
load_rows (returned row ∷ rows) m = load_row (row.get_string (codes "ip")) m (load_rows rows)

-- The value of `devices_pro[ip].status` in a test.
abbrev pub status_or_zero : Option DevicePro → ℕ
status_or_zero none = 0
status_or_zero (some p) = p.status

module _ (c : Connector) where
  pub record DeviceMgr : Type 0 where
    pub devices_pro : Map DevicePro
    pub db : Db c

  -- `res->close()`, which only a loop that ran to its end reaches.
  abbrev pub close_rows : Bool → DeviceMgr → Outcome Bool × DeviceMgr
  close_rows false m = (returned false, m)
  close_rows true m =
      let (r, w) = c.close_result m.db.world in
      (
        elim r [ returned _ ↦ returned true | thrown ↦ returned false ],
        record m { db = record m.db { world = w } },
      )

  abbrev pub read_rows : Outcome (List (Outcome Row)) → DeviceMgr → Outcome Bool × DeviceMgr
  read_rows thrown m = (returned false, m)
  read_rows (returned rows) m =
      let (loaded, done) = load_rows rows m.devices_pro in
      close_rows done (record m { devices_pro = loaded })

  -- The body of `init` from the query on, at the statement; an exception is caught.
  abbrev pub load : Option ℕ → DeviceMgr → Option (Outcome Bool × DeviceMgr)
  load none m = none
  load (some s) m =
      let (r, w) = c.execute_query s (codes "select * from device_info;") m.db.world in
      some (read_rows r (record m { db = record m.db { world = w } }))

  -- `if (!init_sql_conn()) return false;`, and then the query.
  abbrev pub after_connect :
      Option (Outcome Bool × Db c) → DeviceMgr → Option (Outcome Bool × DeviceMgr)
  after_connect none m = none
  after_connect (some (thrown, d)) m = some (thrown, record m { db = d })
  after_connect (some (returned false, d)) m = some (returned false, record m { db = d })
  after_connect (some (returned true, d)) m = load d.stmt (record m { db = d })

  -- `thrown` is an exception that leaves `init`: that of closing an old connection.
  unfoldable pub init : Login → DeviceMgr → Option (Outcome Bool × DeviceMgr)
  unfolding load_rows
  init login m = after_connect (init_sql_conn c login m.db) m

  -- The guarded update; its exceptions are caught and printed.
  abbrev pub update_row : Login → Text → DeviceMgr → Option DeviceMgr
  update_row login sql m = elim (execute_update c (init_sql_conn c login) sql m.db) [
    | none ↦ none
    | some (_, d) ↦ some (record m { db = d })
  ]

  unfoldable pub set_status : Login → Text → ℕ → DeviceMgr → Option DeviceMgr
  set_status login ip status m =
      let touched = insert ip zero_device m.devices_pro in
      if status_or_zero (find ip touched) == status
      then some (record m { devices_pro = touched })
      else (do
        sql ← sprintf 640 (set_status_sql ip status)
        update_row login sql
            (record m { devices_pro = assign ip (record { status = status }) touched }))

  unfoldable pub get_status : Text → DeviceMgr → ℕ
  get_status ip m = elim (find ip m.devices_pro) [
    | none ↦ device_status_offline
    | some p ↦ p.status
  ]

  unfoldable pub get_status_count : ℕ → DeviceMgr → ℕ
  get_status_count status m = count_values (λ p. p.status == status) m.devices_pro

  unfoldable pub get_devices_pro_copy : DeviceMgr → Map DevicePro
  get_devices_pro_copy m = m.devices_pro
