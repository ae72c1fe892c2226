-- ===== src/Devices/Loading.antt =====
-- device_mgr::init (src/common/device_mgr.cpp): the phones that the table lists.
use schedule_center.Base.{
  ℕ, Bool, true, false, List, [], ◌∷◌, Option, none, some, ◌≡◌, refl, subst, sym, arith,
}
use schedule_center.Base.Text.{Text, text_eq_iff, codes, c_str}
use schedule_center.Base.Map.{Map, find, insert, find-insert}
use schedule_center.Mysql.{
  Outcome, returned, thrown, Row, Connector, Login, Db, pure, try_catch, call, set_con, set_stmt,
  close_con,
}
use schedule_center.Mysql.Live.{IsLive}
use schedule_center.Devices.Sql.{init_sql_conn, connect_and_select}
use schedule_center.Devices.{
  DeviceMgr, DevicePro, offline_device, load_row, load_rows, close_rows, read_rows, load,
  after_connect, init, get_status, device_status_offline,
}

module _ {c : Connector} where
  connect_and_select-live :
      (login : Login) (d d' : Db c)
      → connect_and_select c login d ≡ some (returned true, d')
      → IsLive d'
  unfolding call set_con set_stmt
  connect_and_select-live login d d' e = ground arith

  after_close-live :
      (login : Login) (r : Option (Outcome (Unit {0}) × Db c)) (d' : Db c)
      → elim r [
        | none ↦ none
        | some (returned _, d) ↦ try_catch (connect_and_select c login) (pure false) d
        | some (thrown, d) ↦ some (thrown, d)
      ]
        ≡ some (returned true, d')
      → IsLive d'
  after_close-live login none d' e = cc
  after_close-live login (some (returned _, d)) d' e =
      ground (arith, connect_and_select-live login d d')
  after_close-live login (some (thrown, d)) d' e = cc

  init_sql_conn-live :
      (login : Login) (d d' : Db c) → init_sql_conn c login d ≡ some (returned true, d') → IsLive d'
  unfolding init_sql_conn
  init_sql_conn-live login d d' e = after_close-live login (close_con c d) d' e

find-empty : (m : Map DevicePro) (ip : Text) → m ≡ [] → find ip m ≡ none
unfolding find
find-empty m ip e = ground arith

-- A phone that is in the map is offline.
abbrev pub AllOffline : Map DevicePro → Type 0
AllOffline m = (ip : Text) (p : DevicePro) → find ip m ≡ some p → p.status ≡ device_status_offline

AllOffline→status :
    (m : Map DevicePro) (ip : Text) (o : Option DevicePro)
    → find ip m ≡ o
    → AllOffline m
    → ◌≡◌ {A = ℕ}
        (elim o [ none ↦ device_status_offline | some p ↦ p.status ])
        device_status_offline
AllOffline→status m ip none e h = refl
AllOffline→status m ip (some p) e h = h ip p e

insert-AllOffline :
    (ip : Text) (m : Map DevicePro) → AllOffline m → AllOffline (insert ip offline_device m)
insert-AllOffline ip m h j p e =
    ground (arith, text_eq_iff ip j, find-insert ip j offline_device m, h j p)

load_row-AllOffline :
    (r : Outcome Text) (m : Map DevicePro) (rest : Map DevicePro → Map DevicePro × Bool)
    → AllOffline m
    → ((n : Map DevicePro) → AllOffline n → AllOffline (rest n).0)
    → AllOffline (load_row r m rest).0
load_row-AllOffline thrown m rest h k = h
load_row-AllOffline (returned ip) m rest h k = k _ (insert-AllOffline (c_str ip) m h)

load_rows-AllOffline :
    (rows : List (Outcome Row)) (m : Map DevicePro) → AllOffline m → AllOffline (load_rows rows m).0
unfolding load_rows
load_rows-AllOffline [] m h = h
load_rows-AllOffline (thrown ∷ rows) m h = h
load_rows-AllOffline (returned row ∷ rows) m h =
    load_row-AllOffline (row.get_string (codes "ip")) m (load_rows rows) h
      (load_rows-AllOffline rows)

module _ {c : Connector} where
  abbrev SameLinks : DeviceMgr c → DeviceMgr c → Type 0
  SameLinks m m' = (m'.db.con ≡ m.db.con) × (m'.db.stmt ≡ m.db.stmt)

  close_rows-ends :
      (done : Bool) (m : DeviceMgr c)
      → let m' = (close_rows c done m).1 in (m'.devices_pro ≡ m.devices_pro) × SameLinks m m'
  close_rows-ends true m = (refl, (refl, refl))
  close_rows-ends false m = (refl, (refl, refl))

  read_rows-ends :
      (r : Outcome (List (Outcome Row))) (m : DeviceMgr c)
      → AllOffline m.devices_pro
      → let m' = (read_rows c r m).1 in AllOffline m'.devices_pro × SameLinks m m'
  read_rows-ends thrown m h = (h, (refl, refl))
  read_rows-ends (returned rows) m h =
      let n : DeviceMgr c = record m { devices_pro = (load_rows rows m.devices_pro).0 } in
      let (same, links) = close_rows-ends (load_rows rows m.devices_pro).1 n in
      (subst AllOffline (sym same) (load_rows-AllOffline rows m.devices_pro h), links)

  abbrev Ends : DeviceMgr c → Option (Outcome Bool × DeviceMgr c) → Type 0
  Ends m none = Unit
  Ends m (some (_, m')) = AllOffline m'.devices_pro × SameLinks m m'

  load-Ends : (s : Option ℕ) (m : DeviceMgr c) → AllOffline m.devices_pro → Ends m (load c s m)
  load-Ends none m h = tt
  load-Ends (some s) m h =
      let (r, w) = c.execute_query s (codes "select * from device_info;") m.db.world in
      read_rows-ends r (record m { db = record m.db { world = w } }) h

  load-ends :
      (m m' : DeviceMgr c) (r : Outcome Bool)
      → AllOffline m.devices_pro
      → load c m.db.stmt m ≡ some (r, m')
      → AllOffline m'.devices_pro × SameLinks m m'
  load-ends m m' r h e = subst (Ends m) e (load-Ends m.db.stmt m h)

  after_connect-true :
      (o : Option (Outcome Bool × Db c)) (m m' : DeviceMgr c)
      → after_connect c o m ≡ some (returned true, m')
      → (d : Db c) × (o ≡ some (returned true, d))
        × (load c d.stmt (record m { db = d }) ≡ some (returned true, m'))
  after_connect-true none m m' e = cc
  after_connect-true (some (thrown, d)) m m' e = cc
  after_connect-true (some (returned false, d)) m m' e = cc
  after_connect-true (some (returned true, d)) m m' e = (d, refl, e)

  -- When `init` of an empty manager gives true, both pointers are set, and every phone, of the
  -- table or not, has the status offline.
  pub init-offline :
      (login : Login) (m m' : DeviceMgr c)
      → m.devices_pro ≡ []
      → init c login m ≡ some (returned true, m')
      → IsLive m'.db × ((ip : Text) → get_status c ip m' ≡ device_status_offline)
  unfolding get_status init
  init-offline login m m' h e =
      let (d, connected, loaded) = after_connect-true (init_sql_conn c login m.db) m m' e in
      let (all, (same_con, same_stmt)) =
        load-ends (record m { db = d }) m' (returned true)
          (λ ip p f. cc (find-empty m.devices_pro ip h)) loaded in
      let live = init_sql_conn-live login m.db d connected in
      (
        (rw same_con live.0, rw same_stmt live.1),
        λ ip. AllOffline→status m'.devices_pro ip (find ip m'.devices_pro) refl all,
      )
