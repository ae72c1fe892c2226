-- ===== src/Devices/Status.antt =====
-- `get_status` across `set_status` (src/common/device_mgr.cpp), over any database.
use schedule_center.Base.{
  ℕ, ◌+◌, ◌≤◌, true, false, some, ◌≡◌, refl, ◌==◌, if◌then◌else◌, inl, inr, ◌⊎◌, Bool-cases, arith,
  length, length-append,
}
use schedule_center.Base.Text.{
  Text, text_eq, text_eq_iff, length-c_str, length-show_int, sprintf-fits,
}
use schedule_center.Base.Map.{Map, find, assign, insert, find-assign, find-insert}
use schedule_center.Mysql.{Connector, Login, execute_update}
use schedule_center.Mysql.Live.{
  IsLive, KeepsLive, KeepsLive→end, bind-KeepsLive, try_catch-KeepsLive, pure-KeepsLive,
  call-KeepsLive, set_con-KeepsLive, set_stmt-KeepsLive, close_con-KeepsLive,
  execute_update-KeepsLive,
}
use schedule_center.Devices.Sql.{set_status_sql, init_sql_conn}
use schedule_center.Devices.{
  DeviceMgr, DevicePro, zero_device, status_or_zero, set_status, get_status, update_row,
}

-- The query is the ip, up to its NUL, and at most 115 bytes more.
pub length-set_status_sql :
    (ip : Text) (status : ℕ) → length (set_status_sql ip status) ≤ length ip + 115
unfolding set_status_sql
length-set_status_sql ip status =
    simp length-append (omega (arith, length-c_str ip, length-show_int status))

module _ {c : Connector} where
  pub init_sql_conn-KeepsLive : (login : Login) → KeepsLive (init_sql_conn c login)
  unfolding init_sql_conn
  init_sql_conn-KeepsLive login = bind-KeepsLive _ _ close_con-KeepsLive λ _.
      try_catch-KeepsLive _ _
        (bind-KeepsLive _ _ (call-KeepsLive _) λ p. bind-KeepsLive _ _ (set_con-KeepsLive p) λ _.
          bind-KeepsLive _ _ (call-KeepsLive _) λ _.
            bind-KeepsLive _ _ (call-KeepsLive _)
              λ s. bind-KeepsLive _ _ (set_stmt-KeepsLive s) λ _. pure-KeepsLive true)
        (pure-KeepsLive false)

  update_row-some :
      (login : Login) (sql : Text) (m : DeviceMgr c)
      → IsLive m.db
      → (m' : DeviceMgr c) × (update_row c login sql m ≡ some m')
        × IsLive m'.db
        × (m'.devices_pro ≡ m.devices_pro)
  update_row-some login sql m live =
      let (r, d, e, live') =
        KeepsLive→end (execute_update c (init_sql_conn c login) sql) m.db
          (execute_update-KeepsLive _ sql (init_sql_conn-KeepsLive login)) live in
      (record m { db = d }, rw (e, update_row) refl, live', refl)

module _ {c : Connector} (login : Login) (ip : Text) (status : ℕ) (m : DeviceMgr c) where
  abbrev touched : Map DevicePro
  touched = insert ip zero_device m.devices_pro

  abbrev updated : Map DevicePro
  updated = assign ip (record { status = status }) touched

  -- The two ways through `set_status`, for live pointers and an ip that fits the query.
  set_status-cases :
      IsLive m.db
      → length ip ≤ 500
      → (m' : DeviceMgr c) × (set_status c login ip status m ≡ some m')
        × IsLive m'.db
        × ((m'.devices_pro ≡ touched) × (status_or_zero (find ip touched) ≡ status)
            ⊎ (m'.devices_pro ≡ updated))
  unfolding set_status
  set_status-cases live short = elim (Bool-cases (status_or_zero (find ip touched) == status)) [
    | inl same ↦ (record m { devices_pro = touched }, rw same refl, live, inl (refl, ground arith))
    | inr other ↦
        let (m', e, live', kept) =
          update_row-some login (set_status_sql ip status) (record m { devices_pro = updated })
            live in
        (
          m',
          rw
              (
                other,
                sprintf-fits 640 (set_status_sql ip status)
                    (omega (arith, length-set_status_sql ip status)),
              )
              e,
          live',
          inr kept,
        )
  ]

  -- The first way: only the key was touched.
  get_status-touched :
      (m' : DeviceMgr c) (j : Text)
      → m'.devices_pro ≡ touched
      → status_or_zero (find ip touched) ≡ status
      → get_status c j m' ≡ (if text_eq ip j then status else get_status c j m)
  unfolding get_status
  get_status-touched m' j e same = ground (
    arith,
    text_eq_iff ip j,
    find-insert ip j zero_device m.devices_pro,
    find-insert ip ip zero_device m.devices_pro,
  )

  -- The second way: the status was assigned.
  get_status-updated :
      (m' : DeviceMgr c) (j : Text)
      → m'.devices_pro ≡ updated
      → get_status c j m' ≡ (if text_eq ip j then status else get_status c j m)
  unfolding get_status
  get_status-updated m' j e = ground (
    arith,
    text_eq_iff ip j,
    find-insert ip j zero_device m.devices_pro,
    find-assign ip j (record { status = status }) touched,
  )

  -- With live pointers and an ip of at most 500 bytes, `set_status` ends, keeps the pointers live,
  -- and afterwards `get_status` gives the new status for that ip and the old one for any other,
  -- whatever the database answers or throws.
  pub get_status-set_status :
      IsLive m.db
      → length ip ≤ 500
      → (m' : DeviceMgr c) × (set_status c login ip status m ≡ some m')
        × IsLive m'.db
        × ((j : Text) → get_status c j m' ≡ (if text_eq ip j then status else get_status c j m))
  get_status-set_status live short =
      let (m', e, live', way) = set_status-cases live short in
      (
        m',
        e,
        live',
        λ j. elim way [
          | inl (touch, same) ↦ get_status-touched m' j touch same
          | inr update ↦ get_status-updated m' j update
        ],
      )
