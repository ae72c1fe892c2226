-- ===== src/Devices/Count.antt =====
-- `get_status_count` across `set_status` (src/common/device_mgr.cpp).
use schedule_center.Base.{ℕ, ◌+◌, Bool, some, ◌≡◌, ◌==◌, if◌then◌else◌, inl, inr, ◌⊎◌, arith, ap}
use schedule_center.Base.Text.{Text, text_eq_refl, sprintf}
use schedule_center.Base.Map.{
  Map, find, assign, insert, share, count_values, count_values-assign, count_values-insert,
  find-insert,
}
use schedule_center.Mysql.{Connector, Login}
use schedule_center.Devices.Sql.{set_status_sql}
use schedule_center.Devices.{
  DeviceMgr, DevicePro, zero_device, status_or_zero, set_status, get_status_count, update_row,
}

module _ {c : Connector} (login : Login) (ip : Text) (status : ℕ) (m m' : DeviceMgr c) where
  abbrev touched : Map DevicePro
  touched = insert ip zero_device m.devices_pro

  update_row-devices_pro :
      (sql : Text) (n : DeviceMgr c)
      → update_row c login sql n ≡ some m'
      → m'.devices_pro ≡ n.devices_pro
  update_row-devices_pro sql n e = ground arith

  set_status-inversion :
      set_status c login ip status m ≡ some m'
      → (m'.devices_pro ≡ touched) × (status_or_zero (find ip touched) ≡ status)
        ⊎ (m'.devices_pro ≡ assign ip (record { status = status }) touched)
  unfolding set_status sprintf
  set_status-inversion e = ground (
    arith,
    update_row-devices_pro (set_status_sql ip status)
        (record m { devices_pro = assign ip (record { status = status }) touched }),
  )

  abbrev has : ℕ → DevicePro → Bool
  has q p = p.status == q

  -- A key that was touched is there, so its share is that of its status.
  share-touched :
      (q : ℕ)
      → status_or_zero (find ip touched) ≡ status
      → share (has q) (find ip touched) ≡ (if status == q then 1 else 0)
  share-touched q same =
      ground (arith, text_eq_refl ip, find-insert ip ip zero_device m.devices_pro)

  -- When `set_status` ends, each count has lost what the phone added to it under its old status
  -- and gained what it adds under the new one.
  pub get_status_count-set_status :
      (q : ℕ)
      → set_status c login ip status m ≡ some m'
      → get_status_count c q m' + share (has q) (find ip m.devices_pro)
        ≡ get_status_count c q m + (if status == q then 1 else 0)
  unfolding get_status_count
  get_status_count-set_status q e = elim (set_status-inversion e) [
    | inl (touch, same) ↦ omega (
      arith,
      ap (count_values (has q)) touch,
      count_values-insert (has q) ip zero_device m.devices_pro,
      share-touched q same,
    )
    | inr update ↦ omega (
      arith,
      ap (count_values (has q)) update,
      count_values-insert (has q) ip zero_device m.devices_pro,
      count_values-assign (has q) ip (record { status = status }) touched,
    )
  ]
