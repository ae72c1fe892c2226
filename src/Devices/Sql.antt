-- ===== src/Devices/Sql.antt =====
-- The database side of device_mgr (src/common/device_mgr.cpp): its connection and its statement.
use schedule_center.Base.{ℕ, Bool, true, false, ◌++◌}
use schedule_center.Base.Text.{Text, codes, c_str, show_int}
use schedule_center.Mysql.{
  Connector, Login, Sql, pure, ◌>>=◌, ◌>>◌, try_catch, call, set_con, set_stmt, close_con,
  close_stmt,
}

-- The `INSERT … ON DUPLICATE KEY UPDATE` of `set_status`.
unfoldable pub set_status_sql : Text → ℕ → Text
set_status_sql ip status =
    codes "INSERT INTO device_info (`ip`, `status`) VALUES ('"
    ++ (c_str ip
        ++ (codes "', '"
            ++ (show_int status
                ++ (codes "') ON DUPLICATE KEY UPDATE `status`='"
                    ++ (show_int status ++ codes "'")))))

module _ (c : Connector) where
  abbrev pub connect_and_select : Login → Sql c Bool
  connect_and_select login = do
    p ← call c (c.connect login.ip login.usr login.pass)
    set_con c p
    call c (c.set_schema p (codes "schedulecenter"))
    s ← call c (c.create_statement p)
    set_stmt c s
    pure true

  -- `false`: an exception was caught. The old statement is not closed.
  unfoldable pub init_sql_conn : Login → Sql c Bool
  init_sql_conn login = do close_con c; try_catch (connect_and_select login) (pure false)

  -- `~device_mgr`
  unfoldable pub destroy : Sql c (Unit {0})
  destroy = do close_con c; close_stmt c
