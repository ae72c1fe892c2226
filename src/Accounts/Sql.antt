-- ===== src/Accounts/Sql.antt =====
-- The connection and the statement of wx_account_mgr (src/wx/wx_account_mgr.cpp).
use schedule_center.Base.{Bool, true, false}
use schedule_center.Base.Text.{codes}
use schedule_center.Mysql.{
  Connector, Login, Sql, pure, ◌>>=◌, ◌>>◌, try_catch, call, set_con, set_stmt, close_con,
  close_stmt,
}

module _ (c : Connector) where
  abbrev pub connect_and_select : Login → Sql c Bool
  connect_and_select login = do
    p ← call c (c.connect login.ip login.usr login.pass)
    set_con c p
    call c (c.set_schema p (codes "schedulecenter"))
    close_stmt c
    s ← call c (c.create_statement p)
    set_stmt c s
    pure true

  -- `false`: an exception was caught. Unlike that of device_mgr this closes the old statement.
  unfoldable pub init_sql_conn : Login → Sql c Bool
  init_sql_conn login = do close_con c; try_catch (connect_and_select login) (pure false)

  -- `~wx_account_mgr`
  unfoldable pub destroy : Sql c (Unit {0})
  destroy = do close_con c; close_stmt c
