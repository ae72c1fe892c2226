-- ===== src/Examples/Devices.antt =====
-- Two phones: one idle, one that votes.
use schedule_center.Base.{◌+◌, true, [], ◌∷◌, some, ◌==◌, ◌≡◌, refl, arith, if◌then◌else◌}
use schedule_center.Base.Text.{Text, text_eq, c_str, show_int, digits, sprintf}
use schedule_center.Base.Map.{find, share, insert, insert_new, assign, replace}
use schedule_center.Mysql.{returned, execute_update, close_con, set_con, set_stmt}
use schedule_center.Mysql.Live.{IsLive}
use schedule_center.Devices.Sql.{set_status_sql, init_sql_conn}
use schedule_center.Devices.{
  DeviceMgr, DevicePro, set_status, get_status, get_status_count, init, device_status_offline,
}
use schedule_center.Devices.Status.{get_status-set_status}
use schedule_center.Devices.Count.{get_status_count-set_status}
use schedule_center.Devices.Loading.{init-offline}
use schedule_center.Examples.{ip_a, ip_b, server, login, live, unset}

abbrev idle : DevicePro
idle = record { status = 1 }

abbrev pub phones : DeviceMgr server
phones = record { devices_pro = (ip_a, idle) ∷ (ip_b, record { status = 4 }) ∷ []; db = live }

abbrev pub no_phones : DeviceMgr server
no_phones = record { devices_pro = []; db = unset }

-- After an update that the server refuses, on a new connection.
abbrev after : DeviceMgr server
after = record {
  devices_pro = (ip_a, record { status = 4 }) ∷ (ip_b, record { status = 4 }) ∷ [];
  db = record { con = some 1; stmt = some 1; world = 2 };
}

set_status_run : set_status server login ip_a 4 phones ≡ some after
unfolding set_status find insert text_eq sprintf set_status_sql c_str show_int digits execute_update
    init_sql_conn close_con set_con set_stmt assign replace
set_status_run = refl

abbrev loaded : DeviceMgr server
loaded = record {
  devices_pro = (ip_a, record { status = 2 }) ∷ [];
  db = record { con = some 0; stmt = some 0; world = 1 };
}

init_run : init server login no_phones ≡ some (returned true, loaded)
unfolding init init_sql_conn close_con set_con set_stmt insert find insert_new c_str
init_run = refl

get_status-set_status_example :
    (m' : DeviceMgr server) × (set_status server login ip_a 4 phones ≡ some m')
    × IsLive m'.db
    × ((j : Text)
        → get_status server j m' ≡ (if text_eq ip_a j then 4 else get_status server j phones))
unfolding text_eq
get_status-set_status_example = get_status-set_status login ip_a 4 phones (refl, refl) (omega arith)

get_status_count-set_status_example :
    get_status_count server 4 after + share (λ p. p.status == 4) (find ip_a phones.devices_pro)
    ≡ get_status_count server 4 phones + 1
get_status_count-set_status_example =
    get_status_count-set_status login ip_a 4 phones after 4 set_status_run

init-offline_example :
    IsLive loaded.db × ((ip : Text) → get_status server ip loaded ≡ device_status_offline)
init-offline_example = init-offline login no_phones loaded refl init_run
