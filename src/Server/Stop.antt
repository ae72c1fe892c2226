-- ===== src/Server/Stop.antt =====
-- The end of the server (src/common/main_task.cpp: handle_stop).
use schedule_center.Base.{ℕ, true, false, [], some, List, ◌≡◌, refl, All, is_some, if◌then◌else◌}
use schedule_center.Base.Text.{Text}
use schedule_center.Json.{Json}
use schedule_center.Mysql.{Connector, Login}
use schedule_center.Devices.{get_status, device_status_offline}
use schedule_center.Phones.{Ec}
use schedule_center.Phones.Pool.{Ok, connection_of}
use schedule_center.Phones.StopAll.{AllShort, stop_all_lem}
use schedule_center.Schedule
use schedule_center.Server.{
  Server, pool_of, with_pool, handle_stop, handle_phone_accept, handle_schedule_accept,
}

module _ (c : Connector) (login : Login) (j : Json) (fresh : List ℕ → ℕ) where
  -- A server that has stopped: both pools are empty, and an accept that was under way changes nothing.
  pub record IsStopped (s s' : Server c login j fresh) : Type 0 where
    pub stops : s'.stopped ≡ true
    pub no_phones : s'.common.connections ≡ []
    pub no_clients : s'.sches.connections ≡ []
    pub closed : All (λ q. (s'.common.store q).is_open ≡ false) s.common.connections
    pub phone_ignored : (e : Ec) → handle_phone_accept c login j fresh e s' ≡ some s'
    pub client_ignored : (e : Ec) → handle_schedule_accept c login j fresh e s' ≡ some s'
    pub statuses :
        (ip : Text)
        → get_status c ip s'.common.shared.devices ≡ (
            if is_some (connection_of (pool_of c login j fresh s.common) ip)
            then device_status_offline
            else get_status c ip s.common.shared.devices)

  -- A signal stops a server whose pool of phones is well-formed, with addresses of at most 500 bytes:
  -- both pools are empty then, the phones' connections are closed, exactly the phones of the pool are
  -- made offline, and no accept has an effect any more.
  pub handle_stop-IsStopped :
      (s : Server c login j fresh)
      → Ok (pool_of c login j fresh s.common)
      → AllShort s.common.store s.common.connections
      → (s' : Server c login j fresh) × (handle_stop c login j fresh s ≡ some s') × IsStopped s s'
  unfolding handle_stop handle_phone_accept handle_schedule_accept Schedule.stop_all
  handle_stop-IsStopped s ok short =
      let (pool, run, empty, closed, statuses) =
        stop_all_lem (pool_of c login j fresh s.common) ok short in
      (
        record s {
          phone_acceptor = false;
          schedule_acceptor = false;
          common = with_pool c login j fresh pool s.common;
          sches = Schedule.stop_all s.sches;
          stopped = true;
        },
        rw run refl,
        record {
          stops = refl;
          no_phones = empty;
          no_clients = refl;
          closed = closed;
          phone_ignored = λ e. refl;
          client_ignored = λ e. refl;
          statuses = statuses;
        },
      )
