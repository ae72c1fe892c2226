-- ===== src/Phones.antt =====
-- pho_conn_pool and phone_connection (src/common/pho_conn_pool.cpp, phone_connection.cpp): the phones
-- that are connected. Pool and handlers run on the one thread of the `io_service`; the sessions call
-- `find_connection` and `restart_lua` from threads of their own, with no lock. A call is one step.
-- `none` is an exception that leaves the call (`remote_endpoint` throws for a closed socket, and for an
-- open one whose peer has reset the connection), or a run that C++ leaves undefined.
pub mod Lists
pub mod Pool
pub mod Start
pub mod StopAll
pub mod Fresh
use schedule_center.Base.{
  ℕ, ◌<◌, Bool, true, false, not, ◌||◌, ◌&&◌, List, [], ◌∷◌, Option, none, some, ◌==◌, ltb,
  if◌then◌else◌, ◌>>=◌, drop,
}
use schedule_center.Base.Text.{Text, text_eq}
use schedule_center.Base.Pointers.{put, insert_ptr, erase_ptr}
use schedule_center.Mysql.{Connector, Login}
use schedule_center.Devices.{
  DeviceMgr, set_status, device_status_online_idle, device_status_offline,
}
use schedule_center.Protocol.{
  AppRecv, read_int, int_bytes, cmd_app_heartbeat, cmd_app_start_lua, cmd_app_restart_lua,
  cmd_app_stop_lua, cmd_app_reboot,
}

-- A connection: the peer's address, whether the socket is open, whether the peer has reset it, whether
-- a read is pending, and the bytes that were written.
pub record PhoneConnection : Type 0 where
  pub peer : Text
  pub is_open : Bool
  pub reset : Bool
  pub reading : Bool
  pub written : List Text

-- The objects, by the address that a `shared_ptr` holds.
abbrev pub Store : Type 0
Store = ℕ → PhoneConnection

-- The socket is open, and connected to its peer.
abbrev pub has_peer : PhoneConnection → Bool
has_peer x = x.is_open && not x.reset

-- The peer resets the connection. The socket stays open.
unfoldable pub reset_peer : ℕ → Store → Store
reset_peer p s = put s p (record (s p) { reset = true })

-- `socket().remote_endpoint().address().to_string()`
abbrev pub remote_ip : Store → ℕ → Option Text
remote_ip s p = if has_peer (s p) then some (s p).peer else none

-- `pho_conn_pool::find_connection`; the inner option is the pointer, NULL as `none`.
unfoldable pub find_connection : Store → Text → List ℕ → Option (Option ℕ)
find_connection s ip [] = some none
find_connection s ip (p ∷ l) =
    let rest = find_connection s ip l in
    remote_ip s p >>= λ a. if text_eq a ip then some (some p) else rest

-- What `do_read_msg` signals to the slots of `op_ok_sig_`.
unfoldable pub do_read_msg : AppRecv → Option ℕ
do_read_msg m =
    if m.cmd == cmd_app_heartbeat
    then none
    else if (m.cmd == cmd_app_start_lua || m.cmd == cmd_app_stop_lua)
        || (m.cmd == cmd_app_restart_lua || m.cmd == cmd_app_reboot)
    then if m.result == 0 then some m.cmd else none
    else none

-- `memcpy(&mca.cmd, buffer_.data(), sizeof(mca))`
unfoldable pub read_msg : Text → Option AppRecv
read_msg buffer = read_int buffer >>= λ cmd.
    read_int (drop 4 buffer) >>= λ result. some (record { cmd = cmd; result = result })

-- The error code that a handler is given.
pub data Ec : Type 0 where
  no_error operation_aborted other_error : Ec

module _ (c : Connector) (login : Login) where
  pub record PhonePool : Type 0 where
    pub connections : List ℕ
    pub store : Store
    pub devices : DeviceMgr c

  abbrev pub set_ip_status : Text → ℕ → PhonePool → Option PhonePool
  set_ip_status ip status s =
      set_status c login ip status s.devices >>= λ d. some (record s { devices = d })

  -- `phone_connection::start`: a read is pending.
  unfoldable pub start_reading : ℕ → PhonePool → PhonePool
  start_reading p s = record s { store = put s.store p (record (s.store p) { reading = true }) }

  -- `phone_connection::stop`
  unfoldable pub close_socket : ℕ → PhonePool → PhonePool
  close_socket p s =
      if (s.store p).is_open
      then record s { store = put s.store p (record (s.store p) { is_open = false }) }
      else s

  -- `pho_conn_pool::stop`
  unfoldable pub stop : ℕ → PhonePool → Option PhonePool
  unfolding close_socket erase_ptr
  stop p s = remote_ip s.store p >>= λ ip. set_ip_status ip device_status_offline s >>= λ s'.
      some (close_socket p (record s' { connections = erase_ptr p s'.connections }))

  abbrev pub stop_found : Option ℕ → PhonePool → Option PhonePool
  stop_found none s = some s
  stop_found (some p) s = stop p s

  -- `pho_conn_pool::start`
  unfoldable pub start : ℕ → PhonePool → Option PhonePool
  unfolding find_connection stop start_reading insert_ptr
  start p s = remote_ip s.store p >>= λ ip. find_connection s.store ip s.connections >>= λ old.
      stop_found old s >>= λ s'. set_ip_status ip device_status_online_idle s' >>= λ s''.
      some (record (start_reading p s'') { connections = insert_ptr p s''.connections })

  -- The loop of `pho_conn_pool::stop_all`.
  unfoldable pub stop_each : List ℕ → PhonePool → Option PhonePool
  unfolding close_socket
  stop_each [] s = some s
  stop_each (p ∷ l) s = remote_ip s.store p >>= λ ip.
      set_ip_status ip device_status_offline s >>= λ s'. stop_each l (close_socket p s')

  unfoldable pub stop_all : PhonePool → Option PhonePool
  unfolding stop_each
  stop_all s = stop_each s.connections s >>= λ s'. some (record s' { connections = [] })

  -- `phone_connection::handle_read`: the signal that it raises, and the pool.
  unfoldable pub handle_read : ℕ → Ec → Text → PhonePool → Option (Option ℕ × PhonePool)
  unfolding read_msg do_read_msg stop start_reading
  handle_read p no_error buffer s = read_msg buffer >>= λ m. some (do_read_msg m, start_reading p s)
  handle_read p operation_aborted buffer s = some (none, s)
  handle_read p other_error buffer s =
      if (s.store p).is_open then (stop p s >>= λ s'. some (none, s')) else some (none, s)

  -- `phone_connection::handle_write`
  unfoldable pub handle_write : ℕ → Ec → PhonePool → Option PhonePool
  unfolding stop
  handle_write p operation_aborted s = some s
  handle_write p _ s = stop p s

  -- `phone_connection::restart_lua`; an error of the write is not looked at.
  unfoldable pub restart_lua : ℕ → PhonePool → PhonePool
  restart_lua p s =
      if (s.store p).is_open
      then record s {
        store =
            put s.store p (record (s.store p) {
              written = int_bytes cmd_app_restart_lua ∷ (s.store p).written;
            });
      }
      else s
