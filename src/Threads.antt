-- ===== src/Threads.antt =====
-- The threads of the sessions: a_session (src/common/a_session.cpp) with wx_vote_session and
-- keep_wx_account_session (src/wx/wx_vote_session.cpp, keep_wx_account_session.cpp), in steps, so that
-- those of several sessions can alternate. A call that hands an account out is one step, and so are
-- the status, the copy of the accounts and the write of a message, and a read handler. `none` is a run
-- that C++ leaves undefined. Nothing catches an exception that leaves a thread's function: it ends the
-- server.
pub mod Idle
pub mod Handlers
pub mod Holding
pub mod Running
pub mod Exclusive
pub mod Stays
pub mod Slots
pub mod Turns
pub mod Drain
pub mod Voters
pub mod Gate
pub mod Waiting
pub mod Kinds
use schedule_center.Base.{
  ℕ, zero, suc, Bool, true, false, ◌&&◌, List, [], ◌∷◌, Option, none, some, ◌==◌, if◌then◌else◌,
  ◌>>=◌, is_some,
}
use schedule_center.Base.Text.{Text}
use schedule_center.Boost.{Boost}
use schedule_center.Json.{Json}
use schedule_center.Mysql.{Connector, Login}
use schedule_center.Protocol.{cmd_app_restart_lua}
use schedule_center.Devices.{
  set_status, device_status_online_idle, device_status_task_begin, device_status_wx_voting,
  device_status_daily_task,
}
use schedule_center.Accounts.{
  AccountMgr, get_idle_not_vote_account, get_idle_not_daily_task_account, get_accounts_pro_copy,
}
use schedule_center.Phones.{Store, PhonePool, find_connection, restart_lua, Ec}
use schedule_center.Sessions.{Shared, Handled, returns, escapes, need_wait_vote, need_vote}
use schedule_center.Sessions.Wire.{
  Order, read_order, vote_command, daily_command, vote_handle_read, daily_handle_read,
}

-- Where a session's thread stands.
pub data Pc : Type 0 where
  -- Before `start`, and before its `socket_.connect`.
  starting connecting : Pc
  -- In `ios_.run` after a connection was refused.
  refused : Pc
  -- In the loop of `on_connected`: before it takes an account, and with one, before `need_wait_vote`,
  -- before `need_vote`, before the message is sent, and in `ios_.run` while the phone works.
  taking : Pc
  gating asking sending reading : Text → Pc
  -- In `ios_.run` after the read timer has closed the socket, and once the read handler has run.
  aborting : Text → Pc
  restarting : Pc
  -- After `on_connected`, before the last statement of `start`, and after it.
  leaving finishing ended : Pc

-- What the environment does.
pub data Input : Type 0 where
  -- The thread goes on; a connect or a write succeeds or not.
  runs : Bool → Input
  -- The pending read is done, with this buffer.
  reads : Ec → Text → Input
  -- The timer that is waited for expires, or is cancelled.
  expires cancelled : Input

module _ (j : Json) where
  pub record Session : Type 0 where
    pub ip : Text
    -- The order of a voting session; a daily one has none.
    pub pt : Option j.Ptree
    pub order : Order
    pub pc : Pc
    pub socket_open : Bool
    -- `pconn_`, and the object to whose `op_ok_sig_` it is connected by `restart_lua_conn_`.
    pub pconn : ℕ
    pub connected : Option ℕ
    pub messages : List Text

  -- The constructors of the two sessions.
  unfoldable pub new_session : Text → Option j.Ptree → Session
  new_session ip pt = record {
    ip = ip;
    pt = pt;
    order = record { script = []; url = []; mp = [] };
    pc = starting;
    socket_open = false;
    pconn = 0;
    connected = none;
    messages = [];
  }

  unfoldable pub new_vote_session : Text → j.Ptree → Session
  unfolding new_session
  new_vote_session ip pt = new_session ip (some pt)

  unfoldable pub new_daily_session : Text → Session
  unfolding new_session
  new_daily_session ip = new_session ip none

module _ (c : Connector) (login : Login) where
  -- What the threads share: the managers and the pool of phones.
  pub record Common : Type 0 where
    pub shared : Shared c login
    pub connections : List ℕ
    pub store : Store

  abbrev pub with_accounts : AccountMgr c → Common → Common
  with_accounts a w = record w { shared = record w.shared { accounts = a } }

  abbrev pub set_own_status : Text → ℕ → Common → Option Common
  set_own_status ip status w = set_status c login ip status w.shared.devices >>= λ d.
      some (record w { shared = record w.shared { devices = d } })

  abbrev pub ask_restart : ℕ → Common → Common
  ask_restart p w = record w {
    store =
        (restart_lua c login p (record {
          connections = w.connections;
          store = w.store;
          devices = w.shared.devices;
        })).store;
  }

module _ (b : Boost) (c : Connector) (login : Login) (j : Json) where
  abbrev pub Local : Type 0
  Local = Session j × Common c login

  abbrev pub goes : Pc → Session j → Common c login → Option (Handled Local)
  goes pc s w = some (returns (record s { pc = pc }, w))

  -- `start` up to `socket_.connect`: an exception of `find_connection` leaves it.
  abbrev pub begin : Option (Option ℕ) → Session j → Common c login → Option (Handled Local)
  begin none s w = some escapes
  begin (some none) s w = goes ended s w
  begin (some (some p)) s w = set_own_status c login s.ip device_status_task_begin w >>= λ w'.
      goes connecting
        (record s { pconn = p; connected = if is_some s.connected then s.connected else some p }) w'

  -- The beginning of `on_connected`, where a voting session reads its order.
  abbrev pub enter_loop : Option j.Ptree → Session j → Common c login → Option (Handled Local)
  enter_loop none s w = goes taking s w
  enter_loop (some pt) s w = elim (read_order j pt) [
    | none ↦ some escapes
    | some o ↦ goes taking (record s { order = o }) w
  ]

  abbrev pub connects : Bool → Session j → Common c login → Option (Handled Local)
  connects true s w = enter_loop s.pt (record s { socket_open = true }) w
  connects false s w = goes refused s (ask_restart c login s.pconn w)

  -- The loop's test: the account that it was given, if any.
  abbrev pub taken :
      Pc
      → (Text → Pc)
      → Option Text × AccountMgr c
      → Session j
      → Common c login
      → Option (Handled Local)
  taken out into (none, a) s w = goes out s (with_accounts c login a w)
  taken out into (some acc, a) s w = goes (into acc) s (with_accounts c login a w)

  -- One step: no other thread comes between the search and the erasure of the call, which the code
  -- does not ensure (Accounts.Race).
  abbrev pub take_account : Option j.Ptree → Session j → Common c login → Option (Handled Local)
  take_account none s w =
      taken leaving sending (get_idle_not_daily_task_account c w.shared.accounts) s w
  take_account (some pt) s w =
      taken leaving gating (get_idle_not_vote_account c s.order.url w.shared.accounts) s w

  abbrev pub message : Option j.Ptree → Text → Session j → Common c login → Text
  message none acc s w = daily_command b acc (get_accounts_pro_copy c w.shared.accounts)
  message (some pt) acc s w = vote_command b s.order acc (get_accounts_pro_copy c w.shared.accounts)

  abbrev pub busy_status : Option j.Ptree → ℕ
  busy_status none = device_status_daily_task
  busy_status (some pt) = device_status_wx_voting

  abbrev pub send : Bool → Text → Session j → Common c login → Option (Handled Local)
  send ok acc s w = set_own_status c login s.ip (busy_status s.pt) w >>= λ w'.
      if s.socket_open && ok
      then goes (reading acc) (record s { messages = message s.pt acc s w' ∷ s.messages }) w'
      else goes taking s w'

  abbrev pub handle :
      Option j.Ptree
      → Text
      → Ec
      → Text
      → Session j
      → Shared c login
      → Option (Handled (Shared c login))
  handle none acc e buffer s = daily_handle_read b c login j s.ip acc e buffer
  handle (some pt) acc e buffer s = vote_handle_read b c login j s.ip acc s.order.url e buffer

  abbrev pub handled : Pc → Session j → Common c login → Handled (Shared c login) → Handled Local
  handled pc s w escapes = escapes
  handled pc s w (returns sh) = returns (record s { pc = pc }, record w { shared = sh })

  abbrev pub read_done : Pc → Text → Ec → Text → Session j → Common c login → Option (Handled Local)
  read_done pc acc e buffer s w =
      handle s.pt acc e buffer s w.shared >>= λ h. some (handled pc s w h)

  -- The two `on_read_timeout`, when the timer has expired.
  abbrev pub vote_on_read_timeout : Text → Session j → Common c login → Option (Handled Local)
  vote_on_read_timeout acc s w =
      goes (aborting acc) (record s { socket_open = false }) (ask_restart c login s.pconn w)

  abbrev pub daily_on_read_timeout : Text → Session j → Common c login → Option (Handled Local)
  daily_on_read_timeout acc s w =
      goes (aborting acc) (record s { socket_open = false }) (ask_restart c login s.pconn w)

  abbrev pub on_read_timeout :
      Option j.Ptree → Text → Session j → Common c login → Option (Handled Local)
  on_read_timeout none acc s w = daily_on_read_timeout acc s w
  on_read_timeout (some pt) acc s w = vote_on_read_timeout acc s w

  -- `on_restart_lua_timeout`, when the timer has expired, and the return of `ios_.run`.
  abbrev pub on_restart_lua_timeout : Pc → Session j → Common c login → Option (Handled Local)
  on_restart_lua_timeout pc s w = goes pc (record s { connected = none }) w

  -- One step of a session's thread, by where it stands. What does not fit there has no effect.
  abbrev pub step_at : Pc → Input → Session j → Common c login → Option (Handled Local)
  step_at starting (runs ok) s w = begin (find_connection w.store s.ip w.connections) s w
  step_at connecting (runs ok) s w = connects ok s w
  step_at refused expires s w = on_restart_lua_timeout finishing s w
  step_at refused cancelled s w = goes finishing s w
  step_at taking (runs ok) s w = take_account s.pt s w
  step_at (gating acc) (runs ok) s w =
      if need_wait_vote c login w.shared then goes (asking acc) s w else goes (sending acc) s w
  step_at (asking acc) (runs ok) s w =
      if need_vote w.shared.votes then goes (gating acc) s w else goes leaving s w
  step_at (sending acc) (runs ok) s w = send ok acc s w
  step_at (reading acc) (reads e buffer) s w = read_done taking acc e buffer s w
  step_at (reading acc) expires s w = on_read_timeout s.pt acc s w
  step_at (aborting acc) (reads e buffer) s w = read_done restarting acc e buffer s w
  step_at restarting expires s w = on_restart_lua_timeout taking s w
  step_at restarting cancelled s w = goes taking s w
  step_at leaving (runs ok) s w = goes finishing (record s { socket_open = false }) w
  step_at finishing (runs ok) s w =
      set_own_status c login s.ip device_status_online_idle w >>= λ w'. goes ended s w'
  step_at pc i s w = goes pc s w

  unfoldable pub step : Input → Session j → Common c login → Option (Handled Local)
  step i s w = step_at s.pc i s w
