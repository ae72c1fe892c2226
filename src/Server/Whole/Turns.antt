-- ===== src/Server/Whole/Turns.antt =====
-- What the handlers of the io_service keep of the idle list and the sessions.
use schedule_center.Base.{
  sym, ◌++◌, map, ℕ, Bool, true, false, List, [], ◌∷◌, Option, none, some, ◌≡◌, refl, subst, ◌∙◌,
  ◌==◌, if◌then◌else◌, ◌>>=◌,
}
use schedule_center.Base.Text.{Text}
use schedule_center.Boost.{Boost}
use schedule_center.Json.{Json, TasksMgr}
use schedule_center.Mysql.{Connector, Login}
use schedule_center.Devices.{DeviceMgr, set_status, device_status_online_idle}
use schedule_center.Accounts.{AccountMgr}
use schedule_center.Phones
use schedule_center.Phones.{PhonePool, Ec}
use schedule_center.Protocol.{cmd_app_restart_lua}
use schedule_center.Schedule
use schedule_center.Schedule.{SchePool}
use schedule_center.Sessions.{returns, escapes}
use schedule_center.Threads.{Pc, ended, Session, Common, new_daily_session}
use schedule_center.Threads.Running.{is_slot_of, call_slot, start_again, on_restart_lua_end, raise}
use schedule_center.Server.{Server, pool_of, with_pool}
use schedule_center.Server.Loop.{
  Turn, accepts, runs_posted, ends_timer, reads_phone, resets_phone, reads_client, signalled, nth,
  signal, read_phone, Turned, keeps_tasks, client_read, read_client, take_turn,
}
use schedule_center.Server.Whole.Handlers.{
  reset_phone-Has, Has, Kept, handle-Kept, handle_stop-Kept,
}
use schedule_center.Server.Whole.Tasks.{fire-Kept, run_posted-Kept}

module _ (b : Boost) (c : Connector) (login : Login) (j : Json) where
  -- A slot changes the statuses of the phones only.
  abbrev SameIdle : Common c login → Option (Common c login) → Type 0
  SameIdle w none = Unit
  SameIdle w (some w') = w'.shared.accounts ≡ w.shared.accounts

  restart-SameIdle :
      (t : Bool) (w : Common c login) (o : Option (DeviceMgr c))
      → SameIdle w (
          ◌>>=◌ {A = Bool × Common c login}
            (if t
              then ((o >>= λ d. some (record w { shared = record w.shared { devices = d } }))
                  >>= λ w'. some (true, w'))
              else some (false, w))
            (start_again b c login j))
  restart-SameIdle false w o = refl
  restart-SameIdle true w none = tt
  restart-SameIdle true w (some d) = tt

  restarts-SameIdle :
      (pt : Option j.Ptree) (cmd : ℕ) (s : Session j) (w : Common c login)
      → SameIdle w (on_restart_lua_end b c login j pt cmd s w >>= start_again b c login j)
  unfolding on_restart_lua_end
  restarts-SameIdle none cmd s w =
      restart-SameIdle (cmd == cmd_app_restart_lua) w
        (set_status c login s.ip device_status_online_idle w.shared.devices)
  restarts-SameIdle (some pt) cmd s w =
      restart-SameIdle (cmd == cmd_app_restart_lua) w
        (set_status c login s.ip device_status_online_idle w.shared.devices)

  slot-SameIdle :
      (pc : Pc) (cmd : ℕ) (s : Session j) (w : Common c login)
      → SameIdle w (call_slot b c login j pc cmd s w >>= start_again b c login j)
  slot-SameIdle ended cmd s w = tt
  slot-SameIdle pc cmd s w = restarts-SameIdle s.pt cmd s w

  SameIdle-if :
      (t : Bool) (w : Common c login) (o : Option (Common c login))
      → SameIdle w o
      → SameIdle w (if t then o else some w)
  SameIdle-if true w o h = h
  SameIdle-if false w o h = refl

  then-SameIdle :
      (w : Common c login) (o : Option (Common c login))
      (f : Common c login → Option (Common c login))
      → SameIdle w o
      → ((w' : Common c login) → SameIdle w' (f w'))
      → SameIdle w (o >>= f)
  then-SameIdle w none f h k = tt
  then-SameIdle w (some w') f h k = also (f w') (k w')
    where
      also : (r : Option (Common c login)) → SameIdle w' r → SameIdle w r
      also none e = tt
      also (some v) e = e ∙ h

  raise-SameIdle :
      (p cmd : ℕ) (l : List (Session j)) (w : Common c login)
      → SameIdle w (raise b c login j p cmd l w)
  unfolding raise
  raise-SameIdle p cmd [] w = refl
  raise-SameIdle p cmd (s ∷ l) w =
      then-SameIdle w _ (raise b c login j p cmd l)
        (SameIdle-if (is_slot_of p s.connected) w _ (slot-SameIdle s.pc cmd s w))
        (raise-SameIdle p cmd l)

-- `I` is kept by new daily sessions.
module _ (b : Boost) (c : Connector) (login : Login) (j : Json) (tm : TasksMgr) (fresh : List ℕ → ℕ)
    (I : List Text → List (Session j) → Type 0)
    (grows : (idle : List Text) (l : List (Session j)) (ips : List Text)
      → I idle l
      → I idle (l ++ map (new_daily_session j) ips)) where
  raised-Kept :
      (s : Server c login j fresh) (o : Option (Common c login))
      → SameIdle b c login j s.common o
      → Has c login j fresh I s
      → Kept c login j fresh I (o >>= λ w. some (record s { common = w }))
  raised-Kept s none e h = tt
  raised-Kept s (some w) e h = subst (λ (a : AccountMgr c). I a.idle_accounts s.sessions) (sym e) h

  signal-Kept :
      (o : Option ℕ) (p : ℕ) (s : Server c login j fresh)
      → Has c login j fresh I s
      → Kept c login j fresh I (signal b c login j fresh o p s)
  signal-Kept none p s h = h
  signal-Kept (some cmd) p s h =
      raised-Kept s (raise b c login j p cmd s.sessions s.common)
        (raise-SameIdle b c login j p cmd s.sessions s.common) h

  read_phone-Kept :
      (o : Option ℕ) (e : Ec) (buffer : Text) (s : Server c login j fresh)
      → Has c login j fresh I s
      → Kept c login j fresh I (read_phone b c login j fresh o e buffer s)
  read_phone-Kept none e buffer s h = h
  read_phone-Kept (some p) e buffer s h =
      read_on (Phones.handle_read c login p e buffer (pool_of c login j fresh s.common))
    where
      read_on :
          (o : Option (Option ℕ × PhonePool c login))
          → Kept c login j fresh I (
              o >>= λ r.
              signal b c login j fresh r.0 p
                (record s { common = with_pool c login j fresh r.1 s.common }))
      read_on none = tt
      read_on (some (sig, pool)) =
          signal-Kept sig p (record s { common = with_pool c login j fresh pool s.common }) h

  -- A turn that returns keeps the property.
  abbrev pub TurnKept : Turned b c login j tm fresh → Type 0
  TurnKept none = Unit
  TurnKept (some escapes) = Unit
  TurnKept (some (returns (s, st))) = Has c login j fresh I s

  keeps_tasks-Kept :
      (st : tm.State) (o : Option (Server c login j fresh))
      → Kept c login j fresh I o
      → TurnKept (keeps_tasks b c login j tm fresh st o)
  keeps_tasks-Kept st none h = tt
  keeps_tasks-Kept st (some s) h = h

  client_read-Kept :
      (o : Option (SchePool × Schedule.Ends tm.State)) (s : Server c login j fresh)
      → Has c login j fresh I s
      → TurnKept (o >>= λ r. some (client_read b c login j tm fresh r s))
  client_read-Kept none s h = tt
  client_read-Kept (some (p, Schedule.escapes)) s h = tt
  client_read-Kept (some (p, Schedule.returns st r)) s h = h

  read_client-Kept :
      (o : Option ℕ) (e : Ec) (buffer : Text) (wrote : Bool) (s : Server c login j fresh)
      (st : tm.State)
      → Has c login j fresh I s
      → TurnKept (read_client b c login j tm fresh o e buffer wrote s st)
  read_client-Kept none e buffer wrote s st h = h
  read_client-Kept (some p) e buffer wrote s st h =
      client_read-Kept (Schedule.handle_read j tm p e buffer wrote s.sches st) s h

  pub take_turn-Kept :
      (t : Turn) (s : Server c login j fresh) (st : tm.State)
      → Has c login j fresh I s
      → TurnKept (take_turn b c login j tm fresh t s st)
  take_turn-Kept (accepts e) s st h = keeps_tasks-Kept st _ (handle-Kept c login j fresh I e s h)
  take_turn-Kept (runs_posted t) s st h =
      keeps_tasks-Kept st _ (run_posted-Kept c login j fresh I grows t s h)
  take_turn-Kept (ends_timer n e t) s st h =
      keeps_tasks-Kept st _ (fire-Kept c login j fresh I grows n e t s h)
  take_turn-Kept (reads_phone n e buffer) s st h =
      keeps_tasks-Kept st _ (read_phone-Kept (nth n s.common.connections) e buffer s h)
  take_turn-Kept (resets_phone n) s st h =
      reset_phone-Has c login j fresh I (nth n s.common.connections) s h
  take_turn-Kept (reads_client n e buffer wrote) s st h =
      read_client-Kept (nth n s.sches.connections) e buffer wrote s st h
  take_turn-Kept signalled s st h = keeps_tasks-Kept st _ (handle_stop-Kept c login j fresh I s h)
