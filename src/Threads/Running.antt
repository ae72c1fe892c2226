-- ===== src/Threads/Running.antt =====
-- All sessions at once: schedules of their steps, and the slots of op_ok_sig_ (a_session.cpp: start,
-- wx_vote_session.cpp and keep_wx_account_session.cpp: on_restart_lua_end).
use schedule_center.Base.{
  ℕ, zero, suc, Bool, true, false, List, [], ◌∷◌, Option, none, some, ◌==◌, if◌then◌else◌, ◌>>=◌,
}
use schedule_center.Boost.{Boost}
use schedule_center.Json.{Json}
use schedule_center.Mysql.{Connector, Login}
use schedule_center.Protocol.{cmd_app_restart_lua}
use schedule_center.Devices.{device_status_online_idle}
use schedule_center.Sessions.{Handled, returns, escapes}
use schedule_center.Threads.{Pc, ended, Input, Session, Common, set_own_status, step}

abbrev pub is_slot_of : ℕ → Option ℕ → Bool
is_slot_of p none = false
is_slot_of p (some q) = p == q

module _ (c : Connector) (login : Login) (j : Json) where
  -- All sessions, by their position.
  pub record System : Type 0 where
    pub sessions : List (Session j)
    pub common : Common c login

module _ (b : Boost) (c : Connector) (login : Login) (j : Json) where
  abbrev pub stepped :
      List (Session j)
      → Option (Handled (Session j × Common c login))
      → Option (Handled (System c login j))
  stepped rest none = none
  stepped rest (some escapes) = some escapes
  stepped rest (some (returns (s, w))) = some (returns (record { sessions = s ∷ rest; common = w }))

  abbrev pub keep :
      Session j → Option (Handled (System c login j)) → Option (Handled (System c login j))
  keep s none = none
  keep s (some escapes) = some escapes
  keep s (some (returns y)) = some (returns (record y { sessions = s ∷ y.sessions }))

  -- A step of the session at this position, if there is one.
  unfoldable pub step_nth :
      ℕ → Input → List (Session j) → Common c login → Option (Handled (System c login j))
  step_nth n i [] w = some (returns (record { sessions = []; common = w }))
  step_nth zero i (s ∷ l) w = stepped l (step b c login j i s w)
  step_nth (suc n) i (s ∷ l) w = keep s (step_nth n i l w)

  -- A schedule: which session makes a step, and on what input.
  unfoldable pub run : List (ℕ × Input) → System c login j → Option (Handled (System c login j))
  run [] y = some (returns y)
  run ((n, i) ∷ turns) y = elim (step_nth n i y.sessions y.common) [
    | none ↦ none
    | some escapes ↦ some escapes
    | some (returns y') ↦ run turns y'
  ]

  -- The two `on_restart_lua_end`: whether it starts the session again, on the thread of the signal.
  abbrev pub vote_on_restart_lua_end :
      ℕ → Session j → Common c login → Option (Bool × Common c login)
  vote_on_restart_lua_end cmd s w =
      if cmd == cmd_app_restart_lua
      then (set_own_status c login s.ip device_status_online_idle w >>= λ w'. some (true, w'))
      else some (false, w)

  abbrev pub daily_on_restart_lua_end :
      ℕ → Session j → Common c login → Option (Bool × Common c login)
  daily_on_restart_lua_end cmd s w =
      if cmd == cmd_app_restart_lua
      then (set_own_status c login s.ip device_status_online_idle w >>= λ w'. some (true, w'))
      else some (false, w)

  unfoldable pub on_restart_lua_end :
      Option j.Ptree → ℕ → Session j → Common c login → Option (Bool × Common c login)
  on_restart_lua_end none cmd s w = daily_on_restart_lua_end cmd s w
  on_restart_lua_end (some pt) cmd s w = vote_on_restart_lua_end cmd s w

  -- A slot of `op_ok_sig_`, once the threads that ended are joined or detached: a session that has
  -- ended is destroyed then, which does not disconnect its slot, and the slot calls into it.
  abbrev pub call_slot : Pc → ℕ → Session j → Common c login → Option (Bool × Common c login)
  call_slot ended cmd s w = none
  call_slot pc cmd s w = on_restart_lua_end s.pt cmd s w

  -- Where the slot calls `start`, the session's own thread has not ended: two threads then use its
  -- `pconn_`, socket and `ios_` with no lock, and its own may end and destroy it while the other is in
  -- `start`. This is a run that C++ leaves undefined.
  abbrev pub start_again : Bool × Common c login → Option (Common c login)
  start_again (true, w) = none
  start_again (false, w) = some w

  -- `op_ok_sig_(cmd)` of a phone's object.
  unfoldable pub raise : ℕ → ℕ → List (Session j) → Common c login → Option (Common c login)
  unfolding on_restart_lua_end
  raise p cmd [] w = some w
  raise p cmd (s ∷ l) w =
      (if is_slot_of p s.connected then (call_slot s.pc cmd s w >>= start_again) else some w)
      >>= raise p cmd l
