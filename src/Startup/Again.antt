-- ===== src/Startup/Again.antt =====
-- What a start of the program means for the next one (src/mpsp/main.cpp).
use schedule_center.Base.{ℕ, Bool, true, false, List, Option, none, some, ◌≡◌, ◌≢◌}
use schedule_center.Boost.{Boost}
use schedule_center.Json.{Json, TasksMgr}
use schedule_center.Mysql.{Outcome, returned, thrown, Connector, Login}
use schedule_center.Config
use schedule_center.Sessions.{Handled, returns, escapes}
use schedule_center.Server.{Server, prepare}
use schedule_center.Server.Loop.{run_loop}
use schedule_center.Startup.{
  Queues, Start, minus_one, Ending, exits, Inits, init_fails, init_throws, ready, is_running,
  init_all, idle_server, main,
}

-- What Boost documents of its queues: a second creation under the name fails and changes nothing, and
-- after a removal a creation succeeds.
pub record IsNamed (q : Queues) : Type 0 where
  pub once : (s : q.State) → q.create (q.create s).1 ≡ (false, (q.create s).1)
  pub anew : (s : q.State) → (q.create (q.remove s)).0 ≡ true

module _ (q : Queues) (b : Boost) (c : Connector) (j : Json) (tm : TasksMgr)
    (fresh : List ℕ → ℕ) where
  -- Whether the loop of this start comes to run and is stopped.
  abbrev pub stops_loop :
      {login : Login} → Option (Handled (Server c login j fresh × tm.State)) → Bool
  stops_loop none = false
  stops_loop (some escapes) = false
  stops_loop (some (returns (server, _))) = server.stopped

  abbrev pub stops_server :
      (login : Login) → Outcome (Server c login j fresh) → Start q b c j tm fresh → Bool
  stops_server login thrown t = false
  stops_server login (returned server) t =
      stops_loop (run_loop b c login j tm fresh t.turns server t.task_state)

  abbrev pub stops_ready : Inits q b c j tm fresh → Start q b c j tm fresh → Bool
  stops_ready init_fails t = false
  stops_ready init_throws t = false
  stops_ready (ready login devices accounts) t =
      stops_server login
        (prepare c login j fresh t.listens (idle_server q b c j tm fresh login devices accounts)) t

  abbrev pub stops_inits : Option (Inits q b c j tm fresh) → Start q b c j tm fresh → Bool
  stops_inits none t = false
  stops_inits (some r) t = stops_ready r t

  abbrev pub stops_created : Bool → Start q b c j tm fresh → Bool
  stops_created false t = false
  stops_created true t =
      stops_inits (init_all q b c j tm fresh (Config.init j t.file t.empty_tree) t) t

  abbrev pub is_stopped : Start q b c j tm fresh → q.State → Bool
  is_stopped t s = stops_created (q.create s).0 t

  -- What a start whose loop was stopped, or was not, has come to, and what this means for every later
  -- one.
  abbrev pub Next : Bool → Ending → q.State → Type 0
  Next true r s = (r ≡ exits 0) × ((is_running q b c j tm fresh s).0 ≡ false)
  Next false r s =
      (r ≢ exits 0)
      × ((later : Start q b c j tm fresh)
          → main q b c j tm fresh later s ≡ some (exits minus_one, s))

  abbrev AllNext : Bool → Option (Ending × q.State) → Type 0
  AllNext stop none = Unit
  AllNext stop (some (r, s)) = Next stop r s
