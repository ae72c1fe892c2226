-- ===== src/Server/Loop.antt =====
-- The loop of the `io_service` (inc/public/task_processor.hpp: start, called by src/mpsp/main.cpp): it
-- runs one handler after another, until `handle_stop` stops it. A schedule says which handler runs
-- next and with what.
pub mod Phone
pub mod Ready
pub mod Task
pub mod Client
pub mod Run
pub mod Reset
use schedule_center.Base.{
  ℕ, zero, suc, ◌≤◌, Bool, true, false, List, [], ◌∷◌, Option, none, some, ◌≡◌, length,
  if◌then◌else◌, ◌>>=◌, ◌⊎◌, ◌&&◌, ◌||◌, is_some,
}
use schedule_center.Base.Text.{Text, codes, c_str}
use schedule_center.Base.Map.{contains}
use schedule_center.Boost.{Boost}
use schedule_center.Json.{Json, TasksMgr}
use schedule_center.Mysql.{Connector, Login}
use schedule_center.Mysql.Live.{IsLive}
use schedule_center.Protocol.{AppRecv}
use schedule_center.Accounts.{AccountMgr}
use schedule_center.Phones
use schedule_center.Phones.{PhonePool, Ec, no_error, read_msg, do_read_msg}
use schedule_center.Schedule
use schedule_center.Schedule.{SchePool, read_frame}
use schedule_center.Sessions.{Handled, returns, escapes}
use schedule_center.Threads.Running.{raise}
use schedule_center.Server.{
  reset_phone, Moment, Server, pool_of, with_pool, run_posted, fire, handle_stop,
}
use schedule_center.Server.Accept
use schedule_center.Server.Stop.{IsStopped}
use schedule_center.Server.Accept.{Event, Serving, ShortPhones}

-- The handler that runs next: an acceptor's, the first posted task, the timer at this position, the
-- read of the phone or of the client at this position of its pool, where the Boolean is whether a reply
-- could be written, or `handle_stop`. Or, before the next one, the phone at this position resets its
-- connection.
pub data Turn : Type 0 where
  accepts : Event → Turn
  runs_posted : Moment → Turn
  ends_timer : ℕ → Ec → Moment → Turn
  reads_phone : ℕ → Ec → Text → Turn
  resets_phone : ℕ → Turn
  reads_client : ℕ → Ec → Text → Bool → Turn
  signalled : Turn

abbrev pub is_signal : Turn → Bool
is_signal signalled = true
is_signal _ = false

unfoldable pub has_signal : List Turn → Bool
has_signal [] = false
has_signal (x ∷ turns) = is_signal x || has_signal turns

abbrev pub nth : ℕ → List ℕ → Option ℕ
nth n [] = none
nth zero (p ∷ l) = some p
nth (suc n) (p ∷ l) = nth n l

-- A message of a phone is complete, and no answer that is signalled to the sessions.
abbrev pub IsQuiet : Ec → Text → Type 0
IsQuiet no_error buffer = (m : AppRecv) × (read_msg buffer ≡ some m) × (do_read_msg m ≡ none)
IsQuiet _ buffer = Unit

module _ (j : Json) where
  -- Members that `on_read` passes over or reads without an exception.
  abbrev pub IsRead : Option j.Ptree → Type 0
  IsRead none = Unit
  IsRead (some pt) =
      (((j.has pt (codes "task_cmd")) && (j.has pt (codes "task_id"))) ≡ false)
      ⊎ ((is_some (j.get_int pt (codes "task_cmd")) ≡ true)
          × (is_some (j.get_int pt (codes "task_id")) ≡ true))

  -- An order of the client is framed, and its reply can be written.
  abbrev pub IsOrder : Ec → Text → Bool → Type 0
  IsOrder no_error buffer wrote =
      (text : Text) × (read_frame buffer ≡ some text)
      × IsRead (j.read_json (c_str text))
      × (wrote ≡ true)
  IsOrder _ buffer wrote = Unit

  abbrev pub IsUsual : Turn → Type 0
  IsUsual (accepts e) = Accept.IsShort e
  IsUsual (reads_phone n e buffer) = IsQuiet e buffer
  IsUsual (resets_phone n) = ⊥
  IsUsual (reads_client n e buffer wrote) = IsOrder e buffer wrote
  IsUsual _ = Unit

module _ (b : Boost) (c : Connector) (login : Login) (j : Json) (fresh : List ℕ → ℕ) where
  abbrev pub signal : Option ℕ → ℕ → Server c login j fresh → Option (Server c login j fresh)
  signal none p s = some s
  signal (some cmd) p s =
      raise b c login j p cmd s.sessions s.common >>= λ w. some (record s { common = w })

  abbrev pub read_phone :
      Option ℕ → Ec → Text → Server c login j fresh → Option (Server c login j fresh)
  read_phone none e buffer s = some s
  read_phone (some p) e buffer s =
      Phones.handle_read c login p e buffer (pool_of c login j fresh s.common) >>= λ r.
      signal r.0 p (record s { common = with_pool c login j fresh r.1 s.common })

module _ (b : Boost) (c : Connector) (login : Login) (j : Json) (tm : TasksMgr)
    (fresh : List ℕ → ℕ) where
  -- How a handler ends: an exception that leaves one leaves the loop.
  abbrev pub Turned : Type 0
  Turned = Option (Handled (Server c login j fresh × tm.State))

  abbrev pub keeps_tasks : tm.State → Option (Server c login j fresh) → Turned
  keeps_tasks st none = none
  keeps_tasks st (some s) = some (returns (s, st))

  abbrev pub client_read :
      SchePool × Schedule.Ends tm.State
      → Server c login j fresh
      → Handled (Server c login j fresh × tm.State)
  client_read (p, Schedule.escapes) s = escapes
  client_read (p, Schedule.returns st reply) s = returns (record s { sches = p }, st)

  abbrev pub read_client : Option ℕ → Ec → Text → Bool → Server c login j fresh → tm.State → Turned
  read_client none e buffer wrote s st = some (returns (s, st))
  read_client (some p) e buffer wrote s st =
      Schedule.handle_read j tm p e buffer wrote s.sches st >>= λ r. some (client_read r s)

  abbrev pub take_turn : Turn → Server c login j fresh → tm.State → Turned
  take_turn (accepts e) s st = keeps_tasks st (Accept.handle c login j fresh e s)
  take_turn (runs_posted t) s st = keeps_tasks st (run_posted c login j fresh t s)
  take_turn (ends_timer n e t) s st = keeps_tasks st (fire c login j fresh n e t s)
  take_turn (reads_phone n e buffer) s st =
      keeps_tasks st (read_phone b c login j fresh (nth n s.common.connections) e buffer s)
  take_turn (resets_phone n) s st =
      keeps_tasks st (some (reset_phone c login j fresh (nth n s.common.connections) s))
  take_turn (reads_client n e buffer wrote) s st =
      read_client (nth n s.sches.connections) e buffer wrote s st
  take_turn signalled s st = keeps_tasks st (handle_stop c login j fresh s)

  -- `io_service::run`: once it is stopped, no handler runs any more.
  unfoldable pub run_loop : List Turn → Server c login j fresh → tm.State → Turned
  run_loop [] s st = some (returns (s, st))
  run_loop (x ∷ turns) s st =
      if s.stopped then some (returns (s, st)) else elim (take_turn x s st) [
        | none ↦ none
        | some escapes ↦ some escapes
        | some (returns (s', st')) ↦ run_loop turns s' st'
      ]

module _ (c : Connector) (login : Login) (j : Json) (fresh : List ℕ → ℕ) where
  -- The loop of a server that serves: besides the acceptors and the pools, the accounts have what
  -- `reset_task` needs.
  pub record Going (s : Server c login j fresh) : Type 0 where
    pub going : s.stopped ≡ false
    pub serving : Serving c login j fresh s
    pub short_phones : ShortPhones c login j fresh s
    pub accounts_live : IsLive s.common.shared.accounts.db
    pub short_names :
        (acc : Text) → contains acc s.common.shared.accounts.accounts_pro ≡ true → length acc ≤ 500

  -- A server that has ended by a signal while it served.
  pub record Over (s' : Server c login j fresh) : Type 0 where
    pub last : Server c login j fresh
    pub serving : Serving c login j fresh last
    pub ended : IsStopped c login j fresh last s'
