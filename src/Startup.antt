-- ===== src/Startup.antt =====
-- main (src/mpsp/main.cpp): one start of the program, in a release build, with the loop of its
-- `io_service` until it is stopped. Its message queue is a named
-- object of the operating system that shows later starts that the program runs.
pub mod Again
pub mod Connected
pub mod Serves
use schedule_center.Base.{
  ℕ, ◌-◌, ◌^◌, Bool, true, false, List, [], Option, none, some, ◌≡◌, ◌>>=◌, if◌then◌else◌,
}
use schedule_center.Boost.{Boost}
use schedule_center.Json.{Json, TasksMgr}
use schedule_center.Mysql.{Outcome, returned, thrown, Connector, Login}
use schedule_center.Config
use schedule_center.Config.{login_of}
use schedule_center.Devices
use schedule_center.Devices.{DeviceMgr}
use schedule_center.Accounts.{AccountMgr}
use schedule_center.Accounts.Load
use schedule_center.Sessions.{Handled, returns, escapes}
use schedule_center.Server.{Server, prepare}
use schedule_center.Server.Loop.{Turn, run_loop}

-- The named message queues of Boost.Interprocess: whether `message_queue(create_only, …)` makes the
-- queue (else it throws), and `message_queue::remove`.
pub record Queues : Type 1 where
  pub State : Type 0
  pub create : State → Bool × State
  pub remove : State → State

-- What `main` returns: -1 as its 32-bit pattern.
abbrev pub minus_one : ℕ
minus_one = 2 ^ 32 - 1

-- What `main` has come to: the loop still runs, an exception has left, or it has returned.
pub data Ending : Type 0 where
  serves throws : Ending
  exits : ℕ → Ending

module _ (q : Queues) (b : Boost) (c : Connector) (j : Json) (tm : TasksMgr)
    (fresh : List ℕ → ℕ) where
  -- What a start of the program finds: the configuration file, if it parses, the static objects, what
  -- `tasks_mgr::init` gives, the ports that can be listened at, and the handlers that run.
  pub record Start : Type 0 where
    pub file : Option j.Ptree
    pub empty_tree : j.Ptree
    pub devices : DeviceMgr c
    pub accounts : AccountMgr c
    pub tasks : Bool
    pub task_state : tm.State
    pub listens : ℕ → Bool
    pub turns : List Turn

  -- How the initialisations end: one gives false or throws, or all give true.
  pub data Inits : Type 0 where
    init_fails init_throws : Inits
    ready : Login → DeviceMgr c → AccountMgr c → Inits

  unfoldable pub is_running : q.State → Bool × q.State
  is_running s = let (made, s') = q.create s in (elim made [ true ↦ false | false ↦ true ], s')

  -- `!a.init() || …`: what the rest gives, if this returns true.
  abbrev pub and_then : {M : Type 0} → Option (Outcome Bool × M) → (M → Option Inits) → Option Inits
  and_then none rest = none
  and_then (some (thrown, _)) rest = some init_throws
  and_then (some (returned false, _)) rest = some init_fails
  and_then (some (returned true, m)) rest = rest m

  abbrev pub init_tasks : Bool → Login → DeviceMgr c → AccountMgr c → Option Inits
  init_tasks false login devices accounts = some init_fails
  init_tasks true login devices accounts = some (ready login devices accounts)

  abbrev pub init_managers : Outcome Login → Start → Option Inits
  init_managers thrown t = some init_throws
  init_managers (returned login) t = and_then (Devices.init c login t.devices) λ devices.
      and_then (Load.init c login t.accounts) λ accounts. init_tasks t.tasks login devices accounts

  abbrev pub init_all : Bool × j.Ptree → Start → Option Inits
  init_all (false, pt) t = some init_fails
  init_all (true, pt) t = init_managers (login_of j pt) t

  -- The objects before the server is made: no one is connected, and no session is there.
  unfoldable pub idle_server : (login : Login) → DeviceMgr c → AccountMgr c → Server c login j fresh
  idle_server login devices accounts = record {
    common = record {
      shared = record {
        accounts = accounts;
        devices = devices;
        votes = record { success_count = 0; target_count = 0 };
      };
      connections = [];
      store =
          λ _. record { peer = []; is_open = false; reset = false; reading = false; written = [] };
    };
    sessions = [];
    sches = record { connections = []; store = λ _. record { is_open = false; reading = false } };
    new_phone_connection = none;
    new_sche_connection = none;
    phone_acceptor = false;
    schedule_acceptor = false;
    processor = record { posted = []; timers = [] };
    worker = false;
    stopped = false;
  }

  -- The rest of `main` once `io_service::run` has returned; an exception leaves `main`.
  abbrev pub after_run :
      (login : Login)
      → Option (Handled (Server c login j fresh × tm.State))
      → q.State
      → Option (Ending × q.State)
  after_run login none s = none
  after_run login (some escapes) s = some (throws, s)
  after_run login (some (returns (server, _))) s =
      some (if server.stopped then (exits 0, q.remove s) else (serves, s))

  abbrev pub serve :
      (login : Login)
      → Outcome (Server c login j fresh)
      → Start
      → q.State
      → Option (Ending × q.State)
  serve login thrown t s = some (throws, s)
  serve login (returned server) t s =
      after_run login (run_loop b c login j tm fresh t.turns server t.task_state) s

  abbrev pub after_init : Inits → Start → q.State → Option (Ending × q.State)
  after_init init_fails t s = some (exits minus_one, s)
  after_init init_throws t s = some (throws, s)
  after_init (ready login devices accounts) t s =
      serve login (prepare c login j fresh t.listens (idle_server login devices accounts)) t s

  abbrev pub after_create : Bool × q.State → Start → Option (Ending × q.State)
  after_create (true, s) t = some (exits minus_one, s)
  after_create (false, s) t =
      init_all (Config.init j t.file t.empty_tree) t >>= λ r. after_init r t s

  unfoldable pub main : Start → q.State → Option (Ending × q.State)
  unfolding is_running idle_server
  main t s = after_create (is_running s) t
