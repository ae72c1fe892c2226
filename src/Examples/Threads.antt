-- ===== src/Examples/Threads.antt =====
-- Sessions on two phones, with one or two accounts.
use schedule_center.Base.{
  ℕ, true, false, List, [], ◌∷◌, Option, none, some, ◌≡◌, refl, ap, arith, length,
}
use schedule_center.Base.Text.{Text, codes, text_eq}
use schedule_center.Base.Map.{find, insert}
use schedule_center.Devices.{DeviceMgr, get_status, set_status, get_status_count}
use schedule_center.Accounts.Data.{zero_account}
use schedule_center.Accounts.{AccountMgr, scan_daily, get_idle_not_daily_task_account}
use schedule_center.Sessions.{returns}
use schedule_center.Threads.{Pc, Input, runs, connecting, taking, ended, Session, Common, step}
use schedule_center.Threads.Running.{System, step_nth, run, raise}
use schedule_center.Threads.Slots.{raise-dangling}
use schedule_center.Threads.Drain.{Drained, run-Drained}
use schedule_center.Threads.Voters.{at_gate}
use schedule_center.Threads.Gate.{alternating, Overshot, run-Overshot, one_by_one, Held, run-Held}
use schedule_center.Examples.{ip_a, server, login, live}
use schedule_center.Examples.Sessions.{bob, answers, decimal}

abbrev pub ip_c : Text
ip_c = codes "10.0.0.10"

abbrev pub session : Text → Option ℕ → Pc → Session answers
session ip pt pc = record {
  ip = ip;
  pt = pt;
  order = record { script = codes "s"; url = codes "u1"; mp = codes "m" };
  pc = pc;
  socket_open = true;
  pconn = 0;
  connected = some 0;
  messages = [];
}

abbrev pub accounts : List Text → AccountMgr server
accounts idle = record { accounts_pro = (bob, zero_account) ∷ []; idle_accounts = idle; db = live }

-- One phone, which is idle.
abbrev phones : DeviceMgr server
phones = record { devices_pro = (ip_a, record { status = 1 }) ∷ []; db = live }

-- One vote of two has succeeded.
abbrev pub common : List Text → Common server login
common idle = record {
  shared = record {
    accounts = accounts idle;
    devices = phones;
    votes = record { success_count = 1; target_count = 2 };
  };
  connections = [];
  store = λ _. record { peer = ip_a; is_open = true; reset = false; reading = true; written = [] };
}

abbrev alone : Pc → System server login answers
alone pc = record { sessions = session ip_a none pc ∷ []; common = common [] }

abbrev ends : List (ℕ × Input)
ends = (0, runs true) ∷ (0, runs true) ∷ (0, runs true) ∷ (0, runs true) ∷ []

abbrev ended_alone : System server login answers
ended_alone = record {
  sessions = record (session ip_a none ended) { socket_open = false } ∷ [];
  common = common [];
}

ends-run : run decimal server login answers ends (alone connecting) ≡ some (returns ended_alone)
unfolding run step_nth step get_idle_not_daily_task_account scan_daily set_status find text_eq
    insert
ends-run = refl

raise-dangling_example :
    raise decimal server login answers 0 2 ended_alone.sessions (common []) ≡ none
raise-dangling_example =
    raise-dangling decimal server login answers 0 0 2 ends (alone connecting) ended_alone
      (refl, (refl, (refl, (refl, tt)))) refl ends-run refl (common [])

run-Drained_example :
    Drained decimal server login answers (session ip_a none taking) (common (bob ∷ [])) 2
unfolding find text_eq
run-Drained_example =
    run-Drained decimal server login answers (session ip_a none taking) (common (bob ∷ []))
      (omega arith) (refl, refl) (refl, tt)

abbrev pub none_busy : Common server login
none_busy = common (bob ∷ [])

abbrev a_vote : System server login answers
a_vote = record {
  sessions =
      at_gate 0 bob (session ip_a none taking) ∷ at_gate 1 ip_a (session ip_c none taking) ∷ [];
  common = none_busy;
}

run-Overshot_example :
    (s1 : Session answers) × (s2 : Session answers) × (w' : Common server login) × (run decimal
        server login answers alternating a_vote
      ≡ some (returns (record { sessions = s1 ∷ s2 ∷ []; common = w' })))
    × Overshot decimal server login answers bob ip_a none_busy w' s1 s2
unfolding get_status find text_eq get_status_count
run-Overshot_example =
    run-Overshot decimal server login answers (session ip_a none taking) (session ip_c none taking)
      0 1 bob ip_a none_busy refl (omega arith) (refl, refl) (omega arith, omega arith)
      (λ e. omega (arith, ap length e)) (λ e. omega (arith, e)) (λ e. omega (arith, e))

run-Held_example :
    (s1 : Session answers) × (s2 : Session answers) × (w' : Common server login) × (run decimal
        server login answers one_by_one a_vote
      ≡ some (returns (record { sessions = s1 ∷ s2 ∷ []; common = w' })))
    × Held decimal server login answers bob ip_a none_busy w' s1 s2
unfolding get_status find text_eq get_status_count
run-Held_example =
    run-Held decimal server login answers (session ip_a none taking) (session ip_c none taking) 0 1
      bob ip_a none_busy refl (omega arith) (refl, refl) (omega arith) (λ e. omega (arith, e))
