-- ===== src/Examples/Blocked.antt =====
-- A worker that waits for a session whose write has failed.
use schedule_center.Base.{none, true, false, List, [], ◌∷◌, some, ◌≡◌, refl, arith}
use schedule_center.Base.Text.{text_eq}
use schedule_center.Base.Map.{find}
use schedule_center.Accounts.{vote_status, pick, get_idle_not_vote_account}
use schedule_center.Devices.{get_status, get_status_count}
use schedule_center.Sessions.{returns}
use schedule_center.Threads.{Session, Common, runs, taking}
use schedule_center.Threads.Voters.{past_gate}
use schedule_center.Server.{Server}
use schedule_center.Server.Whole.{Move, session, works, World, run_all}
use schedule_center.Server.Whole.Blocked.{alone, AtGate, run_all-blocked}
use schedule_center.Examples.{ip_a, server, login}
use schedule_center.Examples.Schedule.{tasks}
use schedule_center.Examples.Sessions.{bob, answers, decimal}
use schedule_center.Examples.Server.{above, begun}
use schedule_center.Examples.Threads
use schedule_center.Examples.Threads.{accounts, none_busy}

abbrev voter : Session answers
voter = Threads.session ip_a none taking

abbrev working_server : Server server login answers above
working_server = record (begun []) { worker = true }

-- The worker with this session alone.
abbrev joins_one :
    Session answers → Common server login → World decimal server login answers tasks above
joins_one = alone decimal server login answers tasks above working_server [] [] 7 0

abbrev later : List (Move answers)
later =
    works 1 (record { id = 8; description = []; status = 0 })
    ∷ session 0 (runs true)
    ∷ session 1 (runs true)
    ∷ session 0 (runs true)
    ∷ []

run_all-blocked_example :
    (x' : Session answers) × (w' : Common server login) × (run_all decimal server login answers
        tasks above
        (session 0 (runs false) ∷ session 0 (runs false) ∷ later)
        (joins_one (past_gate 0 ip_a voter) none_busy)
      ≡ some (returns (joins_one x' w')))
    × AtGate decimal server login answers tasks above working_server [] [] 7 0 voter 0 bob w' x'
unfolding get_status find text_eq get_status_count get_idle_not_vote_account pick vote_status
run_all-blocked_example =
    run_all-blocked decimal server login answers tasks above working_server [] [] 7 0 voter
      none_busy 0 ip_a bob (accounts []) later refl (omega arith) (refl, refl) (omega arith)
      (λ e. omega (arith, e)) refl (tt, (tt, (tt, (tt, tt))))
