-- ===== src/Examples/Whole.antt =====
-- Two voting sessions and one account, and a vote from its start to its end, while the io_service runs
-- its handlers.
use schedule_center.Base.{◌+◌, ◌≤◌, true, List, [], ◌∷◌, none, some, ◌≡◌, refl, arith, ◌⊎◌}
use schedule_center.Base.Text.{Text, codes, text_eq, c_str}
use schedule_center.Base.Map.{find}
use schedule_center.Json.{TasksInfo}
use schedule_center.Phones.{no_error, find_connection}
use schedule_center.Sessions.{returns, escapes}
use schedule_center.Daily.{idle_phones}
use schedule_center.Devices.{get_devices_pro_copy}
use schedule_center.Accounts.{vote_status, pick, get_idle_not_vote_account, get_idle_not_vote_count}
use schedule_center.Threads.{
  Session, runs, taking, step, new_session, new_daily_session, new_vote_session,
}
use schedule_center.Threads.Idle.{times}
use schedule_center.Threads.Exclusive.{holders}
use schedule_center.Threads.Running.{step_nth}
use schedule_center.TaskProcessor.{do_task, task_wrapped, timer_task}
use schedule_center.Worker.{vote_threads, create_threads, begin_vote, begin_work}
use schedule_center.Server.{Server, create_each, do_daily_task, fire}
use schedule_center.Server.Loop.{ends_timer}
use schedule_center.Server.Whole.{
  Move, handler, session, works, popping, joining, joined, World, run_all,
}
use schedule_center.Server.Whole.Exclusive.{run_all-Exclusive}
use schedule_center.Server.Whole.Votes.{Waits, run_all-Waits}
use schedule_center.Examples.{ip_a, server, login}
use schedule_center.Examples.Schedule.{tasks}
use schedule_center.Examples.Sessions.{bob, decimal}
use schedule_center.Examples.Server.{above, begun_with, moment}
use schedule_center.Examples.Threads.{ip_c, common}
use schedule_center.Examples.Worker.{orders}

-- A voting session before it takes an account.
abbrev taker : Text → Session orders
taker ip = record {
  ip = ip;
  pt = some b'v';
  order = record { script = codes "s"; url = codes "u1"; mp = codes "m" };
  pc = taking;
  socket_open = true;
  pconn = 0;
  connected = some 0;
  messages = [];
}

-- A timer of the daily task, and the worker's thread.
abbrev serving : List (Session orders) → Server server login orders above
serving l = record (begun_with orders []) {
  sessions = l;
  common = common (bob ∷ []);
  processor = record { posted = []; timers = (7, do_task) ∷ [] };
  worker = true;
}

-- The worker waits for two sessions.
abbrev two : World decimal server login orders tasks above
two = record {
  server = serving (taker ip_a ∷ taker ip_c ∷ []);
  tasks = [];
  result = [];
  working = joining 7 b'v' 0 2;
}

abbrev order : TasksInfo
order = record { id = 7; description = b'v' ∷ []; status = 0 }

-- The first session takes the account, the timer starts a daily session, the worker waits on, and the
-- second session looks for an account in vain.
abbrev moves : List (Move orders)
moves =
    session 0 (runs true)
    ∷ handler (ends_timer 0 no_error moment)
    ∷ works 1 order
    ∷ session 1 (runs true)
    ∷ []

abbrev after : World decimal server login orders tasks above
after = elim (run_all decimal server login orders tasks above moves two) [
  | none ↦ two
  | some escapes ↦ two
  | some (returns y) ↦ y
]

moves_run : run_all decimal server login orders tasks above moves two ≡ some (returns after)
unfolding run_all joined step_nth step get_idle_not_vote_account pick vote_status find text_eq fire
    timer_task task_wrapped do_daily_task create_each idle_phones get_devices_pro_copy
moves_run = refl

bob_once :
    times bob two.server.common.shared.accounts.idle_accounts + holders bob two.server.sessions ≤ 1
unfolding text_eq
bob_once = omega arith

-- One session holds the account in the end.
held : holders bob after.server.sessions ≡ 1
unfolding run_all joined step_nth step get_idle_not_vote_account pick vote_status find text_eq fire
    timer_task task_wrapped do_daily_task create_each idle_phones get_devices_pro_copy new_session
    new_daily_session
held = refl

run_all-Exclusive_example :
    (holders bob after.server.sessions ≤ 1)
    × ((holders bob after.server.sessions ≡ 0)
        ⊎ (times bob after.server.common.shared.accounts.idle_accounts ≡ 0))
run_all-Exclusive_example =
    run_all-Exclusive decimal server login orders tasks above bob moves two after bob_once moves_run

-- The worker takes an order to vote, whose only session finds no connection, and a daily session
-- starts before the vote is joined.
abbrev quiet : World decimal server login orders tasks above
quiet = record { server = serving []; tasks = []; result = []; working = popping }

abbrev vote_moves : List (Move orders)
vote_moves =
    works 1 order
    ∷ session 0 (runs true)
    ∷ handler (ends_timer 0 no_error moment)
    ∷ works 1 order
    ∷ []

abbrev voted : World decimal server login orders tasks above
voted = elim (run_all decimal server login orders tasks above vote_moves quiet) [
  | none ↦ two
  | some escapes ↦ two
  | some (returns y) ↦ y
]

vote_moves_run :
    run_all decimal server login orders tasks above vote_moves quiet ≡ some (returns voted)
unfolding run_all joined step_nth step find text_eq fire timer_task task_wrapped do_daily_task
    create_each idle_phones get_devices_pro_copy begin_work begin_vote vote_threads create_threads
    get_idle_not_vote_count vote_status find_connection new_vote_session new_session c_str
vote_moves_run = refl

-- The vote is over.
voted_popping : voted.working ≡ popping
unfolding run_all joined step_nth step find text_eq fire timer_task task_wrapped do_daily_task
    create_each idle_phones get_devices_pro_copy begin_work begin_vote vote_threads create_threads
    get_idle_not_vote_count vote_status find_connection new_vote_session new_session c_str
voted_popping = refl

run_all-Waits_example : Waits decimal server login orders tasks above voted
run_all-Waits_example =
    run_all-Waits decimal server login orders tasks above vote_moves quiet voted tt vote_moves_run
