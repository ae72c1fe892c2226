-- ===== src/Examples/Worker.antt =====
-- An order for one vote, and a task that is none.
use schedule_center.Base.{
  ℕ, ◌≤◌, true, List, [], ◌∷◌, none, some, ◌≡◌, ◌==◌, if◌then◌else◌, refl, arith,
}
use schedule_center.Base.Text.{Text, codes, text_eq, c_str}
use schedule_center.Json.{Json, TasksInfo}
use schedule_center.Protocol.{cmd_sche_wx_vote}
use schedule_center.Phones.{no_error, find_connection}
use schedule_center.Schedule
use schedule_center.Schedule.{start_reading, handle_read}
use schedule_center.Schedule.Read.{IsOrder}
use schedule_center.Sessions.{returns}
use schedule_center.Devices.{get_devices_pro_copy}
use schedule_center.Daily.{idle_phones}
use schedule_center.Base.Map.{find}
use schedule_center.Threads.{Input, runs, Common, new_session, new_vote_session, step}
use schedule_center.Threads.Running.{step_nth, run}
use schedule_center.Worker.{
  new_vote, with_votes, vote_ret, begin_vote, vote_threads, create_threads, do_task, work,
}
use schedule_center.Worker.Idle.{do_task-times}
use schedule_center.Threads.Idle.{times}
use schedule_center.Worker.Results.{work-handle_read}
use schedule_center.Accounts.{vote_status, get_idle_not_vote_count}
use schedule_center.Examples.{server, login}
use schedule_center.Examples.Schedule.{buffer_of, one_letter-IsSent, one, tasks}
use schedule_center.Examples.Sessions.{bob, decimal}
use schedule_center.Examples.Threads.{common}

-- A tree is the first byte of its text. All have the id 7 and ask for one vote; `v` has the
-- command of a vote and any other the command 9.
abbrev pub orders : Json
orders = record {
  Ptree = ℕ;
  read_json = λ s. elim s [ [] ↦ none | c ∷ _ ↦ some c ];
  has = λ _ _. true;
  child = λ _ _. none;
  get_int = λ pt key.
      if text_eq key (codes "task_cmd")
      then some (if pt == b'v' then cmd_sche_wx_vote else 9)
      else if text_eq key (codes "votes_cnt")
      then some 1
      else some 7;
  get_string = λ _ _. some (codes "u1");
}

-- The only session finds no connection to its phone.
abbrev turns : List (ℕ × Input)
turns = (0, runs true) ∷ []

abbrev start : Common server login
start = common (bob ∷ [])

abbrev answer : Text
answer = vote_ret decimal server login orders 7 cmd_sche_wx_vote 0 0 (codes "ok")

abbrev after : Common server login
after =
    with_votes decimal server login orders (record { success_count = 0; target_count = 1 }) start

vote-IsOrder : IsOrder orders (b'v' ∷ []) b'v' cmd_sche_wx_vote
unfolding text_eq
vote-IsOrder = record { parsed = refl; has_cmd = refl; has_id = refl; cmd_of = refl }

seven : orders.get_int b'v' (codes "task_id") ≡ some 7
unfolding text_eq
seven = refl

do_task-run :
    do_task decimal server login orders 1 turns b'v'
      (with_votes decimal server login orders new_vote start)
    ≡ some (returns (answer, after))
unfolding do_task begin_vote text_eq get_idle_not_vote_count vote_status find vote_threads
    create_threads idle_phones get_devices_pro_copy new_vote_session new_session run step_nth step
    find_connection
do_task-run = refl

work-handle_read_example :
    (task : TasksInfo) × (handle_read orders tasks 1 no_error (buffer_of b'v') true one []
      ≡ some (start_reading 1 one, Schedule.returns (task ∷ []) none))
    × (work decimal server login orders 1 turns tasks task [] [] start
        ≡ some (returns (answer, [], after)))
work-handle_read_example =
    work-handle_read decimal server login orders tasks 1 turns 1 (buffer_of b'v') (b'v' ∷ []) true
      one [] [] b'v' 7 [] answer start after (one_letter-IsSent b'v' (λ e. omega (arith, e)))
      vote-IsOrder seven do_task-run

abbrev other : TasksInfo
other = record { id = 7; description = codes "z"; status = 0 }

other_tree : orders.read_json (c_str other.description) ≡ some b'z'
unfolding c_str
other_tree = refl

other_cmd : orders.get_int b'z' (codes "task_cmd") ≡ some 9
unfolding text_eq
other_cmd = refl

do_task-times_example :
    times bob after.shared.accounts.idle_accounts ≤ times bob start.shared.accounts.idle_accounts
do_task-times_example =
    do_task-times decimal server login orders 1 turns bob b'v'
      (with_votes decimal server login orders new_vote start) after answer do_task-run
