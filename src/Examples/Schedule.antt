-- ===== src/Examples/Schedule.antt =====
-- A client that orders a vote, with a parser that reads an order from its first byte and tasks that
-- are a list.
use schedule_center.Base.{
  ℕ, true, false, List, [], ◌∷◌, ◌++◌, none, some, ◌==◌, ◌≡◌, ◌≢◌, refl, arith, if◌then◌else◌,
}
use schedule_center.Base.Text.{Text, codes, text_eq, c_str}
use schedule_center.Json.{Json, TasksInfo, TasksMgr}
use schedule_center.Protocol.{cmd_sche_wx_vote, cmd_sche_wx_get_result}
use schedule_center.Schedule.{
  ScheduleConnection, SchePool, returns, read_frame, reply, handle_read, start_reading,
}
use schedule_center.Schedule.Frame.{frame, read_frame-frame}
use schedule_center.Schedule.Read.{IsOrder, IsSent, handle_read_vote, handle_read_result}
use schedule_center.Phones.{no_error}

abbrev sockets : ℕ → ScheduleConnection
sockets _ = record { is_open = true; reading = false }

abbrev pub one : SchePool
one = record { connections = 1 ∷ []; store = sockets }

read_frame-frame_example :
    (s : Text) × (read_frame (frame (codes "ab") ++ (codes "old" ++ 0 ∷ [])) ≡ some s)
    × (c_str s ≡ codes "ab")
read_frame-frame_example =
    read_frame-frame (codes "ab") (codes "old") []
      (λ e. omega (arith, e), (λ e. omega (arith, e), tt))
      (λ e. omega (arith, e), (λ e. omega (arith, e), (λ e. omega (arith, e), tt))) (omega arith)

-- `v`: vote with id 5. `r`: the result of 5. `x`: vote with an id that is not a number.
abbrev pub parser : Json
parser = record {
  Ptree = ℕ;
  read_json = λ s. elim s [ [] ↦ none | c ∷ _ ↦ some c ];
  has = λ _ _. true;
  child = λ _ _. none;
  get_int = λ pt key.
      if text_eq key (codes "task_cmd")
      then some (if pt == b'r' then cmd_sche_wx_get_result else cmd_sche_wx_vote)
      else if pt == b'x'
      then none
      else some 5;
  get_string = λ _ _. none;
}

abbrev pub tasks : TasksMgr
tasks = record {
  State = List TasksInfo;
  task_status_queuing = 0;
  task_status_finished = 2;
  add_task = λ t s. t ∷ s;
  get_result = λ _ s. (codes "done", s);
  set_result = λ _ _ s. s;
  set_status = λ _ _ s. s;
}

vote-IsOrder : IsOrder parser (codes "v") b'v' cmd_sche_wx_vote
unfolding text_eq
vote-IsOrder = record { parsed = refl; has_cmd = refl; has_id = refl; cmd_of = refl }

ask-IsOrder : IsOrder parser (codes "r") b'r' cmd_sche_wx_get_result
unfolding text_eq
ask-IsOrder = record { parsed = refl; has_cmd = refl; has_id = refl; cmd_of = refl }

bad-IsOrder : IsOrder parser (codes "x") b'x' cmd_sche_wx_vote
unfolding text_eq
bad-IsOrder = record { parsed = refl; has_cmd = refl; has_id = refl; cmd_of = refl }

five : parser.get_int b'v' (codes "task_id") ≡ some 5
unfolding text_eq
five = refl

five_again : parser.get_int b'r' (codes "task_id") ≡ some 5
unfolding text_eq
five_again = refl

no_id : parser.get_int b'x' (codes "task_id") ≡ none
unfolding text_eq
no_id = refl

-- One letter in the buffer, before what is left of an earlier message.
abbrev pub buffer_of : ℕ → Text
buffer_of letter = frame (letter ∷ []) ++ (codes "old" ++ 0 ∷ [])

pub one_letter-IsSent : (letter : ℕ) → letter ≢ 0 → IsSent (buffer_of letter) (letter ∷ [])
one_letter-IsSent letter h = record {
  stale = codes "old";
  rest = [];
  layout = refl;
  no_nul = (h, tt);
  stale_no_nul = (λ e. omega (arith, e), (λ e. omega (arith, e), (λ e. omega (arith, e), tt)));
  short = omega arith;
}

handle_read_vote_example :
    (task : TasksInfo) × (handle_read parser tasks 1 no_error (buffer_of b'v') true one []
      ≡ some (start_reading 1 one, returns (task ∷ []) none))
    × (task.id ≡ 5)
    × (c_str task.description ≡ b'v' ∷ [])
    × (task.status ≡ 0)
handle_read_vote_example =
    handle_read_vote parser tasks 1 (buffer_of b'v') (b'v' ∷ []) true one [] b'v' 5
      (one_letter-IsSent b'v' (λ e. omega (arith, e))) vote-IsOrder five

handle_read_result_example :
    handle_read parser tasks 1 no_error (buffer_of b'r') true one []
    ≡ some (start_reading 1 one, returns [] (some (reply (codes "done"))))
handle_read_result_example =
    handle_read_result parser tasks 1 (buffer_of b'r') (b'r' ∷ []) one [] b'r' 5
      (one_letter-IsSent b'r' (λ e. omega (arith, e))) ask-IsOrder five_again
