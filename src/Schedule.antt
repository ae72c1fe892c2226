-- ===== src/Schedule.antt =====
-- sche_conn_pool and schedule_connection (src/common/sche_conn_pool.cpp, schedule_connection.cpp):
-- the connection of the scheduling client, which orders votes and asks for their results.
pub mod Pool
pub mod Frame
pub mod Read
use schedule_center.Base.{
  ℕ, ◌+◌, ◌%◌, ◌^◌, Bool, true, false, not, ◌||◌, List, [], ◌∷◌, ◌++◌, Option, none, some, ◌==◌,
  ltb, leb, if◌then◌else◌, ◌>>=◌, length, take, drop,
}
use schedule_center.Base.Text.{Text, codes, c_str}
use schedule_center.Base.Pointers.{put, insert_ptr, erase_ptr}
use schedule_center.Json.{Json, TasksInfo, TasksMgr}
use schedule_center.Protocol.{int_bytes, read_int, cmd_sche_wx_vote, cmd_sche_wx_get_result}
use schedule_center.Phones.{Ec, no_error, operation_aborted, other_error}

-- A connection: whether the socket is open and whether a read is pending.
pub record ScheduleConnection : Type 0 where
  pub is_open : Bool
  pub reading : Bool

pub record SchePool : Type 0 where
  pub connections : List ℕ
  pub store : ℕ → ScheduleConnection

-- `schedule_connection::start`: a read is pending.
unfoldable pub start_reading : ℕ → SchePool → SchePool
start_reading p s = record s { store = put s.store p (record (s.store p) { reading = true }) }

-- `schedule_connection::stop`
unfoldable pub close_socket : ℕ → SchePool → SchePool
close_socket p s =
    if (s.store p).is_open
    then record s { store = put s.store p (record (s.store p) { is_open = false }) }
    else s

-- `sche_conn_pool::stop`
unfoldable pub stop : ℕ → SchePool → SchePool
unfolding close_socket erase_ptr
stop p s = close_socket p (record s { connections = erase_ptr p s.connections })

-- What `schedule_connection::handle_read` does on an error that is no cancellation.
abbrev pub read_failed : ℕ → SchePool → SchePool
read_failed p s = if (s.store p).is_open then stop p s else s

-- `sche_conn_pool::start`: a second client is refused.
unfoldable pub start : ℕ → SchePool → SchePool
unfolding stop start_reading insert_ptr
start p s =
    if ltb 0 (length s.connections)
    then stop p s
    else record (start_reading p s) { connections = insert_ptr p s.connections }

-- `sche_conn_pool::stop_all`
unfoldable pub close_each : List ℕ → SchePool → SchePool
unfolding close_socket
close_each [] s = s
close_each (p ∷ l) s = close_each l (close_socket p s)

unfoldable pub stop_all : SchePool → SchePool
unfolding close_each
stop_all s = record (close_each s.connections s) { connections = [] }

-- The C string at a pointer into an array; `none` is a read past the end of the array.
unfoldable pub c_string : Text → Option Text
c_string [] = none
c_string (c ∷ s) = if c == 0 then some [] else c_string s >>= λ t. some (c ∷ t)

-- `s[n] = 0` on a `std::string`: defined up to `s[s.size()]`, which is 0 already.
unfoldable pub set_nul : ℕ → Text → Option Text
set_nul n s =
    if ltb n (length s)
    then some (take n s ++ 0 ∷ drop (n + 1) s)
    else if n == length s
    then some s
    else none

-- How `handle_read` takes a message out of the buffer. A negative length is a large pattern.
unfoldable pub read_frame : Text → Option Text
unfolding c_string set_nul
read_frame buffer = read_int buffer >>= λ len. c_string (drop 4 buffer) >>= λ s. set_nul len s

-- What `on_read` writes to the socket for a result.
unfoldable pub reply : Text → Text
reply ret = int_bytes (length ret % 2 ^ 32) ++ ret

-- How a handler ends: it returns, having written a reply or not, or an exception leaves it.
pub data Ends (S : Type 0) : Type 0 where
  returns : S → Option Text → Ends S
  escapes : Ends S

module _ (j : Json) (t : TasksMgr) where
  abbrev pub run_command : ℕ → Option ℕ → Text → Bool → t.State → Ends t.State
  run_command cmd id text wrote st =
      if cmd == cmd_sche_wx_vote
      then elim id [
        | none ↦ escapes
        | some n ↦
            returns
              (t.add_task (record { id = n; description = text; status = t.task_status_queuing })
                st)
              none
      ]
      else if cmd == cmd_sche_wx_get_result
      then elim id [
        | none ↦ escapes
        | some n ↦
            let (ret, st') = t.get_result n st in
            if wrote then returns st' (some (reply ret)) else escapes
      ]
      else returns st none

  -- `schedule_connection::on_read`. `wrote` is whether `write_some` succeeds; else it throws.
  unfoldable pub on_read : Text → Bool → t.State → Ends t.State
  unfolding reply
  on_read text wrote st = elim (j.read_json (c_str text)) [
    | none ↦ returns st none
    | some pt ↦
        if not (j.has pt (codes "task_cmd")) || not (j.has pt (codes "task_id"))
        then returns st none
        else elim (j.get_int pt (codes "task_cmd")) [
          | none ↦ escapes
          | some cmd ↦ run_command cmd (j.get_int pt (codes "task_id")) text wrote st
        ]
  ]

  -- What `handle_read` does after `on_read`: a read is pending, unless an exception leaves.
  abbrev pub settle : ℕ → SchePool → Ends t.State → Option (SchePool × Ends t.State)
  settle p s (returns st r) = some (start_reading p s, returns st r)
  settle p s escapes = some (s, escapes)

  -- `schedule_connection::handle_read`; `none` is a run that C++ leaves undefined.
  unfoldable pub handle_read :
      ℕ → Ec → Text → Bool → SchePool → t.State → Option (SchePool × Ends t.State)
  unfolding read_frame on_read stop start_reading
  handle_read p no_error buffer wrote s st =
      read_frame buffer >>= λ text. settle p s (on_read text wrote st)
  handle_read p operation_aborted buffer wrote s st = some (s, returns st none)
  handle_read p other_error buffer wrote s st = some (read_failed p s, returns st none)
