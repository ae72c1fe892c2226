-- ===== src/Schedule/Read.antt =====
-- What a message of the scheduling client does, from the bytes in the buffer to the tasks
-- (schedule_connection::handle_read and on_read in src/common/schedule_connection.cpp).
use schedule_center.Base.{
  ℕ, ◌<◌, ◌^◌, ◌++◌, ◌∷◌, Bool, true, none, some, ◌≡◌, ◌⊎◌, inl, inr, refl, length,
}
use schedule_center.Base.Text.{Text, NoNul, codes, c_str}
use schedule_center.Json.{Json, TasksInfo, TasksMgr}
use schedule_center.Phones.{no_error}
use schedule_center.Protocol.{cmd_sche_wx_vote, cmd_sche_wx_get_result}
use schedule_center.Schedule.{
  SchePool, returns, escapes, run_command, on_read, reply, settle, start_reading, handle_read,
}
use schedule_center.Schedule.Frame.{frame, read_frame-frame}

-- The text parses to `pt`, which has both keys and this command.
pub record IsOrder (j : Json) (text : Text) (pt : j.Ptree) (cmd : ℕ) : Type 0 where
  pub parsed : j.read_json text ≡ some pt
  pub has_cmd : j.has pt (codes "task_cmd") ≡ true
  pub has_id : j.has pt (codes "task_id") ≡ true
  pub cmd_of : j.get_int pt (codes "task_cmd") ≡ some cmd

-- A message in the buffer, before bytes of earlier messages that end in a NUL. It has no NUL and
-- fits its length.
pub record IsSent (buffer text : Text) : Type 0 where
  pub stale : Text
  pub rest : Text
  pub layout : buffer ≡ frame text ++ (stale ++ 0 ∷ rest)
  pub no_nul : NoNul text
  pub stale_no_nul : NoNul stale
  pub short : length text < 2 ^ 32

module _ (j : Json) (t : TasksMgr) where
  on_read-order :
      (message text : Text) (wrote : Bool) (st : t.State) (pt : j.Ptree) (cmd : ℕ)
      → c_str message ≡ text
      → IsOrder j text pt cmd
      → on_read j t message wrote st
        ≡ run_command j t cmd (j.get_int pt (codes "task_id")) message wrote st
  unfolding on_read
  on_read-order message text wrote st pt cmd e o =
      rw (on_read, e, o.parsed, o.has_cmd, o.has_id, o.cmd_of) refl

  handle_read-order :
      (p : ℕ) (buffer text : Text) (wrote : Bool) (s : SchePool) (st : t.State) (pt : j.Ptree)
      (cmd : ℕ)
      → IsSent buffer text
      → IsOrder j text pt cmd
      → (message : Text) × (c_str message ≡ text)
        × (handle_read j t p no_error buffer wrote s st
            ≡ settle j t p s
                (run_command j t cmd (j.get_int pt (codes "task_id")) message wrote st))
  unfolding handle_read
  handle_read-order p buffer text wrote s st pt cmd sent o =
      let (message, cut, same) =
        read_frame-frame text sent.stale sent.rest sent.no_nul sent.stale_no_nul sent.short in
      (
        message,
        same,
        rw (sent.layout, cut) (rw (on_read-order message text wrote st pt cmd same o) refl),
      )

  -- An order to vote that arrives in the buffer, with an integer as its id: `handle_read` adds one
  -- queued task to the tasks, with that id and with a description that is the sent text up to its
  -- NUL, writes no reply, and leaves a read pending.
  pub handle_read_vote :
      (p : ℕ) (buffer text : Text) (wrote : Bool) (s : SchePool) (st : t.State) (pt : j.Ptree)
      (n : ℕ)
      → IsSent buffer text
      → IsOrder j text pt cmd_sche_wx_vote
      → j.get_int pt (codes "task_id") ≡ some n
      → (task : TasksInfo) × (handle_read j t p no_error buffer wrote s st
          ≡ some (start_reading p s, returns (t.add_task task st) none))
        × (task.id ≡ n)
        × (c_str task.description ≡ text)
        × (task.status ≡ t.task_status_queuing)
  handle_read_vote p buffer text wrote s st pt n sent o e =
      let (message, same, run) =
        handle_read-order p buffer text wrote s st pt cmd_sche_wx_vote sent o in
      (
        record { id = n; description = message; status = t.task_status_queuing },
        rw run (rw e refl),
        refl,
        same,
        refl,
      )

  -- A request for a result that arrives in the buffer, with an integer as its id, when the write
  -- succeeds: `handle_read` replies with what the tasks hold for that id, behind its length, and
  -- leaves a read pending.
  pub handle_read_result :
      (p : ℕ) (buffer text : Text) (s : SchePool) (st : t.State) (pt : j.Ptree) (n : ℕ)
      → IsSent buffer text
      → IsOrder j text pt cmd_sche_wx_get_result
      → j.get_int pt (codes "task_id") ≡ some n
      → handle_read j t p no_error buffer true s st
        ≡ some
            (start_reading p s, returns (t.get_result n st).1 (some (reply (t.get_result n st).0)))
  handle_read_result p buffer text s st pt n sent o e =
      let (message, same, run) =
        handle_read-order p buffer text true s st pt cmd_sche_wx_get_result sent o in
      rw run (rw e refl)

  -- An order to vote or for a result that arrives in the buffer with an id that is not an integer
  -- makes an exception leave `handle_read`, which has no handler for it, with no read pending.
  pub handle_read_escapes :
      (p : ℕ) (buffer text : Text) (wrote : Bool) (s : SchePool) (st : t.State) (pt : j.Ptree)
      (cmd : ℕ)
      → IsSent buffer text
      → IsOrder j text pt cmd
      → (cmd ≡ cmd_sche_wx_vote) ⊎ (cmd ≡ cmd_sche_wx_get_result)
      → j.get_int pt (codes "task_id") ≡ none
      → handle_read j t p no_error buffer wrote s st ≡ some (s, escapes)
  handle_read_escapes p buffer text wrote s st pt cmd sent o (inl vote) e =
      let (message, same, run) = handle_read-order p buffer text wrote s st pt cmd sent o in
      rw run (rw (e, vote) refl)
  handle_read_escapes p buffer text wrote s st pt cmd sent o (inr ask) e =
      let (message, same, run) = handle_read-order p buffer text wrote s st pt cmd sent o in
      rw run (rw (e, ask) refl)
