-- ===== src/WorkQueue.antt =====
-- work_queue (inc/public/work_queue.hpp): a deque behind a mutex and a condition variable. A step is
-- what one thread does between taking and giving up the mutex, or one call of `notify_*`, which the
-- code makes after it has given the mutex up.
pub mod Wakeups
pub mod Fifo
use schedule_center.Base.{
  ℕ, ◌+◌, ◌-◌, ◌<◌, Bool, true, false, List, [], ◌∷◌, ◌++◌, ◌≡◌, if◌then◌else◌, ◌==◌,
}

module _ {ℓ} (T : Type ℓ) where
  pub record WorkQueue : Type ℓ where
    pub tasks : List T
    pub is_stopped : Bool
    -- Threads in `pop_task`: blocked in `cond_.wait`, or about to take the mutex.
    pub waiting : ℕ
    pub running : ℕ
    -- Calls of `notify_one` and `notify_all` that are still to be made.
    pub ones : ℕ
    pub alls : ℕ
    -- The tasks that were queued and not cleared, and those that `pop_task` took from the queue.
    pub accepted : List T
    pub popped : List T

  abbrev pub empty : WorkQueue
  empty = record {
    tasks = [];
    is_stopped = false;
    waiting = 0;
    running = 0;
    ones = 0;
    alls = 0;
    accepted = [];
    popped = [];
  }

module _ {ℓ} {T : Type ℓ} where
  -- `stop`, up to its call of `notify_all`.
  unfoldable pub stop : WorkQueue T → WorkQueue T
  stop q = record q { is_stopped = true; alls = q.alls + 1 }

  -- `push_task`, up to its call of `notify_one`.
  unfoldable pub push_task : T → WorkQueue T → WorkQueue T
  push_task task q = if q.is_stopped then q else record q {
    tasks = q.tasks ++ task ∷ [];
    ones = q.ones + 1;
    accepted = q.accepted ++ task ∷ [];
  }

  -- A thread that has the mutex looks at the deque: it returns with the front task, or with
  -- `task_type()` from a stopped queue, or it waits.
  abbrev pub pop_from : List T → WorkQueue T → WorkQueue T
  pop_from [] q =
      if q.is_stopped
      then record q { running = q.running - 1 }
      else record q { running = q.running - 1; waiting = q.waiting + 1 }
  pop_from (task ∷ rest) q = record q {
    tasks = rest;
    running = q.running - 1;
    popped = q.popped ++ task ∷ [];
  }

  unfoldable pub pop_task : WorkQueue T → WorkQueue T
  pop_task q = pop_from q.tasks q

  -- What `clear` does after its call of `stop`.
  unfoldable pub clear : WorkQueue T → WorkQueue T
  clear q = record q { tasks = []; is_stopped = false; accepted = q.popped }

  unfoldable pub notify_one : WorkQueue T → WorkQueue T
  notify_one q =
      if q.waiting == 0
      then record q { ones = q.ones - 1 }
      else record q { ones = q.ones - 1; waiting = q.waiting - 1; running = q.running + 1 }

  unfoldable pub notify_all : WorkQueue T → WorkQueue T
  notify_all q = record q { alls = q.alls - 1; waiting = 0; running = q.running + q.waiting }

  -- The threads and the scheduler choose.
  pub data Step (q r : WorkQueue T) : Type ℓ where
    stops : r ≡ stop q → Step q r
    pushes : (task : T) → r ≡ push_task task q → Step q r
    enters : r ≡ record q { running = q.running + 1 } → Step q r
    pops : 0 < q.running → r ≡ pop_task q → Step q r
    clears : r ≡ clear q → Step q r
    notifies_one : 0 < q.ones → r ≡ notify_one q → Step q r
    notifies_all : 0 < q.alls → r ≡ notify_all q → Step q r
    wakes :
        0 < q.waiting → r ≡ record q { waiting = q.waiting - 1; running = q.running + 1 } → Step q r

  pub data Reach : WorkQueue T → Type ℓ where
    start : Reach (empty T)
    next : {q r : WorkQueue T} → Reach q → Step q r → Reach r
