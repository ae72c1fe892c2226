-- ===== src/WorkQueue/Fifo.antt =====
-- The order of the tasks in work_queue (inc/public/work_queue.hpp) across the steps of its threads.
use schedule_center.Base.{
  List, [], ◌∷◌, ◌++◌, ◌≡◌, refl, subst, sym, arith, append-nil, append_assoc,
}
use schedule_center.WorkQueue.{
  WorkQueue, stop, push_task, pop_from, pop_task, clear, notify_one, notify_all, Step, stops,
  pushes, enters, pops, clears, notifies_one, notifies_all, wakes, Reach, start, next,
}

-- What was accepted is what was handed out, in this order, and then what is still queued.
abbrev pub IsFifo {ℓ} : {T : Type ℓ} → WorkQueue T → Type ℓ
IsFifo q = q.accepted ≡ q.popped ++ q.tasks

module _ {ℓ} {T : Type ℓ} where
  push_task-IsFifo : (task : T) (q : WorkQueue T) → IsFifo q → IsFifo (push_task task q)
  unfolding push_task
  push_task-IsFifo task q f = ground (arith, append_assoc q.popped q.tasks (task ∷ []))

  pop_from-IsFifo :
      (tasks : List T) (q : WorkQueue T) → q.tasks ≡ tasks → IsFifo q → IsFifo (pop_from tasks q)
  pop_from-IsFifo [] q e f = ground arith
  pop_from-IsFifo (task ∷ rest) q e f = ground (arith, append_assoc q.popped (task ∷ []) rest)

  pop_task-IsFifo : (q : WorkQueue T) → IsFifo q → IsFifo (pop_task q)
  unfolding pop_task
  pop_task-IsFifo q f = pop_from-IsFifo q.tasks q refl f

  clear-IsFifo : (q : WorkQueue T) → IsFifo (clear q)
  unfolding clear
  clear-IsFifo q = sym (append-nil q.popped)

  notify_one-IsFifo : (q : WorkQueue T) → IsFifo q → IsFifo (notify_one q)
  unfolding notify_one
  notify_one-IsFifo q f = ground arith

  Step-IsFifo : {q r : WorkQueue T} → Step q r → IsFifo q → IsFifo r
  unfolding stop notify_all
  Step-IsFifo (stops e) f = ground arith
  Step-IsFifo {q} (pushes task e) f = subst IsFifo (sym e) (push_task-IsFifo task q f)
  Step-IsFifo (enters e) f = ground arith
  Step-IsFifo {q} (pops h e) f = subst IsFifo (sym e) (pop_task-IsFifo q f)
  Step-IsFifo {q} (clears e) f = subst IsFifo (sym e) (clear-IsFifo q)
  Step-IsFifo {q} (notifies_one h e) f = subst IsFifo (sym e) (notify_one-IsFifo q f)
  Step-IsFifo (notifies_all h e) f = ground arith
  Step-IsFifo (wakes h e) f = ground arith

  -- In every reachable state the tasks that were pushed, less those that `clear` dropped, are those
  -- that `pop_task` took from the queue, in the order of the pushes, followed by those still queued.
  pub Reach-IsFifo : {q : WorkQueue T} → Reach q → IsFifo q
  Reach-IsFifo start = refl
  Reach-IsFifo (next r s) = Step-IsFifo s (Reach-IsFifo r)
