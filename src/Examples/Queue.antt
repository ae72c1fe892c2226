-- ===== src/Examples/Queue.antt =====
-- A queue into which one task is pushed while a thread waits for it.
use schedule_center.Base.{ℕ, [], ◌∷◌, ◌≡◌, refl, arith}
use schedule_center.WorkQueue.{
  WorkQueue, empty, push_task, pop_task, notify_one, stop, Reach, start, next, enters, pops, pushes,
  notifies_one, stops,
}
use schedule_center.WorkQueue.Wakeups.{Awake, Reach-Awake}
use schedule_center.WorkQueue.Fifo.{IsFifo, Reach-IsFifo}

abbrev entered : WorkQueue ℕ
entered = record (empty ℕ) { running = 1 }

-- One thread finds nothing and waits, a task comes, the thread is notified and takes it, and
-- another task comes.
abbrev final : WorkQueue ℕ
final = push_task 8 (pop_task (notify_one (push_task 7 (pop_task entered))))

final-Reach : Reach final
unfolding push_task pop_task notify_one
final-Reach =
    next
      (next
        (next (next (next (next start (enters refl)) (pops (omega arith) refl)) (pushes 7 refl))
          (notifies_one (omega arith) refl))
        (pops (omega arith) refl))
      (pushes 8 refl)

final_fields :
    (final.tasks ≡ 8 ∷ []) × (final.popped ≡ 7 ∷ []) × (final.waiting ≡ 0) × (final.ones ≡ 1)
unfolding push_task pop_task notify_one
final_fields = (refl, refl, refl, refl)

-- The thread waits and the queue is stopped: the call of `notify_all` is pending.
abbrev stopped : WorkQueue ℕ
stopped = stop (pop_task entered)

stopped-Reach : Reach stopped
unfolding stop pop_task
stopped-Reach = next (next (next start (enters refl)) (pops (omega arith) refl)) (stops refl)

Reach-Awake_example : Awake stopped
Reach-Awake_example = Reach-Awake stopped-Reach

Reach-IsFifo_example : IsFifo final
Reach-IsFifo_example = Reach-IsFifo final-Reach
