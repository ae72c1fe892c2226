-- ===== src/WorkQueue/Wakeups.antt =====
-- The wake-ups of work_queue (inc/public/work_queue.hpp) across the steps of its threads.
use schedule_center.Base.{
  ◌+◌, ◌≤◌, ◌<◌, false, ◌⊎◌, inl, List, [], ◌∷◌, ◌≡◌, refl, subst, sym, arith, length,
  length-append,
}
use schedule_center.WorkQueue.{
  WorkQueue, stop, push_task, pop_from, pop_task, clear, notify_one, notify_all, Step, stops,
  pushes, enters, pops, clears, notifies_one, notifies_all, wakes, Reach, start, next,
}

pub record Awake {ℓ} {T : Type ℓ} (q : WorkQueue T) : Type 0 where
  pub served : (q.waiting ≡ 0) ⊎ (length q.tasks ≤ q.ones + q.running)
  pub released : (q.waiting ≡ 0) ⊎ (q.is_stopped ≡ false) ⊎ (0 < q.alls)

module _ {ℓ} {T : Type ℓ} where
  stop-Awake : (q : WorkQueue T) → Awake q → Awake (stop q)
  unfolding stop
  stop-Awake q a = ground arith

  push_task-Awake : (task : T) (q : WorkQueue T) → Awake q → Awake (push_task task q)
  unfolding push_task
  push_task-Awake task q a = ground (arith, length-append q.tasks (task ∷ []))

  pop_from-Awake :
      (tasks : List T) (q : WorkQueue T)
      → 0 < q.running
      → q.tasks ≡ tasks
      → Awake q
      → Awake (pop_from tasks q)
  pop_from-Awake [] q h e a = ground arith
  pop_from-Awake (task ∷ rest) q h e a = ground arith

  pop_task-Awake : (q : WorkQueue T) → 0 < q.running → Awake q → Awake (pop_task q)
  unfolding pop_task
  pop_task-Awake q h a = pop_from-Awake q.tasks q h refl a

  clear-Awake : (q : WorkQueue T) → Awake q → Awake (clear q)
  unfolding clear
  clear-Awake q a = ground arith

  notify_one-Awake : (q : WorkQueue T) → 0 < q.ones → Awake q → Awake (notify_one q)
  unfolding notify_one
  notify_one-Awake q h a = ground arith

  notify_all-Awake : (q : WorkQueue T) → Awake q → Awake (notify_all q)
  unfolding notify_all
  notify_all-Awake q a = ground arith

  Step-Awake : {q r : WorkQueue T} → Step q r → Awake q → Awake r
  Step-Awake {q} (stops e) a = subst Awake (sym e) (stop-Awake q a)
  Step-Awake {q} (pushes task e) a = subst Awake (sym e) (push_task-Awake task q a)
  Step-Awake {q} (enters e) a = ground arith
  Step-Awake {q} (pops h e) a = subst Awake (sym e) (pop_task-Awake q h a)
  Step-Awake {q} (clears e) a = subst Awake (sym e) (clear-Awake q a)
  Step-Awake {q} (notifies_one h e) a = subst Awake (sym e) (notify_one-Awake q h a)
  Step-Awake {q} (notifies_all h e) a = subst Awake (sym e) (notify_all-Awake q a)
  Step-Awake {q} (wakes h e) a = ground arith

  -- In every reachable state: either no thread is blocked in `pop_task`, or there are no more tasks
  -- than pending calls of `notify_one` and threads about to look at the queue, and the queue is not
  -- stopped or a call of `notify_all` is pending. So once no call is pending and no thread runs, a
  -- blocked thread means an empty queue that is not stopped.
  pub Reach-Awake : {q : WorkQueue T} → Reach q → Awake q
  Reach-Awake start = record { served = inl refl; released = inl refl }
  Reach-Awake (next r s) = Step-Awake s (Reach-Awake r)
