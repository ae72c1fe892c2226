-- ===== src/TaskProcessor.antt =====
-- task_processor (inc/public/task_processor.hpp, task.hpp): the tasks that are posted, the timers, and
-- the wrappers that run them. A time is in seconds, a day is a number.
use schedule_center.Base.{ℕ, zero, suc, ◌+◌, ◌*◌, List, [], ◌∷◌, ◌++◌, Option, none, some, ◌>>=◌}
use schedule_center.Phones.{Ec, no_error}

-- How a task ends, with the state that it leaves: it returns, or throws what one of the three handlers
-- of `task_wrapped` catches.
pub data Ran (S : Type 0) : Type 0 where
  done std_exception thread_interrupted other_exception : S → Ran S

abbrev pub caught : {S : Type 0} → Ran S → S
caught (done s) = s
caught (std_exception s) = s
caught (thread_interrupted s) = s
caught (other_exception s) = s

-- `task_wrapped::operator()`; `none` is a run that C++ leaves undefined.
unfoldable pub task_wrapped : {S : Type 0} → (S → Option (Ran S)) → S → Option S
task_wrapped task_unwrapped s = task_unwrapped s >>= λ r. some (caught r)

-- `timer_task::operator()`
unfoldable pub timer_task : {S : Type 0} → Ec → (S → Option (Ran S)) → S → Option S
unfolding task_wrapped
timer_task no_error task_unwrapped s = task_wrapped task_unwrapped s
timer_task _ task_unwrapped s = some s

-- The member functions that are posted or wait for a timer.
pub data Callback : Type 0 where
  start start_others reset_task do_task : Callback

-- `task_processor`: the tasks that are posted, and the timers with the time at which each expires.
pub record TaskProcessor : Type 0 where
  pub posted : List Callback
  pub timers : List (ℕ × Callback)

unfoldable pub push_task : Callback → TaskProcessor → TaskProcessor
push_task f t = record t { posted = t.posted ++ f ∷ [] }

unfoldable pub run_at : ℕ → Callback → TaskProcessor → TaskProcessor
run_at time f t = record t { timers = t.timers ++ (time, f) ∷ [] }

unfoldable pub run_after : ℕ → ℕ → Callback → TaskProcessor → TaskProcessor
unfolding run_at
run_after now duration f t = run_at (now + duration) f t

-- The loop of `reset_task` that makes a timer for each run of the day.
unfoldable pub run_each_at : ℕ → List ℕ → TaskProcessor → TaskProcessor
unfolding run_at
run_each_at day [] t = t
run_each_at day (time ∷ times) t = run_each_at day times (run_at (day * 86400 + time) do_task t)

-- The timers without the one at this position, and what that one calls.
abbrev pub removed : ℕ → List (ℕ × Callback) → List (ℕ × Callback)
removed n [] = []
removed zero (x ∷ l) = l
removed (suc n) (x ∷ l) = x ∷ removed n l

abbrev pub nth_callback : ℕ → List (ℕ × Callback) → Option Callback
nth_callback n [] = none
nth_callback zero (x ∷ l) = some x.1
nth_callback (suc n) (x ∷ l) = nth_callback n l
