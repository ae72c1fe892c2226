-- ===== src/Daily.antt =====
-- keep_wx_account_task (src/wx/keep_wx_account_task.cpp): when the daily tasks run, and on which
-- phones. A time is in seconds after the local midnight.
pub mod Times
use schedule_center.Base.{
  ℕ, zero, suc, ◌+◌, ◌-◌, ◌*◌, ◌%◌, List, [], ◌∷◌, Option, none, some, ◌==◌, ltb, if◌then◌else◌,
  ◌>>=◌,
}
use schedule_center.Base.Text.{Text}
use schedule_center.Base.Map.{Map}
use schedule_center.Mysql.{Connector, Login}
use schedule_center.Devices.{DevicePro, device_status_online_idle}
use schedule_center.Accounts.{AccountMgr, reset_all_everyday_task}

-- The loop of `reset_task` from hour `i`, on fuel: 24 is enough. `draw i` is what the generator gives
-- for the minute and for the second of the run of this hour.
unfoldable pub run_times : (ℕ → ℕ × ℕ) → ℕ → ℕ → List ℕ
run_times draw zero i = []
run_times draw (suc fuel) i =
    let rest = run_times draw fuel (i + 1) in
    if ltb i 24 then (i * 3600 + ((draw i).0 % 60) * 60 + (draw i).1 % 60) ∷ rest else []

-- `first` is the generator's first number.
unfoldable pub task_times : ℕ → (ℕ → ℕ × ℕ) → List ℕ
task_times first draw = run_times draw 24 (first % 12 + 8 - 8)

-- `reset_task`: the accounts, and the times at which `do_task` is to run.
unfoldable pub reset_task :
    (c : Connector) → Login → ℕ → (ℕ → ℕ × ℕ) → AccountMgr c → Option (AccountMgr c × List ℕ)
reset_task c login first draw m =
    reset_all_everyday_task c login m >>= λ m'. some (m', task_times first draw)

-- The phones on which `do_task` of this class and of wx_vote start a session.
unfoldable pub idle_phones : Map DevicePro → List Text
idle_phones [] = []
idle_phones ((ip, p) ∷ m) =
    if p.status == device_status_online_idle then ip ∷ idle_phones m else idle_phones m
