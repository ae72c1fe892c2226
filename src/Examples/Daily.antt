-- ===== src/Examples/Daily.antt =====
-- The runs of one day, and two phones of which one is idle.
use schedule_center.Base.{ℕ, ◌-◌, ◌%◌, ◌≤◌, [], ◌∷◌, ◌≡◌, refl, length}
use schedule_center.Devices.{get_devices_pro_copy}
use schedule_center.Daily.{task_times, run_times, idle_phones}
use schedule_center.Daily.Times.{Increasing, task_times-Increasing}
use schedule_center.Examples.{ip_a, server}
use schedule_center.Examples.Devices.{phones}

abbrev draw : ℕ → ℕ × ℕ
draw i = (i, 61)

late_times : run_times draw 2 22 ≡ 80521 ∷ 84181 ∷ []
unfolding run_times
late_times = refl

task_times-Increasing_example :
    Increasing 0 86400 (task_times 23 draw)
    × (length (task_times 23 draw) ≡ 24 - 23 % 12)
    × (13 ≤ length (task_times 23 draw))
task_times-Increasing_example = task_times-Increasing 23 draw

one_idle : idle_phones (get_devices_pro_copy server phones) ≡ ip_a ∷ []
unfolding idle_phones get_devices_pro_copy
one_idle = refl
