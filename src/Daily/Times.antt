-- ===== src/Daily/Times.antt =====
-- The times of the daily tasks, and the number of the sessions that a task starts.
use schedule_center.Base.{
  true, ℕ, zero, suc, ◌+◌, ◌-◌, ◌*◌, ◌%◌, ◌≤◌, ◌<◌, List, [], ◌∷◌, ◌≡◌, ltb, arith, length,
  Bool-cases, inl, inr,
}
use schedule_center.Daily.{run_times, task_times}

-- Each number is at least `low`, less than `high`, and less than the next one.
abbrev pub Increasing : ℕ → ℕ → List ℕ → Type 0
Increasing low high [] = Unit
Increasing low high (t ∷ ts) = (low ≤ t) × (t < high) × Increasing (t + 1) high ts

Increasing-lower :
    (low low' high : ℕ) (ts : List ℕ)
    → low' ≤ low
    → Increasing low high ts
    → Increasing low' high ts
Increasing-lower low low' high [] le h = tt
Increasing-lower low low' high (t ∷ ts) le (above, below, rest) = (omega arith, below, rest)

lt_of_ltb : (i n : ℕ) → ltb i n ≡ true → i < n
lt_of_ltb i n h = ground arith

run_times-Increasing :
    (draw : ℕ → ℕ × ℕ) (fuel i : ℕ) → Increasing (i * 3600) 86400 (run_times draw fuel i)
unfolding run_times
run_times-Increasing draw zero i = tt
run_times-Increasing draw (suc fuel) i = elim (Bool-cases (ltb i 24)) [
  | inl more ↦ rw more (
    omega arith,
    omega (arith, lt_of_ltb i 24 more),
    Increasing-lower ((i + 1) * 3600) (i * 3600 + ((draw i).0 % 60) * 60 + (draw i).1 % 60 + 1)
        86400 (run_times draw fuel (i + 1)) (omega arith) (run_times-Increasing draw fuel (i + 1)),
  )
  | inr over ↦ rw over tt
]

length-run_times :
    (draw : ℕ → ℕ × ℕ) (fuel i : ℕ) → 24 ≤ fuel + i → length (run_times draw fuel i) ≡ 24 - i
unfolding run_times
length-run_times draw zero i h = omega arith
length-run_times draw (suc fuel) i h = ground (arith, length-run_times draw fuel (i + 1))

-- For all numbers of the generator, the times of a day's runs are increasing, within the day, and
-- one for each hour from the drawn one on, so at least 13.
pub task_times-Increasing :
    (first : ℕ) (draw : ℕ → ℕ × ℕ)
    → Increasing 0 86400 (task_times first draw)
      × (length (task_times first draw) ≡ 24 - first % 12)
      × (13 ≤ length (task_times first draw))
unfolding task_times
task_times-Increasing first draw = (
  Increasing-lower ((first % 12 + 8 - 8) * 3600) 0 86400 _ (omega arith)
      (run_times-Increasing draw 24 (first % 12 + 8 - 8)),
  omega (arith, length-run_times draw 24 (first % 12 + 8 - 8) (omega arith)),
  omega (arith, length-run_times draw 24 (first % 12 + 8 - 8) (omega arith)),
)
