-- ===== src/Coordinator/Memory.antt =====
-- src/coordinators/memory.ts: the count of one process, reset by a timer.
pub mod Timed
use rabbitmqtobucketqueue.Common.{
  ℕ, ◌+◌, ◌-◌, ◌≡◌, refl, if◌then◌else◌, leb, List, [], ◌∷◌, String, arith,
}

pub record Memory : Type 0 where
  pub queue : String
  pub max_batch : ℕ
  pub interval : ℕ
  pub total : ℕ

-- The constructor; the timer that it starts is the step `timer` below.
unfoldable pub new : String → ℕ → ℕ → Memory
new queue max_batch interval = record {
  queue = queue;
  max_batch = max_batch;
  interval = interval;
  total = 0;
}

unfoldable pub balance : Memory → ℕ
balance c = if leb c.max_batch c.total then 0 else c.max_batch - c.total

unfoldable pub increment : ℕ → Memory → Memory
increment count c = record c { total = c.total + count }

-- The private `#reset`.
clear : Memory → Memory
clear c = record c { total = 0 }

unfoldable pub reset : Memory → Memory
unfolding clear
reset c = clear c

-- `setInterval(this.#reset.bind(this), interval)` fires.
unfoldable pub timer : Memory → Memory
unfolding clear
timer c = clear c

-- What happens to a coordinator.
pub data Call : Type 0 where
  increments : ℕ → Call
  resets fires : Call

unfoldable pub step : Memory → Call → Memory
unfolding increment reset timer
step c (increments n) = increment n c
step c resets = reset c
step c fires = timer c

-- The calls, the newest first.
unfoldable pub run : Memory → List Call → Memory
run c [] = c
run c (x ∷ h) = step (run c h) x

-- What was counted since the last reset, whether asked for or by the timer.
abbrev pub counted : List Call → ℕ
counted [] = 0
counted (increments n ∷ h) = counted h + n
counted (resets ∷ h) = 0
counted (fires ∷ h) = 0

run_state :
    (q : String) (m i : ℕ) (h : List Call)
    → ((run (new q m i) h).total ≡ counted h) × ((run (new q m i) h).max_batch ≡ m)
unfolding run step new
run_state q m i [] = (refl, refl)
run_state q m i (increments n ∷ h) = ground (arith, run_state q m i h)
run_state q m i (resets ∷ h) = ground (arith, run_state q m i h)
run_state q m i (fires ∷ h) = ground (arith, run_state q m i h)

-- After any sequence of increments, resets and timer ticks the balance is the quota less what was
-- counted since the last reset, and 0 once that reaches the quota.
pub balance-run :
    (q : String) (m i : ℕ) (h : List Call) → balance (run (new q m i) h) ≡ m - counted h
unfolding balance
balance-run q m i h = ground (arith, run_state q m i h)
