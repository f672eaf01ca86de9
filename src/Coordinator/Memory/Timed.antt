-- ===== src/Coordinator/Memory/Timed.antt =====
-- The memory coordinator as a driver, with the timer firing or not before each call of it.
use rabbitmqtobucketqueue.Common.{Bool, if◌then◌else◌, List, [], ◌∷◌, some, ok}
use rabbitmqtobucketqueue.Coordinator.{Driver}
use rabbitmqtobucketqueue.Coordinator.Memory.{Memory, balance, increment, reset, timer}

-- Whether the interval has passed since the last call, for each call to come.
pub record Timed : Type 0 where
  pub memory : Memory
  pub passed : List Bool

fire_if : Bool → Memory → Memory
fire_if passed c = if passed then timer c else c

-- The memory when the next call is made, and the calls after it.
unfoldable pub arrive : Timed → Timed
unfolding fire_if
arrive s = elim s.passed [ [] ↦ s | b ∷ bs ↦ record { memory = fire_if b s.memory; passed = bs } ]

-- `shutdown` is inherited, and does nothing.
unfoldable pub memory_driver : (E : Type 0) → Driver E Timed
unfolding arrive balance increment reset timer
memory_driver E = record {
  balance = λ s. (ok (some (balance (arrive s).memory)), arrive s);
  increment = λ n s. (ok tt, record (arrive s) { memory = increment n (arrive s).memory });
  reset = λ s. (ok tt, record (arrive s) { memory = reset (arrive s).memory });
  shutdown = λ s. (ok tt, arrive s);
}
