-- ===== src/Bucket/Rate/Memory.antt =====
-- The limit for the coordinator that the default configuration chooses.
use rabbitmqtobucketqueue.Common.{ℕ, ◌≤◌, ◌<◌, ◌≡◌, arith}
use rabbitmqtobucketqueue.Coordinator.Memory.Timed.{Timed, arrive, memory_driver}
use rabbitmqtobucketqueue.Coordinator.Memory.{timer}
use rabbitmqtobucketqueue.Bucket.Defs.{Env, Bucket, Failure}
use rabbitmqtobucketqueue.Bucket.Tick.{rounds}
use rabbitmqtobucketqueue.Bucket.Rate.Untouched.{Meters}
use rabbitmqtobucketqueue.Bucket.Rate.Limit.{rounds_limit}

abbrev pub total : Timed → ℕ
total s = s.memory.total

abbrev pub max_batch : Timed → ℕ
max_batch s = s.memory.max_batch

arrive_less : (s : Timed) → (total (arrive s) ≤ total s) × (max_batch (arrive s) ≡ max_batch s)
unfolding arrive timer
arrive_less s = ground arith

pub memory-Meters : Meters (memory_driver Failure) total max_batch
unfolding memory_driver
memory-Meters = record {
  balance_left = λ s b e. ground (arith, arrive_less s);
  balance_used = λ s. arrive_less s;
  increment_used = λ n s. ground (arith, arrive_less s);
  shutdown_used = λ s. arrive_less s;
  reset_used = λ s. ground (arith, arrive_less s);
}

-- A consumer with the memory coordinator and a chunk size of at least 1 that starts within its
-- quota stays within it, over any number of rounds: at no time is more than `maxBatch` counted
-- since the timer or a purge last reset the count, wherever the timer fires between the calls and a
-- purge comes while a round awaits, and whatever RabbitMQ and the user's functions do. The quota
-- itself does not change.
pub rounds-memory :
    {W T : Type 0} (env : Env W Timed T)
    → env.driver ≡ memory_driver Failure
    → 0 < env.options.chunk_size
    → (n : ℕ) (s : Bucket W Timed T) → total s.coordinator ≤ max_batch s.coordinator
    → let s' = rounds env n s in
      (total s'.coordinator ≤ max_batch s'.coordinator)
      × (max_batch s'.coordinator ≡ max_batch s.coordinator)
rounds-memory env e size n s h = rounds_limit env total max_batch (rw e memory-Meters) size n s h
