-- ===== src/Bucket/Rate/Redis.antt =====
-- The limit for the coordinator that keeps its count in Redis.
use rabbitmqtobucketqueue.Common.{ℕ, ◌≤◌, ◌<◌, ◌≡◌, Bool, String}
use rabbitmqtobucketqueue.Coordinator.Shared.{Timed, shared_driver}
use rabbitmqtobucketqueue.Coordinator.Redis.{Redis}
use rabbitmqtobucketqueue.Coordinator.Redis.Timed.{
  Held, Foreign, counted, quota, redis_store, redis-Counts,
}
use rabbitmqtobucketqueue.Bucket.Defs.{Env, Bucket, Failure}
use rabbitmqtobucketqueue.Bucket.Tick.{rounds}
use rabbitmqtobucketqueue.Bucket.Rate.Shared.{rounds-shared}

module _ (mine : String → Bool) {D : Type 0} (redis : Redis D) (failure : Failure)
    (refused : String → Failure) where
  -- A consumer with the Redis coordinator and a chunk size of at least 1 that starts within its
  -- quota stays within it, over any number of rounds: at no time has it counted more than `maxBatch`
  -- itself in keys that have not expired, also if keys expire while the balance is read, and it is
  -- NaN. Any number of other instances increment and reset between its calls; time passes between
  -- them and while they last; Redis fails to answer some of them; RabbitMQ and the user's functions
  -- do whatever they do.
  pub rounds-redis :
      {W T : Type 0} (env : Env W (Timed mine (Held D) (Foreign mine)) T)
      → env.driver ≡ shared_driver (redis_store mine redis failure refused)
      → 0 < env.options.chunk_size
      → (n : ℕ) (s : Bucket W (Timed mine (Held D) (Foreign mine)) T)
      → counted mine redis s.coordinator.now s.coordinator.store
        ≤ quota mine redis s.coordinator.store
      → let c = (rounds env n s).coordinator in
        (counted mine redis c.now c.store ≤ quota mine redis c.store)
        × (quota mine redis c.store ≡ quota mine redis s.coordinator.store)
  rounds-redis env e size n s h =
      rounds-shared (redis_store mine redis failure refused) (counted mine redis) (quota mine redis)
        (redis-Counts mine redis failure refused) env e size n s h
