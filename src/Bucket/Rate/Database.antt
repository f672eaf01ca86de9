-- ===== src/Bucket/Rate/Database.antt =====
-- The limit for the coordinator that keeps its count in a database.
use rabbitmqtobucketqueue.Common.{ℕ, ◌≤◌, ◌<◌, ◌≡◌, Bool, String}
use rabbitmqtobucketqueue.Coordinator.Shared.{Timed, shared_driver}
use rabbitmqtobucketqueue.Coordinator.Database.{Sql}
use rabbitmqtobucketqueue.Coordinator.Database.Timed.{
  Held, Foreign, counted, quota, database_store, database-Counts,
}
use rabbitmqtobucketqueue.Bucket.Defs.{Env, Bucket, Failure}
use rabbitmqtobucketqueue.Bucket.Tick.{rounds}
use rabbitmqtobucketqueue.Bucket.Rate.Shared.{rounds-shared}

module _ (mine : String → Bool) {D : Type 0} (sql : Sql D) (failure : Failure) where
  -- A consumer with the database coordinator and a chunk size of at least 1 that starts within its
  -- quota stays within it, over any number of rounds: at no time has it counted more than `maxBatch`
  -- itself in rows that have not expired. It shares the table with any number of other instances,
  -- which insert rows, reset and declutter between any of its calls; time passes between them and
  -- while they last; the database fails to answer some of them; RabbitMQ and the user's functions do
  -- whatever they do.
  pub rounds-database :
      {W T : Type 0} (env : Env W (Timed mine (Held D) (Foreign mine)) T)
      → env.driver ≡ shared_driver (database_store mine sql failure)
      → 0 < env.options.chunk_size
      → (n : ℕ) (s : Bucket W (Timed mine (Held D) (Foreign mine)) T)
      → counted mine sql s.coordinator.now s.coordinator.store ≤ quota mine sql s.coordinator.store
      → let c = (rounds env n s).coordinator in
        (counted mine sql c.now c.store ≤ quota mine sql c.store)
        × (quota mine sql c.store ≡ quota mine sql s.coordinator.store)
  rounds-database env e size n s h =
      rounds-shared (database_store mine sql failure) (counted mine sql) (quota mine sql)
        (database-Counts mine sql failure) env e size n s h
