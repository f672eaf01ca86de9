-- ===== src/Bucket/Rate/Mqtt.antt =====
-- The limit for the coordinator that shares its count over MQTT.
use rabbitmqtobucketqueue.Common.{ℕ, ◌≤◌, ◌<◌, ◌≡◌, Bool, String}
use rabbitmqtobucketqueue.Coordinator.Shared.{Timed, shared_driver}
use rabbitmqtobucketqueue.Coordinator.Mqtt.Timed.{Held, Foreign, counted, quota, mqtt_store}
use rabbitmqtobucketqueue.Coordinator.Mqtt.Own.{mqtt-Counts}
use rabbitmqtobucketqueue.Bucket.Defs.{Env, Bucket, Failure}
use rabbitmqtobucketqueue.Bucket.Tick.{rounds}
use rabbitmqtobucketqueue.Bucket.Rate.Shared.{rounds-shared}

module _ (mine : String → Bool) (failure : String → Failure) where
  -- A consumer with the MQTT coordinator and a chunk size of at least 1 that starts within its quota
  -- stays within it, over any number of rounds: at no time has it stored more than `maxBatch` of its
  -- own counts that have not expired and that no purge has cleared. Between its calls the connection
  -- comes and goes, time passes, and the broker sends any messages of other instances, any messages
  -- with the uuids of counts that a purge has cleared, and the messages of its other counts back;
  -- RabbitMQ and the user's functions do whatever they do.
  pub rounds-mqtt :
      {W T : Type 0} (env : Env W (Timed mine Held Foreign) T)
      → env.driver ≡ shared_driver (mqtt_store mine failure)
      → 0 < env.options.chunk_size
      → (n : ℕ) (s : Bucket W (Timed mine Held Foreign) T)
      → counted mine s.coordinator.now s.coordinator.store ≤ quota mine s.coordinator.store
      → let c = (rounds env n s).coordinator in
        (counted mine c.now c.store ≤ quota mine c.store)
        × (quota mine c.store ≡ quota mine s.coordinator.store)
  rounds-mqtt env e size n s h =
      rounds-shared (mqtt_store mine failure) (counted mine) (quota mine) (mqtt-Counts mine failure)
        env e size n s h
