-- ===== src/Bucket/Boot/Configured.antt =====
-- From a configuration as it is written to a consumer that has booted: the options that `#doBoot`
-- reads are those of the value that the validation has accepted.
use rabbitmqtobucketqueue.Common.{
  ℕ, true, false, ◌≤◌, ◌≡◌, ◌⊎◌, refl, Bool, if◌then◌else◌, Option, none, some, List, [], ◌∷◌, ◌∙◌,
  ap, Result, ok, err, inl, inr, arith, Unit₀,
}
use rabbitmqtobucketqueue.Common.Int.{pos}
use rabbitmqtobucketqueue.Coordinator.{Driver}
use rabbitmqtobucketqueue.Validation.{
  Value, channel, confirm_channel, coordinator_driver, instance_of, null, integer, prop, is_truthy,
  is_function, is_the_text, ValidateJs,
}
use rabbitmqtobucketqueue.Validation.Consumer.{
  name_of, object_of, default_options, logger_overrides, ValidationError, read_options,
}
use rabbitmqtobucketqueue.Validation.Consumer.Shape.{NullOr, Accepted}
use rabbitmqtobucketqueue.Validation.Consumer.Accepted.{read_options-Accepted}
use rabbitmqtobucketqueue.Bucket.Defs.{Failure, Item, DeserializedMessage, Channel, Env, Bucket}
use rabbitmqtobucketqueue.Bucket.Tick.{rounds}
use rabbitmqtobucketqueue.Bucket.Boot.{
  Amqp, Choice, named, database, memory, mqtt, redis, lite, Config, Initialize, configure, do_boot,
}
use rabbitmqtobucketqueue.Bucket.Boot as Boot
use rabbitmqtobucketqueue.Bucket.Boot.Started.{do_boot-ok}
use rabbitmqtobucketqueue.Bucket.Settle.Never.{handled, rounds-never}

-- The number that the code computes with: `Math.round(null)` and `null - total` take null for 0.
abbrev pub number_of : Value → ℕ
number_of (integer (pos n)) = n
number_of _ = 0

-- The objects and functions that a configuration holds.
pub record Supplied (W C T : Type 0) : Type 0 where
  pub channel : Channel W
  pub coordinator : Driver Failure C × C
  -- What the calls of a coordinator that is undefined give.
  pub no_coordinator : Driver Failure C × C
  pub on_spill : List (DeserializedMessage T) → W → Result Failure Unit₀ × W
  pub on_item : Item T → W → Result Failure Unit₀ × W
  pub validate_item : Item T → W → Result Failure Bool × W
  pub deserialize_item : List ℕ → W → Result Failure T × W

-- A property that is tested with `'function' === typeof`.
abbrev pub given : {A : Type 0} → Value → A → Option A
given v f = if is_function v then some f else none

-- `rmqChannel instanceof Channel`, of which the channels that confirm are a subclass.
abbrev pub is_channel : Value → Bool
is_channel (instance_of channel keys f) = true
is_channel (instance_of confirm_channel keys f) = true
is_channel _ = false

-- `coordinator instanceof CoordinatorDriverBase`
abbrev pub is_driver : Value → Bool
is_driver (instance_of coordinator_driver keys f) = true
is_driver _ = false

abbrev pub provided : {C : Type 0} → Driver Failure C × C → Choice C
provided (driver, c) = Boot.instance_of driver c

module _ {W C T : Type 0} where
  -- The option `coordinator`: an instance, or a name that the `switch` has a case for. For anything
  -- else `#coordinator` stays undefined.
  unfoldable pub chosen : Supplied W C T → Value → Choice C
  chosen h v =
      if is_driver v
      then provided h.coordinator
      else if is_the_text "database" v
      then named database
      else if is_the_text "memory" v
      then named memory
      else if is_the_text "mqtt" v
      then named mqtt
      else if is_the_text "redis" v
      then named redis
      else if is_the_text "lite" v
      then named lite
      else provided h.no_coordinator

  -- The options, as `#doBoot` reads them.
  unfoldable pub configured : Supplied W C T → Value → Config W C T
  unfolding chosen
  configured h w = record {
    queue = name_of (prop "queue" w);
    rmq_channel = if is_channel (prop "rmqChannel" w) then some h.channel else none;
    rmq_queue_type = name_of (prop "rmqQueueType" w);
    coordinator = chosen h (prop "coordinator" w);
    interval = number_of (prop "interval" w);
    max_batch = number_of (prop "maxBatch" w);
    chunk_size = number_of (prop "chunkSize" w);
    autostart = is_truthy (prop "autostart" w);
    on_spill = given (prop "onSpill" w) h.on_spill;
    on_item = given (prop "onItem" w) h.on_item;
    validate_item = given (prop "validateItem" w) h.validate_item;
    deserialize_item = given (prop "deserializeItem" w) h.deserialize_item;
    discard_on_deserialize_error = is_truthy (prop "discardOnDeserializeError" w);
    discard_on_validation_error = is_truthy (prop "discardOnValidationError" w);
    discard_on_invalid = is_truthy (prop "discardOnInvalid" w);
  }

number-size :
    (v : Value)
    → NullOr (λ n. (1 ≤ n) × (n ≤ 1000000)) v
    → ((v ≡ null) × (number_of v ≡ 0)) ⊎ ((1 ≤ number_of v) × (number_of v ≤ 1000000))
number-size v (inl e) = inl (e, rw e refl)
number-size v (inr (n, e, range)) = inr (rw e range)

-- What the promise of `initialize` rejects with.
pub data InitializeError : Type 0 where
  invalid : ValidationError → InitializeError
  failed : Failure → InitializeError

-- The options that are read, from the configuration over the defaults.
abbrev pub merged : (List Value → Value) → Value → Value
merged merge config = merge (object_of [] ∷ default_options ∷ config ∷ logger_overrides config ∷ [])

module _ {W C T : Type 0} (js : ValidateJs) (merge : List Value → Value) (amqp : Amqp W)
    (initialize_driver : Initialize W C) (h : Supplied W C T) where
  abbrev pub booted :
      Result Failure (Env W C T × (W → Bucket W C T)) × W
      → Result InitializeError (Env W C T × (W → Bucket W C T)) × W
  booted (ok r, u) = (ok r, u)
  booted (err e, u) = (err (failed e), u)

  abbrev pub boot_read :
      Result ValidationError Value → W → Result InitializeError (Env W C T × (W → Bucket W C T)) × W
  boot_read (err e) u = (err (invalid e), u)
  boot_read (ok w) u = booted (do_boot amqp initialize_driver (configured h w) u)

  -- The static `initialize`: `#doBoot` from the beginning, whose error it throws on.
  unfoldable pub initialize :
      Value → W → Result InitializeError (Env W C T × (W → Bucket W C T)) × W
  initialize config u = boot_read (read_options js merge config) u

  boot_read-ok :
      (r : Result ValidationError Value) (u u' : W) (env : Env W C T) (make : W → Bucket W C T)
      → boot_read r u ≡ (ok (env, make), u')
      → (w : Value) × (r ≡ ok w)
        × (do_boot amqp initialize_driver (configured h w) u ≡ (ok (env, make), u'))
  boot_read-ok (err e) u u' env make i = absurd (ground (arith, i))
  boot_read-ok (ok w) u u' env make i =
      (w, refl, of (do_boot amqp initialize_driver (configured h w) u) i)
    where
      of :
          (b : Result Failure (Env W C T × (W → Bucket W C T)) × W)
          → booted b ≡ (ok (env, make), u')
          → b ≡ (ok (env, make), u')
      of (ok r, v) i = ground (arith, i)
      of (err e, v) i = absurd (ground (arith, i))

  module _ (config : Value) (u u' : W) (env : Env W C T) (make : W → Bucket W C T)
      (made : initialize config u ≡ (ok (env, make), u')) where
    -- The options of a consumer that is given are those of an accepted configuration.
    options-Accepted :
        (env.options ≡ configure (configured h (merged merge config)))
        × Accepted (merged merge config)
    unfolding initialize
    options-Accepted =
        let (w, read, boots) = boot_read-ok (read_options js merge config) u u' env make made in
        let (same, _, _, valid) = read_options-Accepted js merge config w read in
        let (c, _, e) = do_boot-ok amqp initialize_driver (configured h w) u u' env make boots in
        (e ∙ ap (λ x. configure (configured h x)) same, rw (← same) valid)

    -- The chunk size of a consumer that has booted.
    options-size :
        ((prop "chunkSize" (merged merge config) ≡ null) × (env.options.chunk_size ≡ 0))
        ⊎ ((1 ≤ env.options.chunk_size) × (env.options.chunk_size ≤ 1000000))
    options-size =
        let (same, valid) = options-Accepted in
        rw same (
          unfold configure configured in
          number-size (prop "chunkSize" (merged merge config)) valid.chunk_size)

    -- A configuration whose chunk size is null, if it makes a consumer, makes one that, over any
    -- number of rounds of its loop, never acks, nacks or counts anything, whatever it takes from the
    -- queue.
    pub null_chunk-never :
        prop "chunkSize" (merged merge config) ≡ null
        → (n : ℕ) (s : Bucket W C T) → handled (rounds env n s).trace ≡ handled s.trace
    null_chunk-never e n s =
        let (same, _) = options-Accepted in
        rounds-never env (rw same (unfold configure configured in rw e refl))
          (rw same (unfold configure in refl)) (rw same (unfold configure in refl)) n s
