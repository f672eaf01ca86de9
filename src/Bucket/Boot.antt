-- ===== src/Bucket/Boot.antt =====
-- `#doBoot` after the configuration has been merged and validated, and `#getRabbitMQQueue`.
pub mod Started
pub mod Configured
use rabbitmqtobucketqueue.Common.{
  ℕ, Bool, true, false, not, ◌||◌, if◌then◌else◌, Option, none, some, List, [], ◌∷◌, String, str_eq,
  Result, ok, err, Unit₀,
}
use rabbitmqtobucketqueue.Promise.{Call, ◌>>=◌, ◌>>◌, pure}
use rabbitmqtobucketqueue.Coordinator.{Driver}
use rabbitmqtobucketqueue.Bucket.Defs.{
  Failure, Item, DeserializedMessage, Channel, Options, Env, Bucket,
}

-- amqplib.
pub record Amqp (W : Type 0) : Type 0 where
  pub connect : Call W Unit₀
  pub create_channel : Call W (Channel W)
  pub create_confirm_channel : Call W (Channel W)
  pub assert_queue : String → Channel W → Call W Unit₀

-- The drivers that the configuration can name.
pub data Kind : Type 0 where
  database memory mqtt redis lite : Kind

-- The option `coordinator`: an instance, or the name of a driver.
pub data Choice (C : Type 0) : Type 0 where
  instance_of : Driver Failure C → C → Choice C
  named : Kind → Choice C

-- The options that the boot reads; those that name other servers go to `initialize`.
pub record Config (W C T : Type 0) : Type 0 where
  pub queue : String
  pub rmq_channel : Option (Channel W)
  pub rmq_queue_type : String
  pub coordinator : Choice C
  pub interval : ℕ
  pub max_batch : ℕ
  pub chunk_size : ℕ
  pub autostart : Bool
  pub on_spill : Option (List (DeserializedMessage T) → W → Result Failure Unit₀ × W)
  pub on_item : Option (Item T → W → Result Failure Unit₀ × W)
  pub validate_item : Option (Item T → W → Result Failure Bool × W)
  pub deserialize_item : Option (List ℕ → W → Result Failure T × W)
  pub discard_on_deserialize_error : Bool
  pub discard_on_validation_error : Bool
  pub discard_on_invalid : Bool

-- The values that the constraint on `rmqQueueType` allows.
abbrev pub queue_types : List String
queue_types = "queue" ∷ "confirmQueue" ∷ []

abbrev pub is_in : String → List String → Bool
is_in t [] = false
is_in t (x ∷ xs) = str_eq t x || is_in t xs

module _ {W : Type 0} (amqp : Amqp W) where
  unfoldable pub create : String → Call W (Channel W)
  create rmq_queue_type =
      if str_eq rmq_queue_type "confirmChannel"
      then amqp.create_confirm_channel
      else amqp.create_channel

  unfoldable pub get_rabbit_mq_queue : String → String → Call W (Channel W)
  get_rabbit_mq_queue queue rmq_queue_type = do
    amqp.connect
    channel ← create rmq_queue_type
    amqp.assert_queue queue channel
    pure channel

-- The static `initialize` of the driver's class: queue, quota and interval.
abbrev pub Initialize : Type 0 → Type 0 → Type 0
Initialize W C = Kind → String → ℕ → ℕ → Call W (Driver Failure C × C)

abbrev pub is_provided : {A : Type 0} → Option A → Bool
is_provided none = false
is_provided (some _) = true

module _ {W C T : Type 0} where
  -- The fields that the boot sets from the options. It does not set `#validateItem` and
  -- `#deserializeItem`, which stay undefined.
  unfoldable pub configure : Config W C T → Options W T
  configure options = record {
    queue = options.queue;
    max_batch = options.max_batch;
    chunk_size = options.chunk_size;
    discard_on_deserialize_error = options.discard_on_deserialize_error;
    discard_on_validation_error = options.discard_on_validation_error;
    discard_on_invalid = options.discard_on_invalid;
    on_spill = options.on_spill;
    on_item = options.on_item;
    validate_item = none;
    deserialize_item = none;
  }

  -- The other fields; `#booted` and `#immediate` keep their initial values. The connection is the
  -- consumer's own if no channel was provided.
  unfoldable pub start : Config W C T → C → W → Bucket W C T
  start options c w = record {
    booted = false;
    corked = false;
    immediate = false;
    has_connection = not (is_provided options.rmq_channel);
    coordinator = c;
    world = w;
    trace = [];
  }

module _ {W C T : Type 0} (amqp : Amqp W) (initialize : Initialize W C) where
  unfoldable pub take_channel : Config W C T → Call W (Channel W)
  take_channel options = elim options.rmq_channel [
    | some channel ↦ pure channel
    | none ↦ get_rabbit_mq_queue amqp options.queue options.rmq_queue_type
  ]

  unfoldable pub take_coordinator : Config W C T → Call W (Driver Failure C × C)
  take_coordinator options = elim options.coordinator [
    | instance_of driver c ↦ pure (driver, c)
    | named kind ↦ initialize kind options.queue options.max_batch options.interval
  ]

  unfoldable pub finish :
      Config W C T → Channel W → Driver Failure C × C → Call W (Env W C T × (W → Bucket W C T))
  finish options channel (driver, c) =
      pure (
        record { channel = channel; driver = driver; options = configure options },
        start options c,
      )

  unfoldable pub boot_with : Config W C T → Channel W → Call W (Env W C T × (W → Bucket W C T))
  boot_with options channel = do
    coordinator ← take_coordinator options
    finish options channel coordinator

  unfoldable pub do_boot : Config W C T → Call W (Env W C T × (W → Bucket W C T))
  do_boot options = do channel ← take_channel options; boot_with options channel
