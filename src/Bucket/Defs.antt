-- ===== src/Bucket/Defs.antt =====
-- The state of the consumer, what it calls, and the record of what it has done. Every call of
-- RabbitMQ (amqplib), of the coordinator and of the user's callbacks may change the world `W` or
-- the coordinator's state `C`, and may fail; a failed call is an `err` with the error thrown.
use rabbitmqtobucketqueue.Common.{ℕ, Bool, false, Option, List, ◌∷◌, String, Result, Unit₀}
use rabbitmqtobucketqueue.Coordinator.{Driver, Number}

-- extendables/ReEnquableError.ts, and any other error: whether to re-enqueue the message, and
-- whether it counts toward the balance.
pub data Failure : Type 0 where
  re_enquable : String → Bool → Bool → Failure
  plain : String → Failure

-- `error instanceof ReEnquableError && error.reenqueue === true`
unfoldable pub reenqueue : Failure → Bool
reenqueue (re_enquable message again counts) = again
reenqueue (plain message) = false

-- `error instanceof ReEnquableError && error.countsTowardBalance === true`
unfoldable pub counts_toward_balance : Failure → Bool
counts_toward_balance (re_enquable message again counts) = counts
counts_toward_balance (plain message) = false

-- amqplib's `GetMessage`; the delivery tag identifies a delivery on the channel.
pub record Message : Type 0 where
  pub delivery_tag : ℕ
  pub content : List ℕ

-- An item is what the deserializer made, or the content itself if there is no deserializer.
pub data Item (T : Type 0) : Type 0 where
  raw : List ℕ → Item T
  made : T → Item T

pub record DeserializedMessage (T : Type 0) : Type 0 where
  pub message : Message
  pub item : Item T

-- What may happen while a method awaits: other code corks the consumer (`cork`, `pause`), uncorks it
-- (`uncork`, `resume`) or purges it, a `shutdown`, which begins with a cork and may purge, gets to
-- its end, or RabbitMQ signals an error.
pub data Interrupt : Type 0 where
  corking uncorking purging ending : Interrupt
  failing : Failure → Interrupt

-- The channel of amqplib: `get` gives a message, or nothing if the queue is empty. `meanwhile` says
-- what happens while the consumer awaits.
pub record Channel (W : Type 0) : Type 0 where
  pub get : String → W → Result Failure (Option Message) × W
  pub ack : Message → W → Result Failure Unit₀ × W
  pub nack : Message → Bool → W → Result Failure Unit₀ × W
  pub close : W → Result Failure Unit₀ × W
  pub meanwhile : W → List Interrupt × W

-- What `#doBoot` takes from the configuration and no later code changes.
pub record Options (W T : Type 0) : Type 0 where
  pub queue : String
  pub max_batch : ℕ
  pub chunk_size : ℕ
  pub discard_on_deserialize_error : Bool
  pub discard_on_validation_error : Bool
  pub discard_on_invalid : Bool
  pub on_spill : Option (List (DeserializedMessage T) → W → Result Failure Unit₀ × W)
  pub on_item : Option (Item T → W → Result Failure Unit₀ × W)
  pub validate_item : Option (Item T → W → Result Failure Bool × W)
  pub deserialize_item : Option (List ℕ → W → Result Failure T × W)

-- What the consumer has done: the calls that succeeded, and the events that it emitted.
pub data Entry (T : Type 0) : Type 0 where
  got acked : Message → Entry T
  nacked : Message → Bool → Entry T
  incremented : ℕ → Entry T
  tick_event : Number → Entry T
  spill_event : ℕ → Entry T
  invalid_event : Item T → Message → Entry T
  error_event fatal_event died_event : Failure → Entry T
  corked_event uncorked_event drain_event finish_event : Entry T
  channel_closed connection_closed coordinator_shut_down : Entry T

-- The fields that change while the consumer runs. `immediate` says whether a call of `#tick` is
-- scheduled, `has_connection` whether the consumer opened the connection itself. The
-- trace is the newest entry first.
pub record Bucket (W C T : Type 0) : Type 0 where
  pub booted : Bool
  pub corked : Bool
  pub immediate : Bool
  pub has_connection : Bool
  pub coordinator : C
  pub world : W
  pub trace : List (Entry T)

-- How a part of a handler ends: it goes on, it returns early, or its promise rejects.
pub data Flow : Type 0 where
  next stop : Flow
  rejected : Failure → Flow

-- What the methods call and what they are configured with.
pub record Env (W C T : Type 0) : Type 0 where
  pub channel : Channel W
  pub driver : Driver Failure C
  pub options : Options W T

module _ {W C T : Type 0} where
  -- `#storeAndEmit`, and the record of a call.
  abbrev pub emit : Entry T → Bucket W C T → Bucket W C T
  emit e s = record s { trace = e ∷ s.trace }
