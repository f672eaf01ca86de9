-- ===== src/Validation/Consumer.antt =====
-- The validation of the consumer's configuration: `#validateAndSanitizeConfiguration` of
-- src/RabbitMQToBucketQueue.ts, and the beginning of its `#doBoot`.
pub mod Shape
pub mod Accepted
pub mod Null
use rabbitmqtobucketqueue.Common.{
  ℕ, ◌+◌, Bool, true, false, not, ◌&&◌, ◌||◌, if◌then◌else◌, Option, none, some, List, [], ◌∷◌,
  ◌++◌, String, str_eq, Result, ok, err, ◌<>◌,
}
use rabbitmqtobucketqueue.Common.Int.{pos}
use rabbitmqtobucketqueue.Validation.{
  Value, undefined, boolean, integer, text, object, prop, is_object, is_truthy, is_text, is_boolean,
  is_function, is_the_text, Range, Rule, exists, presence, type_is, numericality, inclusion, custom,
  Constraints, no_errors, ValidateJs,
}
use rabbitmqtobucketqueue.Validation.Registry.{types}

-- ValidationError.ts
pub record ValidationError : Type 0 where
  pub message : String
  pub errors : List String

-- An object with the given properties.
abbrev pub get : List (String × Value) → String → Value
get [] key = undefined
get ((k, v) ∷ ps) key = if str_eq k key then v else get ps key

abbrev pub size : List (String × Value) → ℕ
size [] = 0
size (p ∷ ps) = size ps + 1

abbrev pub object_of : List (String × Value) → Value
object_of ps = object (size ps) (get ps)

-- The constant `DefaultOptions`.
abbrev pub default_options : Value
default_options = object_of (
    ("coordinator", text "memory")
    ∷ ("debug", boolean true)
    ∷ (
      "loggerOptions",
      object_of (
          ("timestamp", boolean true)
          ∷ ("level", text "info")
          ∷ ("enabled", boolean true)
          ∷ (
            "transport",
            object_of (
                ("target", text "pino-pretty")
                ∷ ("options", object_of (("colorize", boolean true) ∷ []))
                ∷ []),
          )
          ∷ []),
    )
    ∷ ("interval", integer (pos 1000))
    ∷ ("maxBatch", integer (pos 50))
    ∷ ("autostart", boolean true)
    ∷ ("chunkSize", integer (pos 1000000))
    ∷ ("discardOnDeserializeError", boolean true)
    ∷ ("discardOnValidationError", boolean true)
    ∷ ("discardOnInvalid", boolean true)
    ∷ [])

-- The rules that apply only without a channel, and those for the options of one coordinator.
abbrev pub without_channel : Value → List Rule → List Rule
without_channel attributes rules = if is_truthy (prop "rmqChannel" attributes) then [] else rules

abbrev pub for_coordinator : String → Value → List Rule → List Rule
for_coordinator name attributes rules =
    if is_the_text name (prop "coordinator" attributes) then rules else []

abbrev pub interval_range : Range
interval_range = record { greater_than = some 100; at_least = none; at_most = none }

abbrev pub max_batch_range : Range
max_batch_range = record { greater_than = some 0; at_least = none; at_most = some 100000 }

abbrev pub chunk_size_range : Range
chunk_size_range = record { greater_than = none; at_least = some 1; at_most = some 1000000 }

abbrev pub channel_constraints : Value → Constraints
channel_constraints a =
    ("queue", exists ∷ presence true ∷ type_is "string" ∷ [])
    ∷ ("rmqChannel", type_is "queue" ∷ custom "queue" ∷ [])
    ∷ (
      "rmqQueueType",
      without_channel a (
          exists
          ∷ inclusion ("queue" ∷ "confirmQueue" ∷ [])
          ∷ presence true
          ∷ type_is "string"
          ∷ []),
    )
    ∷ (
      "rmqConnectionOptions",
      without_channel a
          (exists ∷ type_is "rmqConnectionOptions" ∷ custom "rmqConnectionOptions" ∷ []),
    )
    ∷ (
      "rmqQueueOptions",
      without_channel a
          (exists ∷ type_is "rmqQueueOptionsType" ∷ custom "rmqQueueOptionsType" ∷ []),
    )
    ∷ []

abbrev pub coordinator_constraints : Value → Constraints
coordinator_constraints a =
    ("coordinator", exists ∷ type_is "rmqCoordinatorType" ∷ custom "rmqCoordinatorType" ∷ [])
    ∷ (
      "redisOptions",
      for_coordinator "redis" a (exists ∷ type_is "redisOptions" ∷ custom "redisOptions" ∷ []),
    )
    ∷ (
      "mqttOptions",
      for_coordinator "mqtt" a (exists ∷ type_is "mqttOptions" ∷ custom "mqttOptions" ∷ []),
    )
    ∷ (
      "databaseOptions",
      for_coordinator "database" a
          (exists ∷ type_is "databaseOptions" ∷ custom "databaseOptions" ∷ []),
    )
    ∷ (
      "liteOptions",
      for_coordinator "lite" a (exists ∷ type_is "liteOptions" ∷ custom "liteOptions" ∷ []),
    )
    ∷ []

abbrev pub number_constraints : Constraints
number_constraints =
    ("debug", exists ∷ type_is "boolean" ∷ [])
    ∷ ("loggerOptions", exists ∷ type_is "loggerOptions" ∷ custom "loggerOptions" ∷ [])
    ∷ ("interval", exists ∷ type_is "integer" ∷ numericality interval_range ∷ [])
    ∷ ("maxBatch", exists ∷ type_is "integer" ∷ numericality max_batch_range ∷ [])
    ∷ ("autostart", exists ∷ type_is "boolean" ∷ [])
    ∷ ("chunkSize", exists ∷ type_is "integer" ∷ numericality chunk_size_range ∷ [])
    ∷ []

abbrev pub handler_constraints : Constraints
handler_constraints =
    ("discardOnDeserializeError", exists ∷ type_is "boolean" ∷ [])
    ∷ ("discardOnValidationError", exists ∷ type_is "boolean" ∷ [])
    ∷ ("discardOnInvalid", exists ∷ type_is "boolean" ∷ [])
    ∷ ("onSpill", type_is "callable" ∷ [])
    ∷ ("onItem", type_is "callable" ∷ [])
    ∷ []

abbrev pub constraints : Value → Constraints
constraints a =
    channel_constraints a ++ coordinator_constraints a ++ number_constraints ++ handler_constraints

abbrev pub missing : ValidationError
missing = record {
  message = "Missing configuration object";
  errors = "A configuration object is required" ∷ [];
}

abbrev pub both_given : Value → Bool
both_given config = is_function (prop "onSpill" config) && is_function (prop "onItem" config)

abbrev pub both_handlers : ValidationError
both_handlers = record {
  message = "Invalid Configuration";
  errors = "onSpill and onItem cannot be defined at the same time" ∷ [];
}

-- The errors of the first two attributes, whose types are tested before the merge.
abbrev pub first_errors : Value → List String
first_errors config =
    (if is_text (prop "queue" config)
      then []
      else "configuration attribute \"queue\" must be of type string" ∷ [])
    ++ (if is_boolean (prop "debug" config)
        then []
        else "configuration attribute \"debug\" must be of type boolean" ∷ [])

abbrev pub name_of : Value → String
name_of (text t) = t
name_of _ = ""

-- The last argument of `merge`.
abbrev pub logger_overrides : Value → Value
logger_overrides config = object_of (
    (
      "loggerOptions",
      object_of (
          ("enabled", prop "debug" config)
          ∷ ("module", text ("RMQBQ:" <> name_of (prop "queue" config)))
          ∷ []),
    )
    ∷ [])

module _ (js : ValidateJs) where
  -- validate.js throws nothing else than an `Error`, which is thrown on: the code for other things
  -- thrown does not run.
  unfoldable pub validate_and_sanitize_configuration : Value → Result ValidationError Value
  unfolding types
  validate_and_sanitize_configuration config =
      if not (is_object config)
      then err missing
      else let errors = js.validate (types js) (constraints config) config in
        if not (no_errors errors)
        then err (record { message = "Invalid Configuration"; errors = errors })
        else if both_given config
        then err both_handlers
        else ok config

  -- `merge` is lodash.merge.
  unfoldable pub read_options : (List Value → Value) → Value → Result ValidationError Value
  unfolding validate_and_sanitize_configuration
  read_options merge config =
      if not (is_object config)
      then err missing
      else if not (is_text (prop "queue" config)) || not (is_boolean (prop "debug" config))
      then err (record { message = "Invalid configuration object"; errors = first_errors config })
      else validate_and_sanitize_configuration
          (merge (object_of [] ∷ default_options ∷ config ∷ logger_overrides config ∷ []))
