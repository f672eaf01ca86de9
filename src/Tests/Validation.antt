-- ===== src/Tests/Validation.antt =====
-- The validation at concrete configurations, with a checker in place of validate.js.
use rabbitmqtobucketqueue.Common.{
  ◌≡◌, refl, Bool, true, false, none, List, [], ◌∷◌, String, Result, ok, err,
}
use rabbitmqtobucketqueue.Common.Int.{pos, negsuc}
use rabbitmqtobucketqueue.Validation.{
  Value, undefined, null, boolean, integer, text, function, instance_of, prop, channel, is_text,
  is_boolean, passes, no_errors, ValidateJs,
}
use rabbitmqtobucketqueue.Validation.Registry.{types}
use rabbitmqtobucketqueue.Validation.Options.{redis_options, mqtt_options}
use rabbitmqtobucketqueue.Validation.Consumer.{
  ValidationError, object_of, read_options, validate_and_sanitize_configuration,
}
use rabbitmqtobucketqueue.Validation.Consumer.Accepted.{read_options-Accepted, lite-refused}
use rabbitmqtobucketqueue.Validation.Consumer.Shape.{Accepted}
use rabbitmqtobucketqueue.Validation.Consumer.Null.{
  with_null, chunk_size, validate_and_sanitize_configuration-with_null,
}
use rabbitmqtobucketqueue.Validation.Ports.{
  options_of-IsPort, redis_options-Reach, IsPort, Reach, mqtt,
}

abbrev pub verdict : Bool → List String
verdict true = []
verdict false = "is invalid" ∷ []

pub no_errors-verdict : (b : Bool) → no_errors (verdict b) ≡ b
no_errors-verdict true = refl
no_errors-verdict false = refl

abbrev pub checker : ValidateJs
checker = record {
  validate = λ registered cs v. verdict (passes registered cs v);
  validate_lem = λ registered cs v. no_errors-verdict (passes registered cs v);
}

abbrev a_channel : Value
a_channel = instance_of channel 1 (λ key. undefined)

-- A configuration with its numbers.
abbrev pub configuration : String → Value → Value → Value → Value
configuration coordinator time quota piece = object_of (
    ("queue", text "orders")
    ∷ ("rmqChannel", a_channel)
    ∷ ("coordinator", text coordinator)
    ∷ ("debug", boolean false)
    ∷ ("loggerOptions", object_of (("level", text "info") ∷ []))
    ∷ ("interval", time)
    ∷ ("maxBatch", quota)
    ∷ ("autostart", boolean true)
    ∷ ("chunkSize", piece)
    ∷ ("discardOnDeserializeError", boolean true)
    ∷ ("discardOnValidationError", boolean true)
    ∷ ("discardOnInvalid", boolean true)
    ∷ ("onItem", function false)
    ∷ [])

abbrev pub good : Value
good = configuration "memory" (integer (pos 1000)) (integer (pos 50)) (integer (pos 100))

abbrev lite_config : Value
lite_config = configuration "lite" (integer (pos 1000)) (integer (pos 50)) (integer (pos 100))

abbrev is_ok : {E A : Type 0} → Result E A → Bool
is_ok (ok a) = true
is_ok (err e) = false

good-ok : validate_and_sanitize_configuration checker good ≡ ok good
unfolding validate_and_sanitize_configuration types
good-ok = refl

-- The bounds of the numbers, and a quota that is a text.
numbers_tested :
    (is_ok (
        validate_and_sanitize_configuration checker
          (configuration "memory" (integer (pos 100)) (integer (pos 50)) (integer (pos 100))))
      ≡ false)
    × (is_ok (
          validate_and_sanitize_configuration checker (
            configuration "memory" (integer (pos 1000)) (integer (pos 100001)) (integer (pos 100))))
        ≡ false)
    × (is_ok (
          validate_and_sanitize_configuration checker
            (configuration "memory" (integer (pos 1000)) (integer (pos 50)) (integer (negsuc 0))))
        ≡ false)
    × (is_ok (
          validate_and_sanitize_configuration checker
            (configuration "memory" (integer (pos 1000)) (text "50") (integer (pos 100))))
        ≡ false)
unfolding validate_and_sanitize_configuration types
numbers_tested = (refl, refl, refl, refl)

-- A merge that keeps the configuration.
abbrev pub third : List Value → Value
third (a ∷ b ∷ c ∷ vs) = c
third _ = undefined

read-ok : read_options checker third good ≡ ok good
unfolding read_options types
read-ok = refl

read_options-Accepted_example :
    (good ≡ good)
    × (is_text (prop "queue" good) ≡ true)
    × (is_boolean (prop "debug" good) ≡ true)
    × Accepted good
read_options-Accepted_example = read_options-Accepted checker third good good read-ok

lite-refused_example :
    (e : ValidationError) × (validate_and_sanitize_configuration checker lite_config ≡ err e)
lite-refused_example = lite-refused checker lite_config refl

validate_and_sanitize_configuration-with_null_example :
    validate_and_sanitize_configuration checker (with_null "chunkSize" good)
    ≡ ok (with_null "chunkSize" good)
validate_and_sanitize_configuration-with_null_example =
    validate_and_sanitize_configuration-with_null checker chunk_size good good good-ok

abbrev an_mqtt : Value
an_mqtt =
    object_of
      (("host", text "localhost") ∷ ("port", integer (pos 1883)) ∷ ("protocol", text "mqtt") ∷ [])

an_mqtt-none : mqtt_options checker an_mqtt ≡ none
unfolding mqtt_options
an_mqtt-none = refl

options_of-IsPort_example :
    ((t : String) × (prop "host" an_mqtt ≡ text t)) × IsPort (prop "port" an_mqtt)
options_of-IsPort_example = options_of-IsPort mqtt checker an_mqtt an_mqtt-none

-- The path is a number, and so is the host, the port a text.
abbrev odd_redis : Value
odd_redis =
    object_of (
      ("host", integer (pos 1))
      ∷ ("port", text "?")
      ∷ ("db", null)
      ∷ ("path", integer (pos 2))
      ∷ [])

odd_redis-none : redis_options checker odd_redis ≡ none
unfolding redis_options
odd_redis-none = refl

redis_options-Reach_example : Reach odd_redis
redis_options-Reach_example = redis_options-Reach checker odd_redis odd_redis-none
