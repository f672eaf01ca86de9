-- ===== src/Validation/Options.antt =====
-- The type functions of src/validation/types that check the properties of an object, with their
-- constraints.
use rabbitmqtobucketqueue.Common.{
  ℕ, true, false, not, ◌&&◌, if◌then◌else◌, Option, none, some, List, [], ◌∷◌, String, str_eq, ◌<>◌,
}
use rabbitmqtobucketqueue.Validation.{
  Value, prop, is_object, is_truthy, is_undefined, Rule, presence, type_is, numericality, inclusion,
  custom, Constraints, Registered, ValidateJs,
}
use rabbitmqtobucketqueue.Validation.Types.{database_connection_options}

abbrev pub above_zero : Rule
above_zero = numericality (record { greater_than = some 0; at_least = none; at_most = none })

abbrev pub from_zero : Rule
from_zero = numericality (record { greater_than = none; at_least = some 0; at_most = none })

abbrev pub above_zero_to : ℕ → Rule
above_zero_to n = numericality (record { greater_than = some 0; at_least = none; at_most = some n })

-- rmqConnectionOptions.ts
abbrev pub rmq_connection_constraints : Constraints
rmq_connection_constraints =
    ("protocol", type_is "string" ∷ presence true ∷ [])
    ∷ ("hostname", type_is "string" ∷ presence true ∷ [])
    ∷ ("port", type_is "integer" ∷ above_zero_to 65535 ∷ presence true ∷ [])
    ∷ ("username", type_is "string" ∷ presence false ∷ [])
    ∷ ("password", type_is "string" ∷ presence false ∷ [])
    ∷ ("locale", type_is "string" ∷ presence false ∷ [])
    ∷ ("frameMax", type_is "integer" ∷ from_zero ∷ presence false ∷ [])
    ∷ ("heartbeat", type_is "integer" ∷ from_zero ∷ presence false ∷ [])
    ∷ ("vhost", type_is "string" ∷ presence false ∷ [])
    ∷ []

-- rmqQueueOptions.ts
abbrev pub rmq_queue_constraints : Constraints
rmq_queue_constraints =
    ("exclusive", presence false ∷ type_is "boolean" ∷ [])
    ∷ ("durable", presence false ∷ type_is "boolean" ∷ [])
    ∷ ("autoDelete", presence false ∷ type_is "boolean" ∷ [])
    ∷ ("arguments", presence false ∷ [])
    ∷ ("messageTtl", presence false ∷ type_is "integer" ∷ from_zero ∷ [])
    ∷ ("expires", presence false ∷ type_is "integer" ∷ above_zero ∷ [])
    ∷ ("deadLetterExchange", presence false ∷ type_is "string" ∷ [])
    ∷ ("deadLetterRoutingKey", presence false ∷ type_is "string" ∷ [])
    ∷ ("maxLength", presence false ∷ type_is "integer" ∷ above_zero ∷ [])
    ∷ ("maxPriority", presence false ∷ type_is "integer" ∷ above_zero_to 255 ∷ [])
    ∷ []

-- mqttOptions.ts
abbrev pub mqtt_constraints : Constraints
mqtt_constraints =
    ("host", presence true ∷ type_is "string" ∷ [])
    ∷ ("port", presence true ∷ type_is "integer" ∷ above_zero_to 65535 ∷ [])
    ∷ (
      "protocol",
      presence true
          ∷ type_is "string"
          ∷ inclusion ("mqtt" ∷ "mqtts" ∷ "tcp" ∷ "tls" ∷ "ws" ∷ "wss" ∷ [])
          ∷ [],
    )
    ∷ []

-- liteOptions.ts
abbrev pub lite_constraints : Constraints
lite_constraints =
    ("encryptionKey", presence true ∷ type_is "string" ∷ [])
    ∷ ("path", presence true ∷ type_is "string" ∷ [])
    ∷ ("host", presence true ∷ type_is "string" ∷ [])
    ∷ ("port", presence true ∷ type_is "integer" ∷ above_zero_to 65535 ∷ [])
    ∷ (
      "protocol",
      presence true ∷ type_is "string" ∷ inclusion ("http" ∷ "https" ∷ "ws" ∷ "wss" ∷ []) ∷ [],
    )
    ∷ ("allowInsecure", type_is "boolean" ∷ [])
    ∷ []

-- databaseOptions.ts
abbrev pub database_constraints : Constraints
database_constraints =
    ("table", presence true ∷ type_is "string" ∷ [])
    ∷ (
      "client",
      presence true
          ∷ type_is "string"
          ∷ inclusion ("pg" ∷ "sqlite3" ∷ "mysql" ∷ "mysql2" ∷ "mssql" ∷ "oracledb" ∷ [])
          ∷ [],
    )
    ∷ (
      "connection",
      presence true ∷ type_is "databaseConnectionOptions" ∷ custom "databaseConnectionOptions" ∷ [],
    )
    ∷ []

-- redisOptions.ts: the rules of an attribute depend on the others; `undefined` is no rule.
abbrev pub unless_path : Value → List Rule → List Rule
unless_path attributes rules = if is_truthy (prop "path" attributes) then [] else rules

abbrev pub path_rules : Value → List Rule
path_rules attributes =
    if not (is_undefined (prop "host" attributes))
      && not (is_undefined (prop "port" attributes))
      && not (is_undefined (prop "db" attributes))
    then []
    else presence true ∷ type_is "string" ∷ []

abbrev pub redis_constraints : Value → Constraints
redis_constraints attributes =
    ("host", unless_path attributes (presence true ∷ type_is "string" ∷ []))
    ∷ (
      "port",
      unless_path attributes (presence true ∷ type_is "integer" ∷ above_zero_to 65535 ∷ []),
    )
    ∷ ("db", unless_path attributes (presence true ∷ type_is "integer" ∷ from_zero ∷ []))
    ∷ ("path", path_rules attributes)
    ∷ []

-- The types that the functions register themselves.
abbrev pub connection_types : Registered
connection_types name v =
    if str_eq name "databaseConnectionOptions" then database_connection_options v else none

-- `validatorErrors.join(', ')`
abbrev pub join : List String → String
join [] = ""
join (e ∷ []) = e
join (e ∷ x ∷ es) = e <> ", " <> join (x ∷ es)

abbrev pub report : List String → Option String
report [] = none
report (e ∷ es) = some (join (e ∷ es))

module _ (js : ValidateJs) where
  -- The body that these functions share.
  unfoldable pub check_object : Constraints → Value → Option String
  check_object constraints v =
      if not (is_object v)
      then some "must be an object"
      else report (js.validate connection_types constraints v)

  unfoldable pub rmq_connection_options : Value → Option String
  unfolding check_object
  rmq_connection_options v = check_object rmq_connection_constraints v

  unfoldable pub rmq_queue_options : Value → Option String
  unfolding check_object
  rmq_queue_options v = check_object rmq_queue_constraints v

  unfoldable pub mqtt_options : Value → Option String
  unfolding check_object
  mqtt_options v = check_object mqtt_constraints v

  unfoldable pub lite_options : Value → Option String
  unfolding check_object
  lite_options v = check_object lite_constraints v

  unfoldable pub database_options : Value → Option String
  unfolding check_object
  database_options v = check_object database_constraints v

  unfoldable pub redis_options : Value → Option String
  unfolding check_object
  redis_options v = check_object (redis_constraints v) v
