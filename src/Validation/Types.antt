-- ===== src/Validation/Types.antt =====
-- The type functions of src/validation/types that look at a value alone: `none` for `true`.
use rabbitmqtobucketqueue.Common.{
  false, if◌then◌else◌, ltb, Option, none, some, List, [], ◌∷◌, String,
}
use rabbitmqtobucketqueue.Validation.{
  Value, channel, confirm_channel, coordinator_driver, function, instance_of, object, undefined,
  within,
}

-- queue.ts
unfoldable pub queue : Value → Option String
queue (instance_of channel keys f) = none
queue (instance_of confirm_channel keys f) = none
queue _ = some "is not a rabbitmq channel or confirmChannel"

abbrev pub drivers : List String
drivers = "memory" ∷ "redis" ∷ "mqtt" ∷ "database" ∷ []

-- coordinator.ts
unfoldable pub coordinator : Value → Option String
coordinator (instance_of coordinator_driver keys f) = none
coordinator v =
    if within drivers v
    then none
    else some "is not a built-in coordinator driver or a class which extends CoordinatorDriverBase"

-- databaseConnectionOptions.ts and loggerOptions.ts
unfoldable pub database_connection_options : Value → Option String
database_connection_options (object keys f) =
    if ltb 0 keys
    then none
    else some "must be a non-array & non-null object with the client connection parameters"
database_connection_options (instance_of c keys f) =
    if ltb 0 keys
    then none
    else some "must be a non-array & non-null object with the client connection parameters"
database_connection_options _ =
    some "must be a non-array & non-null object with the client connection parameters"

unfoldable pub logger_options : Value → Option String
logger_options (object keys f) =
    if ltb 0 keys
    then none
    else some "must be a non-array & non-null object with the client connection parameters"
logger_options (instance_of c keys f) =
    if ltb 0 keys
    then none
    else some "must be a non-array & non-null object with the client connection parameters"
logger_options _ =
    some "must be a non-array & non-null object with the client connection parameters"

-- callable.ts: a function without a `prototype`.
unfoldable pub callable : Value → Option String
callable (function false) = none
callable _ = some "must be a callable function"

-- undefined.ts
unfoldable pub undefined_type : Value → Option String
undefined_type undefined = none
undefined_type _ = some "must be undefined"
