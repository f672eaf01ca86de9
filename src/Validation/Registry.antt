-- ===== src/Validation/Registry.antt =====
-- src/validation/index.ts: the types and validators that are registered by name.
use rabbitmqtobucketqueue.Common.{if◌then◌else◌, Option, none, String, str_eq}
use rabbitmqtobucketqueue.Validation.{Value, Registered, ValidateJs}
use rabbitmqtobucketqueue.Validation.Types.{
  queue, coordinator, database_connection_options, logger_options, callable, undefined_type,
}
use rabbitmqtobucketqueue.Validation.Options.{
  rmq_connection_options, rmq_queue_options, mqtt_options, lite_options, database_options,
  redis_options,
}

-- `addCustomType` registers a function as a type and as a validator under the same name.
abbrev pub add_custom_type : String → (Value → Option String) → Registered → Registered
add_custom_type name type types n v = if str_eq n name then type v else types n v

-- A name that is not registered.
abbrev pub none_registered : Registered
none_registered n v = none

unfoldable pub types : ValidateJs → Registered
unfolding queue coordinator database_connection_options logger_options callable undefined_type
    rmq_connection_options rmq_queue_options mqtt_options lite_options database_options
    redis_options
types js = add_custom_type "queue" queue (
    add_custom_type "rmqConnectionOptions" (rmq_connection_options js) (
      add_custom_type "rmqQueueOptionsType" (rmq_queue_options js) (
        add_custom_type "rmqCoordinatorType" coordinator (
          add_custom_type "redisOptions" (redis_options js) (
            add_custom_type "mqttOptions" (mqtt_options js) (
              add_custom_type "databaseOptions" (database_options js) (
                add_custom_type "databaseConnectionOptions" database_connection_options (
                  add_custom_type "loggerOptions" logger_options (
                    add_custom_type "callable" callable (
                      add_custom_type "undefined" undefined_type
                        (add_custom_type "liteOptions" (lite_options js) none_registered)))))))))))
