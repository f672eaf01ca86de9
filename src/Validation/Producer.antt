-- ===== src/Validation/Producer.antt =====
-- The validation of the producer's configuration: `#validateAndSanitizeConfiguration` of
-- src/ToRabbitMQBucketQueue.ts, and the beginning of its `#doBoot`.
use rabbitmqtobucketqueue.Common.{
  and-parts, ◌≡◌, refl, sym, ◌∙◌, drop, true, not, ◌&&◌, ◌||◌, if◌then◌else◌, List, [], ◌∷◌, ◌++◌,
  Result, ok, err, arith,
}
use rabbitmqtobucketqueue.Validation.{
  Value, boolean, text, prop, is_object, is_text, is_boolean, exists, type_is, custom, Constraints,
  Registered, passes, no_errors, ValidateJs,
}
use rabbitmqtobucketqueue.Validation.Registry.{types}
use rabbitmqtobucketqueue.Validation.Consumer
use rabbitmqtobucketqueue.Validation.Consumer.{
  ValidationError, missing, channel_constraints, object_of, number_constraints,
  coordinator_constraints, handler_constraints, constraints, first_errors, name_of,
  logger_overrides,
}
use rabbitmqtobucketqueue.Validation.Consumer.Accepted.{sanitized, accepted-is_object}

-- The constant `DefaultOptions`.
abbrev pub producer_defaults : Value
producer_defaults = object_of (
    ("debug", boolean true)
    ∷ (
      "loggerOptions",
      object_of (
          ("timestamp", boolean true)
          ∷ ("level", text "info")
          ∷ ("enabled", boolean true)
          ∷ (
            "transport",
            object_of (
                ("target", text "pino-pretty")
                ∷ ("options", object_of (("colorize", boolean true) ∷ []))
                ∷ []),
          )
          ∷ []),
    )
    ∷ [])

abbrev pub logger_constraints : Constraints
logger_constraints =
    ("debug", exists ∷ type_is "boolean" ∷ [])
    ∷ ("loggerOptions", exists ∷ type_is "loggerOptions" ∷ custom "loggerOptions" ∷ [])
    ∷ []

-- The rules for the queue and its channel are those of the consumer, word for word.
abbrev pub producer_constraints : Value → Constraints
producer_constraints a = channel_constraints a ++ logger_constraints

module _ (js : ValidateJs) where
  unfoldable pub validate_producer : Value → Result ValidationError Value
  unfolding types
  validate_producer config =
      if not (is_object config)
      then err missing
      else let errors = js.validate (types js) (producer_constraints config) config in
        if not (no_errors errors)
        then err (record { message = "Invalid Configuration"; errors = errors })
        else ok config

  -- `merge` is lodash.merge.
  unfoldable pub read_producer_options : (List Value → Value) → Value → Result ValidationError Value
  unfolding validate_producer
  read_producer_options merge config =
      if not (is_object config)
      then err missing
      else if not (is_text (prop "queue" config)) || not (is_boolean (prop "debug" config))
      then err (record { message = "Invalid configuration object"; errors = first_errors config })
      else validate_producer
          (merge (object_of [] ∷ producer_defaults ∷ config ∷ logger_overrides config ∷ []))

passes-append :
    (registered : Registered) (cs ds : Constraints) (v : Value)
    → passes registered (cs ++ ds) v ≡ (passes registered cs v && passes registered ds v)
passes-append registered [] ds v = refl
passes-append registered ((k, rs) ∷ cs) ds v =
    let rest = passes-append registered cs ds v in ground (arith, rest)

parts :
    (registered : Registered) (cs ds : Constraints) (v : Value)
    → passes registered (cs ++ ds) v ≡ true
    → (passes registered cs v ≡ true) × (passes registered ds v ≡ true)
parts registered cs ds v h =
    and-parts (passes registered cs v) (passes registered ds v)
      (sym (passes-append registered cs ds v) ∙ h)

-- Of five groups of rules, the first and the third.
first-third :
    (registered : Registered) (a b c d e : Constraints) (v : Value)
    → passes registered (a ++ (b ++ ((c ++ d) ++ e))) v ≡ true
    → passes registered (a ++ c) v ≡ true
first-third registered a b c d e v h =
    let (in_a, h₁) = parts registered a (b ++ ((c ++ d) ++ e)) v h in
    let (in_b, h₂) = parts registered b ((c ++ d) ++ e) v h₁ in
    let (in_cd, in_e) = parts registered (c ++ d) e v h₂ in
    let (in_c, in_d) = parts registered c d v in_cd in
    passes-append registered a c v ∙ rw (in_a, in_c) refl

-- The rules for numbers that are not those for the logger.
abbrev other_numbers : Constraints
other_numbers = drop 2 number_constraints

module _ (js : ValidateJs) where
  producer_constraints-passes :
      (v : Value)
      → passes (types js) (constraints v) v ≡ true
      → passes (types js) (producer_constraints v) v ≡ true
  producer_constraints-passes v h =
      first-third (types js) (channel_constraints v) (coordinator_constraints v) logger_constraints
        other_numbers handler_constraints v h

  validate_producer-passes :
      (v : Value)
      → is_object v ≡ true
      → passes (types js) (producer_constraints v) v ≡ true
      → validate_producer js v ≡ ok v
  unfolding validate_producer
  validate_producer-passes v o p =
      rw (o, js.validate_lem (types js) (producer_constraints v) v ∙ p) refl

  -- The producer accepts every configuration that the consumer accepts, and gives it back as it is.
  pub validate_producer-accepted :
      (v w : Value)
      → Consumer.validate_and_sanitize_configuration js v ≡ ok w
      → validate_producer js v ≡ ok w
  validate_producer-accepted v w h =
      let (same, passed, one) = sanitized js v w h in
      rw (← same) (
        validate_producer-passes v (accepted-is_object js v w h)
          (producer_constraints-passes v passed))
