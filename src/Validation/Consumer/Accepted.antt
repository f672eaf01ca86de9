-- ===== src/Validation/Consumer/Accepted.antt =====
-- What a configuration of the consumer that is accepted is.
use rabbitmqtobucketqueue.Common.{
  ℕ, ◌≤◌, ◌<◌, ◌≡◌, refl, sym, ◌∙◌, Bool, true, false, not, ◌||◌, if◌then◌else◌, some, List, [],
  ◌∷◌, String, Result, ok, err, Bool-cases, inl, inr, arith,
}
use rabbitmqtobucketqueue.Validation.{
  passes_rules, Rule, Value, integer, in_range, text, prop, is_object, is_text, is_boolean, exists,
  type_is, custom, passes, no_errors, ValidateJs,
}
use rabbitmqtobucketqueue.Common.Int.{pos}
use rabbitmqtobucketqueue.Validation.Types.{queue, coordinator}
use rabbitmqtobucketqueue.Validation.Registry.{types}
use rabbitmqtobucketqueue.Validation.Rules.{
  holds-none, text-named, rules_of, passes-rules_of, integer-InRange, custom-after-type,
  passes_rules-tail, validate-passes,
}
use rabbitmqtobucketqueue.Validation.Consumer.Shape.{
  Accepted, queue-IsChannel, coordinator-IsCoordinator, InRange-NullOr, lite-unknown,
}
use rabbitmqtobucketqueue.Validation.Consumer.{
  object_of, default_options, logger_overrides, read_options, ValidationError, constraints,
  interval_range, max_batch_range, chunk_size_range, both_given,
  validate_and_sanitize_configuration,
}

-- The ranges of the three numbers.
interval-range : (n : ℕ) → in_range interval_range (integer (pos n)) ≡ true → 100 < n
interval-range n h = ground (arith, h)

max_batch-range :
    (n : ℕ) → in_range max_batch_range (integer (pos n)) ≡ true → (1 ≤ n) × (n ≤ 100000)
max_batch-range n h = (ground (arith, h), ground (arith, h))

chunk_size-range :
    (n : ℕ) → in_range chunk_size_range (integer (pos n)) ≡ true → (1 ≤ n) × (n ≤ 1000000)
chunk_size-range n h = (ground (arith, h), ground (arith, h))

-- Two tests before a result that is an `ok` all the same.
past_tests :
    (a b c : Bool) (r : Result ValidationError Value) (e₁ e₂ : ValidationError) {w : Value}
    → (if not a then err e₁ else if not b || not c then err e₂ else r) ≡ ok w
    → (a ≡ true) × (b ≡ true) × (c ≡ true) × (r ≡ ok w)
past_tests true true true r e₁ e₂ h = (refl, refl, refl, h)
past_tests false b c r e₁ e₂ h = absurd (ground (arith, h))
past_tests true false c r e₁ e₂ h = absurd (ground (arith, h))
past_tests true true false r e₁ e₂ h = absurd (ground (arith, h))

module _ (js : ValidateJs) where
  pub sanitized :
      (v w : Value)
      → validate_and_sanitize_configuration js v ≡ ok w
      → (v ≡ w) × (passes (types js) (constraints v) v ≡ true) × (both_given v ≡ false)
  unfolding validate_and_sanitize_configuration
  sanitized v w h = elim (Bool-cases (is_object v)) [
    | inr e ↦ absurd (ground (arith, h, e))
    | inl e ↦ elim (Bool-cases (no_errors (js.validate (types js) (constraints v) v))) [
      | inr e' ↦ absurd (ground (arith, h, e, e'))
      | inl e' ↦ elim (Bool-cases (both_given v)) [
        | inl e'' ↦ absurd (ground (arith, h, e, e', e''))
        | inr e'' ↦
            (ground (arith, h, e, e', e''), validate-passes js (types js) (constraints v) v e', e'')
      ]
    ]
  ]

  pub accepted-is_object :
      (v w : Value) → validate_and_sanitize_configuration js v ≡ ok w → is_object v ≡ true
  unfolding validate_and_sanitize_configuration
  accepted-is_object v w h = elim (Bool-cases (is_object v)) [
    | inl e ↦ e
    | inr e ↦ absurd (ground (arith, h, e))
  ]

  pub passes-accepted :
      (v : Value)
      → is_object v ≡ true
      → passes (types js) (constraints v) v ≡ true
      → both_given v ≡ false
      → validate_and_sanitize_configuration js v ≡ ok v
  unfolding validate_and_sanitize_configuration
  passes-accepted v o p one = rw (o, js.validate_lem (types js) (constraints v) v ∙ p, one) refl

  -- The rules of one attribute.
  attribute :
      (key : String) (v : Value) {rs : List Rule}
      → passes (types js) (constraints v) v ≡ true
      → rules_of key (constraints v) ≡ some rs
      → passes_rules (types js) rs (prop key v) ≡ true
  attribute key v h e = passes-rules_of (types js) key (constraints v) v e h

  -- A configuration that the validation accepts is given back as it is, and is as the record says.
  pub validate_and_sanitize_configuration-Accepted :
      (v w : Value) → validate_and_sanitize_configuration js v ≡ ok w → (v ≡ w) × Accepted v
  unfolding types
  validate_and_sanitize_configuration-Accepted v w h =
      let (same, passed, one) = sanitized v w h in
      (
        same,
        record {
          queue_named = text-named (types js) (prop "queue" v) (attribute "queue" v passed refl);
          channel_given = queue-IsChannel (prop "rmqChannel" v) (
              holds-none (queue (prop "rmqChannel" v)) (
                custom-after-type (types js) "queue" "queue" (prop "rmqChannel" v)
                  (attribute "rmqChannel" v passed refl)));
          coordinator_known = coordinator-IsCoordinator (prop "coordinator" v) (
              holds-none (coordinator (prop "coordinator" v)) (
                custom-after-type (types js) "rmqCoordinatorType" "rmqCoordinatorType"
                  (prop "coordinator" v)
                  (passes_rules-tail (types js) exists
                    (type_is "rmqCoordinatorType" ∷ custom "rmqCoordinatorType" ∷ [])
                    (prop "coordinator" v) (attribute "coordinator" v passed refl))));
          interval = InRange-NullOr _ interval_range (prop "interval" v) interval-range (
              integer-InRange (types js) interval_range (prop "interval" v) refl
                (attribute "interval" v passed refl));
          max_batch = InRange-NullOr _ max_batch_range (prop "maxBatch" v) max_batch-range (
              integer-InRange (types js) max_batch_range (prop "maxBatch" v) refl
                (attribute "maxBatch" v passed refl));
          chunk_size = InRange-NullOr _ chunk_size_range (prop "chunkSize" v) chunk_size-range (
              integer-InRange (types js) chunk_size_range (prop "chunkSize" v) refl
                (attribute "chunkSize" v passed refl));
          one_handler = one;
        },
      )

  -- When the options are read, they are the configuration over the defaults, with the logger's own
  -- under it. The configuration has a queue's name and `debug`. Of the merged options, the queue has
  -- a name, the channel of RabbitMQ is the caller's own, the coordinator is a driver or the name of
  -- one, and not both handlers are set. The interval, the quota and the chunk size are integers above
  -- 100, from 1 to 100,000 and from 1 to 1,000,000; or null, which the rules for integers do not mind.
  pub read_options-Accepted :
      (merge : List Value → Value) (config w : Value)
      → read_options js merge config ≡ ok w
      → (w ≡ merge (object_of [] ∷ default_options ∷ config ∷ logger_overrides config ∷ []))
        × (is_text (prop "queue" config) ≡ true)
        × (is_boolean (prop "debug" config) ≡ true)
        × Accepted w
  unfolding read_options
  read_options-Accepted merge config w h =
      let merged = merge (object_of [] ∷ default_options ∷ config ∷ logger_overrides config ∷ []) in
      let (e, named, flagged, valid) =
        past_tests (is_object config) (is_text (prop "queue" config))
          (is_boolean (prop "debug" config)) (validate_and_sanitize_configuration js merged) _ _
          h in
      let (same, accepted) = validate_and_sanitize_configuration-Accepted merged w valid in
      (sym same, named, flagged, rw (← same) accepted)

  -- A configuration that names the coordinator `lite` is refused, although the boot has a case
  -- for it and the rules one for its options.
  pub lite-refused :
      (v : Value)
      → prop "coordinator" v ≡ text "lite"
      → (e : ValidationError) × (validate_and_sanitize_configuration js v ≡ err e)
  lite-refused v named = of (validate_and_sanitize_configuration js v) refl
    where
      of :
          (r : Result ValidationError Value)
          → validate_and_sanitize_configuration js v ≡ r
          → (e : ValidationError) × (validate_and_sanitize_configuration js v ≡ err e)
      of (err e) h = (e, h)
      of (ok w) h =
          let known =
            Accepted.coordinator_known (validate_and_sanitize_configuration-Accepted v w h).1 in
          absurd (ground (arith, lite-unknown (prop "coordinator" v) known, named))
