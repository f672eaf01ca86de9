-- ===== src/Validation/Ports.antt =====
-- What the options of a connection are that their type function accepts.
use mathlib.Core.Path.{subst}
use rabbitmqtobucketqueue.Common.{
  ℕ, ◌≤◌, ◌<◌, ◌≡◌, refl, Bool, true, false, not, ◌&&◌, if◌then◌else◌, Option, none, some, List, [],
  ◌∷◌, String, Bool-cases, inl, inr, arith,
}
use rabbitmqtobucketqueue.Common.Int.{pos}
use rabbitmqtobucketqueue.Validation.{
  Value, integer, text, prop, is_object, is_truthy, is_undefined, Rule, presence, type_is,
  Constraints, passes, passes_rules, no_errors, ValidateJs,
}
use rabbitmqtobucketqueue.Validation.Options.{
  above_zero_to, from_zero, path_rules, unless_path, rmq_connection_constraints, mqtt_constraints,
  lite_constraints, redis_constraints, connection_types, report, check_object,
  rmq_connection_options, mqtt_options, lite_options, redis_options,
}
use rabbitmqtobucketqueue.Validation.Rules.{rules_of, passes-rules_of, validate-passes}

-- An integer from 1 to 65,535.
abbrev pub IsPort : Value → Type 0
IsPort v = (n : ℕ) × (v ≡ integer (pos n)) × (0 < n) × (n ≤ 65535)

-- The kinds of connection whose options always have a port, and their type functions.
pub data Connection : Type 0 where
  rabbitmq mqtt lite : Connection

abbrev pub options_of : Connection → ValidateJs → Value → Option String
options_of rabbitmq js v = rmq_connection_options js v
options_of mqtt js v = mqtt_options js v
options_of lite js v = lite_options js v

abbrev pub host_key : Connection → String
host_key rabbitmq = "hostname"
host_key mqtt = "host"
host_key lite = "host"

report-none : (es : List String) → report es ≡ none → no_errors es ≡ true
report-none [] h = refl
report-none (e ∷ es) h = absurd (ground (arith, h))

check_object-passes :
    (js : ValidateJs) (cs : Constraints) (v : Value)
    → check_object js cs v ≡ none
    → (is_object v ≡ true) × (passes connection_types cs v ≡ true)
unfolding check_object
check_object-passes js cs v h = elim (Bool-cases (is_object v)) [
  | inr e ↦ absurd (ground (arith, h, e))
  | inl e ↦
      let reported : report (js.validate connection_types cs v) ≡ none = ground (arith, h, e) in
      (
        e,
        validate-passes js connection_types cs v
            (report-none (js.validate connection_types cs v) reported),
      )
]

check_object-rule :
    (js : ValidateJs) (cs : Constraints) (v : Value) (key : String) {rs : List Rule}
    → check_object js cs v ≡ none
    → rules_of key cs ≡ some rs
    → passes_rules connection_types rs (prop key v) ≡ true
check_object-rule js cs v key h found =
    passes-rules_of connection_types key cs v found (check_object-passes js cs v h).1

text-rules :
    (v : Value)
    → passes_rules connection_types (presence true ∷ type_is "string" ∷ []) v ≡ true
    → (t : String) × (v ≡ text t)
text-rules (text t) h = (t, refl)
text-rules _ h = absurd (ground (arith, h))

rules-text :
    (v : Value)
    → passes_rules connection_types (type_is "string" ∷ presence true ∷ []) v ≡ true
    → (t : String) × (v ≡ text t)
rules-text (text t) h = (t, refl)
rules-text _ h = absurd (ground (arith, h))

IsPort-rules :
    (v : Value)
    → passes_rules connection_types (presence true ∷ type_is "integer" ∷ above_zero_to 65535 ∷ []) v
      ≡ true
    → IsPort v
IsPort-rules (integer (pos n)) h = (n, refl, ground (arith, h), ground (arith, h))
IsPort-rules _ h = absurd (ground (arith, h))

rules-IsPort :
    (v : Value)
    → passes_rules connection_types (type_is "integer" ∷ above_zero_to 65535 ∷ presence true ∷ []) v
      ≡ true
    → IsPort v
rules-IsPort (integer (pos n)) h = (n, refl, ground (arith, h), ground (arith, h))
rules-IsPort _ h = absurd (ground (arith, h))

-- Options for RabbitMQ, MQTT or the coordination server that their type function accepts name a
-- host by a text and a port from 1 to 65,535.
pub options_of-IsPort :
    (c : Connection) (js : ValidateJs) (v : Value)
    → options_of c js v ≡ none
    → ((t : String) × (prop (host_key c) v ≡ text t)) × IsPort (prop "port" v)
unfolding rmq_connection_options mqtt_options lite_options
options_of-IsPort rabbitmq js v h = (
  rules-text (prop "hostname" v)
      (check_object-rule js rmq_connection_constraints v "hostname" h refl),
  rules-IsPort (prop "port" v) (check_object-rule js rmq_connection_constraints v "port" h refl),
)
options_of-IsPort mqtt js v h = (
  text-rules (prop "host" v) (check_object-rule js mqtt_constraints v "host" h refl),
  IsPort-rules (prop "port" v) (check_object-rule js mqtt_constraints v "port" h refl),
)
options_of-IsPort lite js v h = (
  text-rules (prop "host" v) (check_object-rule js lite_constraints v "host" h refl),
  IsPort-rules (prop "port" v) (check_object-rule js lite_constraints v "port" h refl),
)

-- An integer that is not negative.
abbrev IsIndex : Value → Type 0
IsIndex v = (n : ℕ) × (v ≡ integer (pos n))

IsIndex-rules :
    (v : Value)
    → passes_rules connection_types (presence true ∷ type_is "integer" ∷ from_zero ∷ []) v ≡ true
    → IsIndex v
IsIndex-rules (integer (pos n)) h = (n, refl)
IsIndex-rules _ h = absurd (ground (arith, h))

-- How options lead to a Redis server.
pub data Reach (v : Value) : Type 0 where
  by_host :
      (t : String)
      → prop "host" v ≡ text t
      → IsPort (prop "port" v)
      → IsIndex (prop "db" v)
      → Reach v
  by_path : (t : String) → prop "path" v ≡ text t → Reach v
  unchecked :
      is_truthy (prop "path" v) ≡ true
      → is_undefined (prop "host" v) ≡ false
      → is_undefined (prop "port" v) ≡ false
      → is_undefined (prop "db" v) ≡ false
      → Reach v

-- A host, a port and the index of a database are all given.
abbrev all_given : Value → Bool
all_given v =
    not (is_undefined (prop "host" v))
    && not (is_undefined (prop "port" v))
    && not (is_undefined (prop "db" v))

without_path :
    (v x : Value) (rs : List Rule)
    → is_truthy (prop "path" v) ≡ false
    → passes_rules connection_types (unless_path v rs) x ≡ true
    → passes_rules connection_types rs x ≡ true
without_path v x rs e h =
    subst (λ b. passes_rules connection_types (if b then [] else rs) x ≡ true) e h

not_all_given :
    (v : Value)
    → all_given v ≡ false
    → passes_rules connection_types (path_rules v) (prop "path" v) ≡ true
    → passes_rules connection_types (presence true ∷ type_is "string" ∷ []) (prop "path" v) ≡ true
not_all_given v e h =
    subst
      (λ b.
        passes_rules connection_types (if b then [] else presence true ∷ type_is "string" ∷ [])
          (prop "path" v)
        ≡ true)
      e h

given-parts :
    (a b c : Bool) → (not a && not b && not c) ≡ true → (a ≡ false) × (b ≡ false) × (c ≡ false)
given-parts false false false h = (refl, refl, refl)
given-parts true b c h = absurd (ground (arith, h))
given-parts false true c h = absurd (ground (arith, h))
given-parts false false true h = absurd (ground (arith, h))

-- Options for Redis that their type function accepts have a host, a port and the index of a
-- database, or a path that is a text, or all four attributes, of which then none is checked.
pub redis_options-Reach : (js : ValidateJs) (v : Value) → redis_options js v ≡ none → Reach v
unfolding redis_options
redis_options-Reach js v h = elim (Bool-cases (is_truthy (prop "path" v))) [
  | inr e ↦
      let (t, named) =
        text-rules (prop "host" v) (without_path v (prop "host" v) _ e (rule "host" refl)) in
      by_host t named
        (IsPort-rules (prop "port" v) (without_path v (prop "port" v) _ e (rule "port" refl)))
        (IsIndex-rules (prop "db" v) (without_path v (prop "db" v) _ e (rule "db" refl)))
  | inl e ↦ elim (Bool-cases (all_given v)) [
    | inl e' ↦
        let (host, port, db) =
          given-parts (is_undefined (prop "host" v)) (is_undefined (prop "port" v))
            (is_undefined (prop "db" v)) e' in
        unchecked e host port db
    | inr e' ↦
        let (t, named) = text-rules (prop "path" v) (not_all_given v e' (rule "path" refl)) in
        by_path t named
  ]
]
  where
    rule :
        (key : String) {rs : List Rule}
        → rules_of key (redis_constraints v) ≡ some rs
        → passes_rules connection_types rs (prop key v) ≡ true
    rule key found = check_object-rule js (redis_constraints v) v key h found
