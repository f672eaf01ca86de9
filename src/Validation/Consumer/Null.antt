-- ===== src/Validation/Consumer/Null.antt =====
-- A configuration of the consumer in which a number is null.
use rabbitmqtobucketqueue.Common.{
  and-parts, ◌≡◌, refl, ap, ◌∙◌, Bool, true, false, not, ◌&&◌, ◌||◌, if◌then◌else◌, [], ◌∷◌, String,
  str_eq, ok, Bool-cases, inl, inr, arith,
}
use rabbitmqtobucketqueue.Validation.{
  Value, undefined, null, fraction, boolean, integer, text, function, array, instance_of, object,
  prop, is_object, Constraints, Registered, passes, passes_rules, ValidateJs,
}
use rabbitmqtobucketqueue.Validation.Registry.{types}
use rabbitmqtobucketqueue.Validation.Consumer.{
  constraints, both_given, validate_and_sanitize_configuration,
}
use rabbitmqtobucketqueue.Validation.Consumer.Accepted.{
  sanitized, accepted-is_object, passes-accepted,
}

abbrev pub put_null : String → (String → Value) → String → Value
put_null key f k = if str_eq key k then null else f k

-- The value with null for one property.
abbrev pub with_null : String → Value → Value
with_null key (array f) = array (put_null key f)
with_null key (instance_of c keys f) = instance_of c keys (put_null key f)
with_null key (object n f) = object n (put_null key f)
with_null key v = v

-- The numbers of a configuration.
pub data Number : Type 0 where
  interval max_batch chunk_size : Number

abbrev pub key_of : Number → String
key_of interval = "interval"
key_of max_batch = "maxBatch"
key_of chunk_size = "chunkSize"

prop-with_null :
    (key k : String) (v : Value)
    → is_object v ≡ true
    → prop k (with_null key v) ≡ (if str_eq key k then null else prop k v)
prop-with_null key k (array f) h = refl
prop-with_null key k (instance_of c keys f) h = refl
prop-with_null key k (object n f) h = refl
prop-with_null key k _ h = absurd (ground (arith, h))

is_object-with_null : (key : String) (v : Value) → is_object (with_null key v) ≡ is_object v
is_object-with_null key (array f) = refl
is_object-with_null key (instance_of c keys f) = refl
is_object-with_null key (object n f) = refl
is_object-with_null key undefined = refl
is_object-with_null key null = refl
is_object-with_null key fraction = refl
is_object-with_null key (boolean b) = refl
is_object-with_null key (integer n) = refl
is_object-with_null key (text t) = refl
is_object-with_null key (function p) = refl

-- Whether the rules of an attribute do not mind null.
abbrev allows_null : Registered → String → Constraints → Bool
allows_null types key [] = true
allows_null types key ((k, rs) ∷ cs) =
    (not (str_eq key k) || passes_rules types rs null) && allows_null types key cs

passes-with_null :
    (types : Registered) (key : String) (cs : Constraints) (v : Value)
    → is_object v ≡ true
    → allows_null types key cs ≡ true
    → passes types cs v ≡ true
    → passes types cs (with_null key v) ≡ true
passes-with_null types key [] v h a p = refl
passes-with_null types key ((k, rs) ∷ cs) v h a p =
    let (here, later) = and-parts (passes_rules types rs (prop k v)) (passes types cs v) p in
    let (a_here, a_later) =
      and-parts (not (str_eq key k) || passes_rules types rs null) (allows_null types key cs) a in
    let rest = passes-with_null types key cs v h a_later later in
    let same = prop-with_null key k v h in
    elim (Bool-cases (str_eq key k)) [
      | inl e ↦
          let now : prop k (with_null key v) ≡ null = ground (arith, e, same) in
          rw (now) (ground (arith, a_here, e, rest))
      | inr e ↦
          let now : prop k (with_null key v) ≡ prop k v = ground (arith, e, same) in
          rw (now) (ground (arith, here, rest))
    ]

-- A property that the rules of the others do not depend on.
record Apart (key : String) : Type 0 where
  channel : str_eq key "rmqChannel" ≡ false
  coordinator : str_eq key "coordinator" ≡ false
  on_spill : str_eq key "onSpill" ≡ false
  on_item : str_eq key "onItem" ≡ false

key_of-Apart : (n : Number) → Apart (key_of n)
key_of-Apart interval = record {
  channel = refl;
  coordinator = refl;
  on_spill = refl;
  on_item = refl;
}
key_of-Apart max_batch = record {
  channel = refl;
  coordinator = refl;
  on_spill = refl;
  on_item = refl;
}
key_of-Apart chunk_size = record {
  channel = refl;
  coordinator = refl;
  on_spill = refl;
  on_item = refl;
}

constraints-with_null :
    (key : String) (v : Value)
    → Apart key
    → is_object v ≡ true
    → (constraints (with_null key v) ≡ constraints v)
      × (both_given (with_null key v) ≡ both_given v)
constraints-with_null key (array f) a h =
    (rw (a.channel, a.coordinator) refl, rw (a.on_spill, a.on_item) refl)
constraints-with_null key (instance_of c keys f) a h =
    (rw (a.channel, a.coordinator) refl, rw (a.on_spill, a.on_item) refl)
constraints-with_null key (object n f) a h =
    (rw (a.channel, a.coordinator) refl, rw (a.on_spill, a.on_item) refl)
constraints-with_null key _ a h = absurd (ground (arith, h))

module _ (js : ValidateJs) where
  allows-constraints :
      (n : Number) (v : Value) → allows_null (types js) (key_of n) (constraints v) ≡ true
  allows-constraints interval v = refl
  allows-constraints max_batch v = refl
  allows-constraints chunk_size v = refl

  -- A configuration that is accepted is still accepted when its interval, its quota or its chunk
  -- size is null.
  pub validate_and_sanitize_configuration-with_null :
      (n : Number) (v w : Value)
      → validate_and_sanitize_configuration js v ≡ ok w
      → validate_and_sanitize_configuration js (with_null (key_of n) v)
        ≡ ok (with_null (key_of n) v)
  validate_and_sanitize_configuration-with_null n v w h =
      let (same, passed, one) = sanitized js v w h in
      let object_given = accepted-is_object js v w h in
      let (cs, handlers) = constraints-with_null (key_of n) v (key_of-Apart n) object_given in
      let passed_null =
        passes-with_null (types js) (key_of n) (constraints v) v object_given
          (allows-constraints n v) passed in
      passes-accepted js (with_null (key_of n) v) (is_object-with_null (key_of n) v ∙ object_given)
        (ap (λ c. passes (types js) c (with_null (key_of n) v)) cs ∙ passed_null) (handlers ∙ one)
