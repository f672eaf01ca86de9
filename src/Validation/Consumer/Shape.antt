-- ===== src/Validation/Consumer/Shape.antt =====
-- What the attributes of an accepted configuration are, apart from the rules that say so.
use rabbitmqtobucketqueue.Common.{
  ℕ, ◌≡◌, refl, ◌≤◌, ◌<◌, ◌⊎◌, inl, inr, true, false, ◌&&◌, none, String, str_eq, eq_iff,
  Bool-cases, arith,
}
use rabbitmqtobucketqueue.Common.Int.{pos}
use rabbitmqtobucketqueue.Validation.{
  Value, null, integer, text, instance_of, channel, confirm_channel, coordinator_driver, prop,
  is_function, is_the_text, Range, in_range,
}
use rabbitmqtobucketqueue.Validation.Types.{queue, coordinator}
use rabbitmqtobucketqueue.Validation.Rules.{InRange}

-- A channel of RabbitMQ, and what the option `coordinator` may be.
pub data IsChannel : Value → Type 0 where
  plain : (keys : ℕ) (f : String → Value) → IsChannel (instance_of channel keys f)
  confirming : (keys : ℕ) (f : String → Value) → IsChannel (instance_of confirm_channel keys f)

pub data IsCoordinator : Value → Type 0 where
  driver : (keys : ℕ) (f : String → Value) → IsCoordinator (instance_of coordinator_driver keys f)
  memory : IsCoordinator (text "memory")
  redis : IsCoordinator (text "redis")
  mqtt : IsCoordinator (text "mqtt")
  database : IsCoordinator (text "database")

-- Null, or a natural number with a property.
abbrev pub NullOr : (ℕ → Type 0) → Value → Type 0
NullOr P v = (v ≡ null) ⊎ ((n : ℕ) × (v ≡ integer (pos n)) × P n)

pub record Accepted (v : Value) : Type 0 where
  pub queue_named : (t : String) × (prop "queue" v ≡ text t)
  pub channel_given : IsChannel (prop "rmqChannel" v)
  pub coordinator_known : IsCoordinator (prop "coordinator" v)
  pub interval : NullOr (λ n. 100 < n) (prop "interval" v)
  pub max_batch : NullOr (λ n. (1 ≤ n) × (n ≤ 100000)) (prop "maxBatch" v)
  pub chunk_size : NullOr (λ n. (1 ≤ n) × (n ≤ 1000000)) (prop "chunkSize" v)
  pub one_handler : (is_function (prop "onSpill" v) && is_function (prop "onItem" v)) ≡ false

pub queue-IsChannel : (v : Value) → queue v ≡ none → IsChannel v
unfolding queue
queue-IsChannel (instance_of channel keys f) h = plain keys f
queue-IsChannel (instance_of confirm_channel keys f) h = confirming keys f
queue-IsChannel _ h = absurd (ground (arith, h))

named-IsCoordinator : (t : String) → coordinator (text t) ≡ none → IsCoordinator (text t)
unfolding coordinator
named-IsCoordinator t h = elim (Bool-cases (str_eq t "memory")) [
  | inl e ↦ is "memory" e memory
  | inr e₁ ↦ elim (Bool-cases (str_eq t "redis")) [
    | inl e ↦ is "redis" e redis
    | inr e₂ ↦ elim (Bool-cases (str_eq t "mqtt")) [
      | inl e ↦ is "mqtt" e mqtt
      | inr e₃ ↦ elim (Bool-cases (str_eq t "database")) [
        | inl e ↦ is "database" e database
        | inr e₄ ↦ absurd (ground (arith, h, e₁, e₂, e₃, e₄))
      ]
    ]
  ]
]
  where
    is : (u : String) → str_eq t u ≡ true → IsCoordinator (text u) → IsCoordinator (text t)
    is u e known = rw ((eq_iff t u).0 e) known

pub coordinator-IsCoordinator : (v : Value) → coordinator v ≡ none → IsCoordinator v
unfolding coordinator
coordinator-IsCoordinator (instance_of coordinator_driver keys f) h = driver keys f
coordinator-IsCoordinator (text t) h = named-IsCoordinator t h
coordinator-IsCoordinator _ h = absurd (ground (arith, h))

pub InRange-NullOr :
    (P : ℕ → Type 0) (r : Range) (v : Value)
    → ((n : ℕ) → in_range r (integer (pos n)) ≡ true → P n)
    → InRange r v
    → NullOr P v
InRange-NullOr P r v f (inl e) = inl e
InRange-NullOr P r v f (inr (n, e, h)) = inr (n, e, f n h)

pub lite-unknown : (v : Value) → IsCoordinator v → is_the_text "lite" v ≡ false
lite-unknown _ (driver keys f) = refl
lite-unknown _ memory = refl
lite-unknown _ redis = refl
lite-unknown _ mqtt = refl
lite-unknown _ database = refl
