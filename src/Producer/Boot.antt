-- ===== src/Producer/Boot.antt =====
-- `#doBoot` of the producer after the configuration has been merged and validated, and what a
-- producer that has booted does.
use rabbitmqtobucketqueue.Common.{
  ℕ, Bool, true, false, if◌then◌else◌, ◌≡◌, refl, ap, sym, Option, none, some, List, [], ◌∷◌,
  String, str_eq, ok, err, ok_injective, Unit₀, arith,
}
use rabbitmqtobucketqueue.Promise.{Call, ◌>>=◌, ◌>>◌, pure, >>=-ok}
use rabbitmqtobucketqueue.Bucket.Defs.{Failure}
use rabbitmqtobucketqueue.Producer.{
  Outlet, Env, Producer, Items, not_booted, enqueue, shutdown, handle_fatal_error,
}
use rabbitmqtobucketqueue.Producer.Answers.{ids}

-- amqplib, as the producer uses it.
pub record Broker (W : Type 0) : Type 0 where
  pub connect : Call W Unit₀
  pub create_channel : Call W (Outlet W)
  pub create_confirm_channel : Call W (Outlet W)
  pub assert_queue : String → Outlet W → Call W Unit₀

pub record Config (W T : Type 0) : Type 0 where
  pub queue : String
  pub rmq_channel : Option (Outlet W)
  pub rmq_queue_type : String
  pub serialize_item : Option (T → Call W (List ℕ))

module _ {W T : Type 0} (broker : Broker W) (json : T → Call W (List ℕ))
    (uuid : Call W String) where
  unfoldable pub create : String → Call W (Outlet W)
  create rmq_queue_type =
      if str_eq rmq_queue_type "confirmChannel"
      then broker.create_confirm_channel
      else broker.create_channel

  unfoldable pub get_rabbit_mq_queue : String → String → Call W (Outlet W)
  unfolding create
  get_rabbit_mq_queue queue rmq_queue_type = do
    broker.connect
    channel ← create rmq_queue_type
    broker.assert_queue queue channel
    pure channel

  unfoldable pub take_channel : Config W T → Call W (Outlet W)
  unfolding get_rabbit_mq_queue
  take_channel options = elim options.rmq_channel [
    | some channel ↦ pure channel
    | none ↦ get_rabbit_mq_queue options.queue options.rmq_queue_type
  ]

  abbrev pub is_missing : Option (Outlet W) → Bool
  is_missing none = true
  is_missing (some c) = false

  -- `#serializeItem` and `#booted` keep their initial values.
  unfoldable pub finish : Config W T → Outlet W → Call W (Env W T × (W → Producer W))
  finish options channel = pure (
    record {
      queue = options.queue;
      outlet = channel;
      serialize_item = none;
      default_serializer = json;
      uuid = uuid;
    },
    λ w. record {
      booted = false;
      has_connection = is_missing options.rmq_channel;
      world = w;
      trace = [];
    },
  )

  unfoldable pub do_boot : Config W T → Call W (Env W T × (W → Producer W))
  unfolding take_channel finish
  do_boot options = do channel ← take_channel options; finish options channel

-- What can happen to a producer: its public methods, and an `error` event of RabbitMQ.
pub data Happening (T : Type 0) : Type 0 where
  enqueues : Items T → Bool → Bool → Happening T
  shuts_down : Happening T
  fails : Failure → Happening T

module _ {W T : Type 0} (env : Env W T) where
  unfoldable pub happen : Happening T → Producer W → Producer W
  happen (enqueues items keep_order reject_on_error) s =
      (enqueue env items keep_order reject_on_error s).1
  happen shuts_down s = (shutdown env s).1
  happen (fails e) s = handle_fatal_error env e s

  -- The happenings, the newest first.
  unfoldable pub live : List (Happening T) → Producer W → Producer W
  unfolding happen
  live [] s = s
  live (x ∷ h) s = happen x (live h s)

  -- A producer that is not booted refuses, and sends nothing.
  abbrev Refuses : Producer W → Type 0
  Refuses s = (s.booted ≡ false) × (ids s.trace ≡ [])

  enqueue-refused :
      (items : Items T) (k r : Bool) (s : Producer W)
      → s.booted ≡ false
      → enqueue env items k r s ≡ (err not_booted, s)
  unfolding enqueue
  enqueue-refused items k r s e = ground (arith, e)

  shutdown-refused : (s : Producer W) → s.booted ≡ false → shutdown env s ≡ (err not_booted, s)
  unfolding shutdown
  shutdown-refused s e = ground (arith, e)

  happen-Refuses : (x : Happening T) (s : Producer W) → Refuses s → Refuses (happen x s)
  unfolding happen enqueue shutdown handle_fatal_error
  happen-Refuses (enqueues items k r) s h = ground (arith, h)
  happen-Refuses shuts_down s h = ground (arith, h)
  happen-Refuses (fails e) s h = ground arith

  live-Refuses : (h : List (Happening T)) (s : Producer W) → Refuses s → Refuses (live h s)
  unfolding live
  live-Refuses [] s e = e
  live-Refuses (x ∷ h) s e = happen-Refuses x (live h s) (live-Refuses h s e)

module _ {W T : Type 0} (broker : Broker W) (json : T → Call W (List ℕ))
    (uuid : Call W String) where
  -- A producer that has booted never sends: whatever methods were called and whatever errors
  -- arrived since, `enqueue` and `shutdown` reject because the producer is not booted, change
  -- nothing, and no message has been sent. Nor does it have the configured serializer.
  pub do_boot-never_sends :
      (options : Config W T) (w w' : W) (env : Env W T) (make : W → Producer W)
      → do_boot broker json uuid options w ≡ (ok (env, make), w')
      → (h : List (Happening T)) (items : Items T) (keep_order reject_on_error : Bool)
      → let s = live env h (make w') in
        (enqueue env items keep_order reject_on_error s ≡ (err not_booted, s))
        × (shutdown env s ≡ (err not_booted, s))
        × (ids s.trace ≡ [])
        × (env.serialize_item ≡ none)
  unfolding do_boot finish
  do_boot-never_sends options w w' env make e h items keep_order reject_on_error =
      let (channel, w₁, _, f) =
        >>=-ok (take_channel broker json uuid options) (finish broker json uuid options) w e in
      let pair = ok_injective (ap (λ p. p.0) f) in
      let made = sym (ap (λ p. p.1) pair) in
      let refuses : Refuses env (make w') = rw made (refl, refl) in
      let (unbooted, unsent) = live-Refuses env h (make w') refuses in
      (
        enqueue-refused env items keep_order reject_on_error (live env h (make w')) unbooted,
        shutdown-refused env (live env h (make w')) unbooted,
        unsent,
        sym (ap (λ p. p.0.serialize_item) pair),
      )
