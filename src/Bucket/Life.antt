-- ===== src/Bucket/Life.antt =====
-- The public methods of the consumer, and the events of RabbitMQ that it listens to.
pub mod Corked
pub mod Idle
use rabbitmqtobucketqueue.Common.{
  ℕ, Bool, true, false, not, if◌then◌else◌, some, List, [], ◌∷◌, String, str_eq, Result, ok, err,
  Unit₀,
}
use rabbitmqtobucketqueue.Coordinator.{Number}
use rabbitmqtobucketqueue.Bucket.Defs.{
  Failure, re_enquable, plain, Env, Bucket, emit, uncorked_event, channel_closed,
  coordinator_shut_down,
}
use rabbitmqtobucketqueue.Bucket.Calls.{cork, close_all, handle_fatal_error}
use rabbitmqtobucketqueue.Bucket.Tick.{fire}

-- What can happen to a consumer: a call of a public method, an `error` event of the channel or
-- the connection, or a turn of the event loop.
pub data Happening : Type 0 where
  corks uncorks pauses resumes purges turns : Happening
  shuts_down : Bool → Happening
  reads_balance : Happening
  fails : Failure → Happening

module _ {W C T : Type 0} (env : Env W C T) where
  open env use {driver}

  unfoldable pub balance : Bucket W C T → Result Failure Number × Bucket W C T
  balance s =
      if not s.booted
      then (ok (some 0), s)
      else let (r, c) = driver.balance s.coordinator in (r, record s { coordinator = c })

  -- The callback handed to `process.nextTick` only makes a bound function: it calls nothing.
  unfoldable pub uncork : Bucket W C T → Bucket W C T
  uncork s = emit uncorked_event (record s { corked = false })

  unfoldable pub pause : Bucket W C T → Bucket W C T
  pause s = cork env s

  unfoldable pub resume : Bucket W C T → Bucket W C T
  resume s = uncork s

  unfoldable pub purge : Bucket W C T → Result Failure Unit₀ × Bucket W C T
  purge s = let (r, c) = driver.reset s.coordinator in (r, record s { coordinator = c })

  unfoldable pub purge_if : Bool → Bucket W C T → Result Failure Unit₀ × Bucket W C T
  purge_if wanted s = if wanted then purge s else (ok tt, s)

  -- The two turns of the event loop that `shutdown` waits for find nothing scheduled.
  unfoldable pub shutdown : Bool → Bucket W C T → Result Failure Unit₀ × Bucket W C T
  shutdown wanted s =
      let (r, s₁) = purge_if wanted (cork env s) in
      elim r [ err e ↦ (err e, s₁) | ok u ↦ close_all env s₁ ]

  unfoldable pub happen : Happening → Bucket W C T → Bucket W C T
  happen corks s = cork env s
  happen uncorks s = uncork s
  happen pauses s = pause s
  happen resumes s = resume s
  happen purges s = (purge s).1
  happen turns s = fire env s
  happen (shuts_down wanted) s = (shutdown wanted s).1
  happen reads_balance s = (balance s).1
  happen (fails e) s = handle_fatal_error env e s

  -- The happenings, the newest first.
  unfoldable pub live : List Happening → Bucket W C T → Bucket W C T
  live [] s = s
  live (x ∷ h) s = happen x (live h s)
