-- ===== src/Producer.antt =====
-- src/ToRabbitMQBucketQueue.ts: the producer, which puts items on a queue of RabbitMQ.
pub mod Answers
pub mod Stops
pub mod Boot
use rabbitmqtobucketqueue.Common.{
  ℕ, Bool, true, false, not, if◌then◌else◌, Option, none, some, List, [], ◌∷◌, String, str_eq,
  Result, ok, err, Unit₀,
}
use rabbitmqtobucketqueue.Promise.{Call, ◌>>=◌, ◌>>◌, pure}
use rabbitmqtobucketqueue.Bucket.Defs.{Failure, plain}
use rabbitmqtobucketqueue.Bucket.Calls.{message_of}

-- A channel of amqplib: whether it is a `ConfirmChannel`, `sendToQueue` without and with a
-- callback, which is given an error or none, and `close`.
pub record Outlet (W : Type 0) : Type 0 where
  pub confirms : Bool
  pub send : String → List ℕ → String → Call W Unit₀
  pub send_confirmed : String → List ℕ → String → Call W (Option Failure)
  pub close : Call W Unit₀

-- `default_serializer` is JSON.stringify and `uuid` the package of that name.
pub record Env (W T : Type 0) : Type 0 where
  pub queue : String
  pub outlet : Outlet W
  pub serialize_item : Option (T → Call W (List ℕ))
  pub default_serializer : T → Call W (List ℕ)
  pub uuid : Call W String

-- What the producer has done, by the ids of the messages sent.
pub data Entry : Type 0 where
  sent : String → Entry
  fatal_event error_event died_event : Failure → Entry
  channel_closed connection_closed : Entry

pub record Producer (W : Type 0) : Type 0 where
  pub booted : Bool
  pub has_connection : Bool
  pub world : W
  pub trace : List Entry

-- What one item resolves with: its id, or the error of its confirmation.
pub data Answer : Type 0 where
  id : String → Answer
  refused : Failure → Answer

-- The argument of `enqueue`, and its result: `results[0]` or `results`.
pub data Items (T : Type 0) : Type 0 where
  item : T → Items T
  array : List T → Items T

pub data Results : Type 0 where
  first : Option Answer → Results
  results : List Answer → Results

abbrev pub not_booted : Failure
not_booted = plain "ToRabbitMQBucketQueue is not booted."

module _ {W : Type 0} where
  abbrev pub emit : Entry → Producer W → Producer W
  emit e s = record s { trace = e ∷ s.trace }

  -- A call of what is outside.
  abbrev pub lift : {A : Type 0} → Call W A → Call (Producer W) A
  lift f s = let (r, w) = f s.world in (r, record s { world = w })

  abbrev pub note : Entry → Call (Producer W) Unit₀
  note e s = (ok tt, emit e s)

  -- The callback of a confirmation.
  abbrev pub confirmed : Bool → String → Option Failure → Call (Producer W) Answer
  confirmed reject_on_error correlation_id none s = (ok (id correlation_id), s)
  confirmed true correlation_id (some e) s = (err e, s)
  confirmed false correlation_id (some e) s = (ok (refused e), s)

module _ {W T : Type 0} (env : Env W T) where
  open env use {outlet}

  unfoldable pub serialize : T → Call (Producer W) (List ℕ)
  serialize x = elim env.serialize_item [
    | some f ↦ lift (f x)
    | none ↦ lift (env.default_serializer x)
  ]

  -- The correlation id is made unless one is given.
  unfoldable pub correlate : Option String → Call (Producer W) String
  correlate none = lift env.uuid
  correlate (some c) = if str_eq c "" then lift env.uuid else pure c

  unfoldable pub deliver : Bool → String → List ℕ → Call (Producer W) Answer
  deliver reject_on_error c content =
      if outlet.confirms
      then (do
        answer ← lift (outlet.send_confirmed env.queue content c)
        note (sent c)
        confirmed reject_on_error c answer)
      else (do lift (outlet.send env.queue content c); note (sent c); pure (id c))

  unfoldable pub enqueue_and_await : T → Bool → Option String → Call (Producer W) Answer
  unfolding serialize correlate deliver
  enqueue_and_await x reject_on_error correlation_id = do
    content ← serialize x
    c ← correlate correlation_id
    deliver reject_on_error c content

  -- The loop that awaits each item before the next.
  unfoldable pub in_order : List T → Bool → Call (Producer W) (List Answer)
  in_order [] reject_on_error = pure []
  in_order (x ∷ xs) reject_on_error = do
    a ← enqueue_and_await x reject_on_error none
    answers ← in_order xs reject_on_error
    pure (a ∷ answers)

  -- `Promise.all`: the first error counts, after all calls have been made.
  abbrev pub both :
      Result Failure Answer → Result Failure (List Answer) → Result Failure (List Answer)
  both (err e) rest = err e
  both (ok a) (err e) = err e
  both (ok a) (ok answers) = ok (a ∷ answers)

  unfoldable pub all_at_once : List T → Bool → Call (Producer W) (List Answer)
  all_at_once [] reject_on_error s = (ok [], s)
  all_at_once (x ∷ xs) reject_on_error s =
      let (a, s') = enqueue_and_await x reject_on_error none s in
      let (rest, s'') = all_at_once xs reject_on_error s' in (both a rest, s'')

  unfoldable pub enqueue_all : List T → Bool → Bool → Call (Producer W) (List Answer)
  enqueue_all xs true reject_on_error = in_order xs reject_on_error
  enqueue_all xs false reject_on_error = all_at_once xs reject_on_error

  abbrev pub head : List Answer → Option Answer
  head [] = none
  head (a ∷ answers) = some a

  abbrev pub enqueue_items : Items T → Bool → Bool → Call (Producer W) Results
  enqueue_items (item x) keep_order reject_on_error = do
    answers ← enqueue_all (x ∷ []) keep_order reject_on_error
    pure (first (head answers))
  enqueue_items (array xs) keep_order reject_on_error = do
    answers ← enqueue_all xs keep_order reject_on_error
    pure (results answers)

  unfoldable pub enqueue : Items T → Bool → Bool → Call (Producer W) Results
  enqueue items keep_order reject_on_error s =
      if not s.booted then (err not_booted, s) else enqueue_items items keep_order reject_on_error s

  abbrev pub close_connection : Producer W → Producer W
  close_connection s = if s.has_connection then emit connection_closed s else s

  -- The channel's `close`, whose error `Channel closed` is ignored.
  abbrev pub closed : Result Failure Unit₀ × Producer W → Result Failure Unit₀ × Producer W
  closed (ok u, s) = (ok u, close_connection (emit channel_closed s))
  closed (err e, s) =
      if not (str_eq (message_of e) "Channel closed")
      then (err e, s)
      else (ok tt, close_connection s)

  unfoldable pub shutdown : Call (Producer W) Unit₀
  shutdown s = if not s.booted then (err not_booted, s) else closed (lift outlet.close s)

  abbrev pub close_channel : Result Failure Unit₀ × Producer W → Producer W
  close_channel (ok u, s) = emit channel_closed s
  close_channel (err e, s) = emit (error_event e) s

  unfoldable pub handle_fatal_error : Failure → Producer W → Producer W
  handle_fatal_error e s =
      emit (died_event e)
        (close_connection (close_channel (lift outlet.close (emit (fatal_event e) s))))
