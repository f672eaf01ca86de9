-- ===== src/Connection.antt =====
-- src/rabbitmq/Client.ts: a connection to RabbitMQ. amqplib and the callbacks are parameters, over
-- any world that they may change.
pub mod Closing
use rabbitmqtobucketqueue.Common.{
  Bool, true, false, not, if◌then◌else◌, Option, none, some, List, [], ◌∷◌, String, Result, ok, err,
  Unit₀,
}
use rabbitmqtobucketqueue.Bucket.Defs.{Failure, Channel, plain}
use rabbitmqtobucketqueue.Promise.{Call}

-- What amqplib's connection signals, and what the class emits.
pub data Signal : Type 0 where
  close unblocked : Signal
  error : Failure → Signal
  blocked : String → Signal

pub data Emitted : Type 0 where
  connect_event close_event unblocked_event : Emitted
  error_event : Failure → Emitted
  blocked_event : String → Emitted

-- amqplib; a close resolves with what the connection signals meanwhile, in order.
pub record Link (W : Type 0) : Type 0 where
  pub connect : Call W Unit₀
  pub create_channel : Call W (Channel W)
  pub create_confirm_channel : Call W (Channel W)
  pub close_link : Call W (List Signal)

-- A callback, which gets an error or none, and may throw.
abbrev pub Callback : Type 0 → Type 0
Callback W = Option Failure → Call W Unit₀

-- `linked` says whether `#connection` is set; what was emitted is newest first.
pub record Connection (W : Type 0) : Type 0 where
  pub linked : Bool
  pub closed : Bool
  pub emitted : List Emitted
  pub world : W

module _ {W : Type 0} where
  abbrev pub fresh : W → Connection W
  fresh w = record { linked = false; closed = true; emitted = []; world = w }

  abbrev pub emit : Emitted → Connection W → Connection W
  emit e c = record c { emitted = e ∷ c.emitted }

  -- The four listeners.
  unfoldable pub on_signal : Signal → Connection W → Connection W
  on_signal close c = emit close_event (record c { closed = true })
  on_signal (error e) c = emit (error_event e) (record c { closed = true })
  on_signal (blocked reason) c = emit (blocked_event reason) c
  on_signal unblocked c = emit unblocked_event c

  unfoldable pub on_signals : List Signal → Connection W → Connection W
  unfolding on_signal
  on_signals [] c = c
  on_signals (s ∷ ss) c = on_signals ss (on_signal s c)

abbrev pub not_initialized : Failure
not_initialized = plain "Connection is not initialized"

module _ {W : Type 0} (link : Link W) where
  -- The end of `close`, and the channels.
  abbrev pub closed_with :
      Result Failure (List Signal) × W → Connection W → Result Failure Unit₀ × Connection W
  closed_with (ok signals, w) c =
      (ok tt, emit close_event (on_signals signals (record c { world = w })))
  closed_with (err e, w) c = (err e, record c { world = w })

  unfoldable pub close_connection : Connection W → Result Failure Unit₀ × Connection W
  unfolding on_signals
  close_connection c =
      if c.closed
      then (ok tt, c)
      else if not c.linked
      then (ok tt, c)
      else closed_with (link.close_link c.world) (record c { closed = true })

  abbrev pub created :
      Result Failure (Channel W) × W → Connection W → Result Failure (Channel W) × Connection W
  created (r, w) c = (r, record c { world = w })

  unfoldable pub create_channel : Connection W → Result Failure (Channel W) × Connection W
  create_channel c =
      if not c.linked then (err not_initialized, c) else created (link.create_channel c.world) c

  unfoldable pub create_confirm_channel : Connection W → Result Failure (Channel W) × Connection W
  create_confirm_channel c =
      if not c.linked
      then (err not_initialized, c)
      else created (link.create_confirm_channel c.world) c

  -- The `catch` of `#initialize`, and what follows its `await`: the callback is inside the `try`.
  abbrev pub call : Result Failure Unit₀ × W → Connection W → Result Failure Unit₀ × Connection W
  call (r, w) c = (r, record c { world = w })

  abbrev pub failed :
      Option (Callback W) → Failure → Connection W → Result Failure Unit₀ × Connection W
  failed none e c = (ok tt, emit (error_event e) c)
  failed (some callback) e c = call (callback (some e) c.world) c

  abbrev pub called_back :
      Callback W → Result Failure Unit₀ × W → Connection W → Result Failure Unit₀ × Connection W
  called_back callback (ok u, w) c = (ok tt, record c { world = w })
  called_back callback (err e, w) c = failed (some callback) e (record c { world = w })

  abbrev pub linked_with : Option (Callback W) → Connection W → Result Failure Unit₀ × Connection W
  linked_with none c = (ok tt, c)
  linked_with (some callback) c = called_back callback (callback none c.world) c

  abbrev pub connected :
      Option (Callback W)
      → Result Failure Unit₀ × W
      → Connection W
      → Result Failure Unit₀ × Connection W
  connected callback (ok u, w) c =
      linked_with callback
        (emit connect_event (record c { linked = true; closed = false; world = w }))
  connected callback (err e, w) c = failed callback e (record c { world = w })

  unfoldable pub initialize :
      Option (Callback W) → Connection W → Result Failure Unit₀ × Connection W
  initialize callback c = connected callback (link.connect c.world) c

  -- The static `connect`: the constructor's callback settles a promise, and the caller's callback is
  -- inside the `try` as well.
  abbrev pub rejected :
      Option (Callback W) → Failure → W → Result Failure (Option (Connection W)) × W
  rejected none e w = (err e, w)
  rejected (some callback) e w =
      let (r, w') = callback (some e) w in elim r [ ok u ↦ (ok none, w') | err e' ↦ (err e', w') ]

  abbrev pub instance_made :
      Option (Callback W) → Connection W → Result Failure (Option (Connection W)) × W
  instance_made none c = (ok (some c), c.world)
  instance_made (some callback) c =
      let (r, w) = callback none c.world in
      elim r [
        | ok u ↦ (ok (some (record c { world = w })), w)
        | err e ↦ rejected (some callback) e w
      ]

  abbrev pub settled_with :
      Option (Callback W)
      → Result Failure Unit₀ × W
      → W
      → Result Failure (Option (Connection W)) × W
  settled_with callback (ok u, w') w =
      instance_made callback
        (emit connect_event (record (fresh w') { linked = true; closed = false }))
  settled_with callback (err e, w') w = rejected callback e w'

  unfoldable pub connect_static :
      Option (Callback W) → W → Result Failure (Option (Connection W)) × W
  connect_static callback w = settled_with callback (link.connect w) w
