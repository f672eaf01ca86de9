-- ===== src/Bucket/Calls.antt =====
-- The private methods of the consumer that call RabbitMQ and the coordinator, and what may happen
-- while they await, the end of `shutdown` among it. A promise that is
-- awaited gives a result; the calls that `Promise.all` makes run in the order of the list, and it
-- rejects with the first error after all have been made. The error of a promise that nobody awaits
-- is dropped.
use rabbitmqtobucketqueue.Common.{
  ℕ, zero, suc, Bool, true, false, if◌then◌else◌, Option, none, some, List, [], ◌∷◌, String, str_eq,
  not, Result, ok, err, Unit₀,
}
use rabbitmqtobucketqueue.Bucket.Defs.{
  Failure, Message, Env, got, acked, nacked, incremented, error_event, fatal_event, died_event,
  corked_event, uncorked_event, Interrupt, corking, uncorking, purging, ending, failing,
  re_enquable, plain, channel_closed, connection_closed, coordinator_shut_down, Bucket, emit,
}

-- `Promise.all` of two calls: the first error counts.
abbrev pub first_error : Result Failure Unit₀ → Result Failure Unit₀ → Result Failure Unit₀
first_error (ok u) r = r
first_error (err e) r = err e

-- `error.message`
pub message_of : Failure → String
message_of (re_enquable message again counts) = message
message_of (plain message) = message

module _ {W C T : Type 0} (env : Env W C T) where
  open env use {channel, driver, options}

  unfoldable pub cork : Bucket W C T → Bucket W C T
  cork s = emit corked_event (record s { immediate = false; corked = true })

  -- The channel's `close` in a `try` that reports an error and goes on.
  unfoldable pub close_channel : Bucket W C T → Bucket W C T
  close_channel s =
      let (r, w) = channel.close s.world in
      let s' = record s { world = w } in
      elim r [ ok u ↦ emit channel_closed s' | err e ↦ emit (error_event e) s' ]

  unfoldable pub shut_down_coordinator : Bucket W C T → Bucket W C T
  shut_down_coordinator s =
      let (r, c) = driver.shutdown s.coordinator in
      let s' = record s { coordinator = c } in
      elim r [ ok u ↦ emit coordinator_shut_down s' | err e ↦ emit (error_event e) s' ]

  unfoldable pub close_connection : Bucket W C T → Bucket W C T
  close_connection s = if s.has_connection then emit connection_closed s else s

  -- `#channel` and `#coordinator` are set whenever a tick can run.
  unfoldable pub handle_fatal_error : Failure → Bucket W C T → Bucket W C T
  unfolding cork close_channel close_connection shut_down_coordinator
  handle_fatal_error error s =
      let closed = close_channel (cork (emit (fatal_event error) s)) in
      emit (died_event error) (shut_down_coordinator (close_connection closed))

  -- The end of `shutdown`: the connection and the coordinator.
  unfoldable pub disconnect : Bucket W C T → Result Failure Unit₀ × Bucket W C T
  unfolding close_connection
  disconnect s =
      let s' = close_connection s in
      let (r, c) = driver.shutdown s'.coordinator in
      let s'' = record s' { coordinator = c } in
      elim r [ ok u ↦ (ok u, emit coordinator_shut_down s'') | err e ↦ (err e, s'') ]

  -- The channel's `close`, in a `try` that only a closed channel's error does not leave.
  unfoldable pub close_ignoring : Bucket W C T → Result Failure Unit₀ × Bucket W C T
  close_ignoring s =
      let (r, w) = channel.close s.world in
      let s' = record s { world = w } in
      elim r [
        | ok u ↦ (ok u, emit channel_closed s')
        | err e ↦ (if not (str_eq (message_of e) "Channel closed") then err e else ok tt, s')
      ]

  -- `shutdown` after what it awaits first.
  unfoldable pub close_all : Bucket W C T → Result Failure Unit₀ × Bucket W C T
  unfolding close_ignoring disconnect
  close_all s =
      let (r, s') = close_ignoring s in elim r [ err e ↦ (err e, s') | ok u ↦ disconnect s' ]

  unfoldable pub interrupt : Interrupt → Bucket W C T → Bucket W C T
  unfolding cork handle_fatal_error close_all
  interrupt corking s = cork s
  interrupt uncorking s = emit uncorked_event (record s { corked = false })
  interrupt purging s = record s { coordinator = (driver.reset s.coordinator).1 }
  interrupt ending s = (close_all s).1
  interrupt (failing e) s = handle_fatal_error e s

  unfoldable pub interrupt_all : List Interrupt → Bucket W C T → Bucket W C T
  unfolding interrupt
  interrupt_all [] s = s
  interrupt_all (i ∷ is) s = interrupt_all is (interrupt i s)

  -- What happens while the code awaits.
  unfoldable pub interrupted : Bucket W C T → Bucket W C T
  unfolding interrupt_all
  interrupted s =
      let (is, w) = channel.meanwhile s.world in interrupt_all is (record s { world = w })

  -- A call of the channel or of a callback that is awaited; the entry stands for its success.
  abbrev pub call :
      {A : Type 0}
      → (W → Result Failure A × W)
      → (A → Bucket W C T → Bucket W C T)
      → Bucket W C T
      → Result Failure A × Bucket W C T
  call f note s =
      let (r, w) = f s.world in
      elim r [
        | ok a ↦ (ok a, interrupted (note a (record s { world = w })))
        | err e ↦ (err e, interrupted (record s { world = w }))
      ]

  abbrev pub note_got : Option Message → Bucket W C T → Bucket W C T
  note_got none s = s
  note_got (some m) s = emit (got m) s

  unfoldable pub get_single_message : Bucket W C T → Result Failure (Option Message) × Bucket W C T
  get_single_message = call (channel.get options.queue) note_got

  abbrev pub add_message :
      Result Failure (Option Message)
      → Result Failure (List Message)
      → Result Failure (List Message)
  add_message (err e) rest = err e
  add_message (ok none) rest = rest
  add_message (ok (some m)) (ok ms) = ok (m ∷ ms)
  add_message (ok (some m)) (err e) = err e

  -- `balance` calls of `#getSingleMessage`, and the messages among the results.
  unfoldable pub get_messages : ℕ → Bucket W C T → Result Failure (List Message) × Bucket W C T
  get_messages zero s = (ok [], s)
  get_messages (suc balance) s =
      let (r, s') = get_single_message s in
      let (rest, s'') = get_messages balance s' in (add_message r rest, s'')

  unfoldable pub do_ack : Message → Bucket W C T → Result Failure Unit₀ × Bucket W C T
  do_ack m = call (channel.ack m) (λ _. emit (acked m))

  unfoldable pub do_nack : Message → Bool → Bucket W C T → Result Failure Unit₀ × Bucket W C T
  do_nack m requeue = call (channel.nack m requeue) (λ _. emit (nacked m requeue))

  unfoldable pub do_ack_all : List Message → Bucket W C T → Result Failure Unit₀ × Bucket W C T
  do_ack_all [] s = (ok tt, s)
  do_ack_all (m ∷ ms) s =
      let (r, s') = do_ack m s in let (rest, s'') = do_ack_all ms s' in (first_error r rest, s'')

  unfoldable pub do_nack_all :
      List Message → Bool → Bucket W C T → Result Failure Unit₀ × Bucket W C T
  do_nack_all [] requeue s = (ok tt, s)
  do_nack_all (m ∷ ms) requeue s =
      let (r, s') = do_nack m requeue s in
      let (rest, s'') = do_nack_all ms requeue s' in (first_error r rest, s'')

  unfoldable pub increment : ℕ → Bucket W C T → Result Failure Unit₀ × Bucket W C T
  increment count s =
      let (r, c) = driver.increment count s.coordinator in
      elim r [
        | ok u ↦ (ok u, interrupted (emit (incremented count) (record s { coordinator = c })))
        | err e ↦ (err e, interrupted (record s { coordinator = c }))
      ]

  -- `#doNack` whose promise is not awaited.
  unfoldable pub nack_unawaited : Message → Bool → Bucket W C T → Bucket W C T
  unfolding do_nack
  nack_unawaited m requeue s = (do_nack m requeue s).1
