-- ===== src/Bucket/Settle/Never.antt =====
-- With a chunk size of 0 there are no chunks: what a consumer without a deserializer and a validator
-- takes, it leaves as it is.
use rabbitmqtobucketqueue.Common.{
  ℕ, zero, suc, false, ◌≡◌, refl, not, ◌&&◌, ltb, Option, none, some, List, [], ◌∷◌, Bool-cases,
  Result-cases, inl, inr, Result, Unit₀, arith,
}
use rabbitmqtobucketqueue.Coordinator.{Number}
use rabbitmqtobucketqueue.Bucket.Defs.{
  Interrupt, ending, failing, Failure, Message, Item, DeserializedMessage, Env, Entry, Bucket, next,
  acked, nacked, incremented, emit, spill_event, tick_event,
}
use rabbitmqtobucketqueue.Bucket.Calls.{
  get_single_message, get_messages, handle_fatal_error, close_all, close_ignoring, disconnect,
  interrupt, interrupt_all, cork, interrupted, note_got,
}
use rabbitmqtobucketqueue.Bucket.Items.{
  defined, deserialize, deserialize_all, validate, validate_defined, validate_all,
}
use rabbitmqtobucketqueue.Bucket.Chunk.{chunk}
use rabbitmqtobucketqueue.Bucket.Tick.{
  spill_chunks, item_chunks, consume, spill, report, schedule, end_tick, spill_balance, tick_with,
  tick, fire, rounds,
}

module _ {T : Type 0} where
  -- The acks, nacks and increments of a trace.
  abbrev pub handled : List (Entry T) → ℕ
  handled [] = 0
  handled (acked m ∷ es) = suc (handled es)
  handled (nacked m requeue ∷ es) = suc (handled es)
  handled (incremented n ∷ es) = suc (handled es)
  handled (_ ∷ es) = handled es

module _ {W C T : Type 0} (env : Env W C T) where
  abbrev Same : Bucket W C T → Bucket W C T → Type 0
  Same s s' = handled s'.trace ≡ handled s.trace

  handle_fatal_error-Same : (e : Failure) (s : Bucket W C T) → Same s (handle_fatal_error env e s)
  unfolding handle_fatal_error
  handle_fatal_error-Same e s = ground arith

  close_all-Same : (s : Bucket W C T) → Same s (close_all env s).1
  unfolding close_all close_ignoring disconnect
  close_all-Same s = ground arith

  interrupt-Same : (i : Interrupt) (s : Bucket W C T) → Same s (interrupt env i s)
  unfolding interrupt cork
  interrupt-Same ending s = close_all-Same s
  interrupt-Same (failing e) s = handle_fatal_error-Same e s
  interrupt-Same _ s = refl

  interrupt_all-Same : (is : List Interrupt) (s : Bucket W C T) → Same s (interrupt_all env is s)
  unfolding interrupt_all
  interrupt_all-Same [] s = refl
  interrupt_all-Same (i ∷ is) s =
      ground (arith, interrupt-Same i s, interrupt_all-Same is (interrupt env i s))

  interrupted-Same : (s : Bucket W C T) → Same s (interrupted env s)
  unfolding interrupted
  interrupted-Same s =
      let (is, w) = env.channel.meanwhile s.world in interrupt_all-Same is (record s { world = w })

  note_got-Same : (r : Option Message) (s : Bucket W C T) → Same s (note_got env r s)
  note_got-Same none s = refl
  note_got-Same (some m) s = refl

  get_single_message-Same : (s : Bucket W C T) → Same s (get_single_message env s).1
  unfolding get_single_message
  get_single_message-Same s =
      let s' : Bucket W C T = record s { world = (env.channel.get env.options.queue s.world).1 } in
      elim (Result-cases (env.channel.get env.options.queue s.world).0) [
        | inl (r, e) ↦ ground (arith, interrupted-Same (note_got env r s'), note_got-Same r s')
        | inr (x, e) ↦ ground (arith, interrupted-Same s')
      ]

  get_messages-Same : (n : ℕ) (s : Bucket W C T) → Same s (get_messages env n s).1
  unfolding get_messages
  get_messages-Same zero s = refl
  get_messages-Same (suc n) s =
      ground (arith, get_single_message-Same s, get_messages-Same n (get_single_message env s).1)

  schedule-Same : (s : Bucket W C T) → Same s (schedule env s)
  unfolding schedule
  schedule-Same s = ground arith

  report-Same : (b e : Number) (s : Bucket W C T) → Same s (report env b e s)
  unfolding report
  report-Same b none s = refl
  report-Same none (some e) s = ground arith
  report-Same (some b) (some e) s = ground arith

  end_tick-Same : (balance : Number) (s : Bucket W C T) → Same s (end_tick env balance s).1
  unfolding end_tick
  end_tick-Same balance s =
      let s₀ : Bucket W C T = record s { coordinator = (env.driver.balance s.coordinator).1 } in
      let s' : Bucket W C T = interrupted env s₀ in
      let same = interrupted-Same s₀ in
      elim (Result-cases (env.driver.balance s.coordinator).0) [
        | inl (b, e) ↦
            ground (arith, same, report-Same balance b s', schedule-Same (report env balance b s'))
        | inr (x, e) ↦ ground (arith, same, handle_fatal_error-Same x s')
      ]

  module _ (size : env.options.chunk_size ≡ 0) (raw_items : env.options.deserialize_item ≡ none)
      (all_valid : env.options.validate_item ≡ none) where
    deserialize_all-Same : (ms : List Message) (s : Bucket W C T) → (deserialize_all env ms s).1 ≡ s
    unfolding deserialize_all deserialize
    deserialize_all-Same [] s = refl
    deserialize_all-Same (m ∷ ms) s = rw (raw_items, deserialize_all-Same ms s) refl

    validate_all-Same :
        (ds : List (Option (DeserializedMessage T))) (s : Bucket W C T)
        → (validate_all env ds s).1 ≡ s
    unfolding validate_all validate_defined validate
    validate_all-Same [] s = refl
    validate_all-Same (none ∷ ds) s = validate_all-Same ds s
    validate_all-Same (some d ∷ ds) s = rw (all_valid, validate_all-Same ds s) refl

    no_chunks : (items : List (DeserializedMessage T)) → chunk items env.options.chunk_size ≡ []
    unfolding chunk
    no_chunks items = ground (arith, size)

    consume-nothing :
        (items : List (DeserializedMessage T)) (s : Bucket W C T) → consume env items s ≡ (next, s)
    unfolding consume spill_chunks item_chunks
    consume-nothing items s = go env.options.on_spill env.options.on_item refl refl
      where
        go :
            (g : Option (List (DeserializedMessage T) → W → Result Failure Unit₀ × W))
            (h : Option (Item T → W → Result Failure Unit₀ × W))
            → env.options.on_spill ≡ g
            → env.options.on_item ≡ h
            → consume env items s ≡ (next, s)
        go (some g) h e e' = rw (e, consume, no_chunks items) refl
        go none (some h) e e' = rw (e, consume, e', no_chunks items) refl
        go none none e e' = rw (e, consume, e') refl

    spill-Same : (balance : ℕ) (s : Bucket W C T) → Same s (spill env balance s).1
    unfolding spill
    spill-Same balance s =
        let s₀ : Bucket W C T = emit (spill_event balance) s in
        let s₁ : Bucket W C T = (get_messages env balance s₀).1 in
        let taken = get_messages-Same balance s₀ in
        elim (Result-cases (get_messages env balance s₀).0) [
          | inl (ms, e) ↦
              let ds : List (Option (DeserializedMessage T)) = (deserialize_all env ms s₁).0 in
              let vs : List (Option (DeserializedMessage T)) = (validate_all env ds s₁).0 in
              rw
                (
                  e,
                  spill,
                  deserialize_all-Same ms s₁,
                  validate_all-Same ds s₁,
                  consume-nothing (defined vs) s₁,
                )
                taken
          | inr (x, e) ↦ ground (arith, taken)
        ]

    tick_with-Same : (balance : Number) (s : Bucket W C T) → Same s (tick_with env balance s).1
    unfolding tick_with spill_balance
    tick_with-Same none s = ground (arith, end_tick-Same none s)
    tick_with-Same (some balance) s = elim (Bool-cases (not s.corked && ltb 0 balance)) [
      | inl spills ↦
          ground (arith, spill-Same balance s, end_tick-Same (some balance) (spill env balance s).1)
      | inr idle ↦ ground (arith, end_tick-Same (some balance) s)
    ]

    tick-Same : (s : Bucket W C T) → Same s (tick env s).1
    unfolding tick
    tick-Same s =
        let s₀ : Bucket W C T = record s { coordinator = (env.driver.balance s.coordinator).1 } in
        let s' : Bucket W C T = interrupted env s₀ in
        let same = interrupted-Same s₀ in
        elim (Result-cases (env.driver.balance s.coordinator).0) [
          | inl (b, e) ↦ ground (arith, same, tick_with-Same b (emit (tick_event b) s'))
          | inr (x, e) ↦ ground (arith, same, handle_fatal_error-Same x s')
        ]

    -- A consumer without a deserializer and a validator whose chunk size is 0 never acks, nacks or
    -- counts anything, over any number of rounds, whatever it takes from the queue.
    pub rounds-never : (n : ℕ) (s : Bucket W C T) → handled (rounds env n s).trace ≡ handled s.trace
    unfolding rounds fire
    rounds-never zero s = refl
    rounds-never (suc n) s =
        ground (arith, tick-Same (record s { immediate = false }), rounds-never n (fire env s))
