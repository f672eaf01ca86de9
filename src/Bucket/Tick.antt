-- ===== src/Bucket/Tick.antt =====
-- `#tick`: one round of the consumer's loop.
use rabbitmqtobucketqueue.Common.{
  ℕ, zero, suc, Bool, true, false, not, ◌&&◌, if◌then◌else◌, ltb, ◌==◌, none, some, List, [], ◌∷◌,
  map, length, Result, ok, err, Unit₀,
}
use rabbitmqtobucketqueue.Coordinator.{Number}
use rabbitmqtobucketqueue.Bucket.Defs.{
  Failure, reenqueue, counts_toward_balance, Message, Item, DeserializedMessage, Env, tick_event,
  spill_event, error_event, drain_event, finish_event, Bucket, Flow, next, stop, rejected, emit,
}
use rabbitmqtobucketqueue.Bucket.Chunk.{chunk}
use rabbitmqtobucketqueue.Bucket.Calls.{
  call, interrupted, get_messages, do_ack, do_nack, do_ack_all, do_nack_all, increment,
  handle_fatal_error,
}
use rabbitmqtobucketqueue.Bucket.Items.{defined, deserialize_all, validate_all}

module _ {W C T : Type 0} (env : Env W C T) where
  open env use {driver, options}

  abbrev pub messages : List (DeserializedMessage T) → List Message
  messages = map λ d. d.message

  -- A callback that is not set is not called.
  unfoldable pub do_spill :
      List (DeserializedMessage T) → Bucket W C T → Result Failure Unit₀ × Bucket W C T
  do_spill items s = elim options.on_spill [
    | none ↦ (ok tt, s)
    | some f ↦ call env (f items) (λ _ t. t) s
  ]

  unfoldable pub do_item : Item T → Bucket W C T → Result Failure Unit₀ × Bucket W C T
  do_item item s = elim options.on_item [
    | none ↦ (ok tt, s)
    | some f ↦ call env (f item) (λ _ t. t) s
  ]

  -- How an awaited call ends the code after it.
  abbrev pub flow : Result Failure Unit₀ × Bucket W C T → Flow × Bucket W C T
  flow (ok u, s) = (next, s)
  flow (err e, s) = (rejected e, s)

  -- `increment` in its own `try`, whose handler dies and returns.
  unfoldable pub count_or_die : ℕ → Bucket W C T → Flow × Bucket W C T
  count_or_die count s =
      let (r, s') = increment env count s in
      elim r [ ok u ↦ (next, s') | err e ↦ (stop, handle_fatal_error env e s') ]

  -- The increment of a handler, made only if the error says so.
  unfoldable pub charge_failed : Failure → ℕ → Bucket W C T → Flow × Bucket W C T
  charge_failed error count s =
      if counts_toward_balance error then count_or_die count s else (next, s)

  -- The `catch` of a chunk: count it if the error says so, and nack the messages.
  unfoldable pub spill_failed :
      List (DeserializedMessage T) → Failure → Bucket W C T → Flow × Bucket W C T
  spill_failed chunk error s =
      let (r, s') = charge_failed error (length chunk) (emit (error_event error) s) in
      elim r [
        | next ↦ flow (do_nack_all env (messages chunk) (reenqueue error) s')
        | stop ↦ (stop, s')
        | rejected e ↦ (rejected e, s')
      ]

  unfoldable pub spill_chunk : List (DeserializedMessage T) → Bucket W C T → Flow × Bucket W C T
  spill_chunk chunk s =
      let (r, s') = do_spill chunk s in
      elim r [
        | err error ↦ spill_failed chunk error s'
        | ok u ↦
            let (r', s'') = do_ack_all env (messages chunk) s' in
            elim r' [
              | err error ↦ spill_failed chunk error s''
              | ok u' ↦ count_or_die (length chunk) s''
            ]
      ]

  -- The `catch` of an item; here the error is reported after the count.
  unfoldable pub item_failed : DeserializedMessage T → Failure → Bucket W C T → Flow × Bucket W C T
  item_failed d error s =
      let (r, s') = charge_failed error 1 s in
      elim r [
        | next ↦ flow (do_nack env d.message (reenqueue error) (emit (error_event error) s'))
        | stop ↦ (stop, s')
        | rejected e ↦ (rejected e, s')
      ]

  unfoldable pub item_one : DeserializedMessage T → Bucket W C T → Flow × Bucket W C T
  item_one d s =
      let (r, s') = do_item d.item s in
      elim r [
        | err error ↦ item_failed d error s'
        | ok u ↦
            let (r', s'') = do_ack env d.message s' in
            elim r' [ err error ↦ item_failed d error s'' | ok u' ↦ count_or_die 1 s'' ]
      ]

  -- An early return of one item's function ends only that function; a rejection is kept.
  abbrev pub all_flow : Flow → Flow → Flow
  all_flow (rejected e) rest = rejected e
  all_flow next rest = rest
  all_flow stop rest = rest

  unfoldable pub item_all : List (DeserializedMessage T) → Bucket W C T → Flow × Bucket W C T
  item_all [] s = (next, s)
  item_all (d ∷ ds) s =
      let (r, s') = item_one d s in let (rest, s'') = item_all ds s' in (all_flow r rest, s'')

  -- The two loops over the chunks.
  unfoldable pub spill_chunks :
      List (List (DeserializedMessage T)) → Bucket W C T → Flow × Bucket W C T
  spill_chunks [] s = (next, s)
  spill_chunks (c ∷ cs) s =
      let (r, s') = spill_chunk c s in
      elim r [ next ↦ spill_chunks cs s' | stop ↦ (stop, s') | rejected e ↦ (rejected e, s') ]

  unfoldable pub item_chunks :
      List (List (DeserializedMessage T)) → Bucket W C T → Flow × Bucket W C T
  item_chunks [] s = (next, s)
  item_chunks (c ∷ cs) s =
      let (r, s') = item_all c s in
      elim r [ next ↦ item_chunks cs s' | stop ↦ (stop, s') | rejected e ↦ (rejected e, s') ]

  -- `onSpill` takes precedence over `onItem`; with neither, the items are left as they are.
  unfoldable pub consume : List (DeserializedMessage T) → Bucket W C T → Flow × Bucket W C T
  consume items s = elim options.on_spill [
    | some f ↦ spill_chunks (chunk items options.chunk_size) s
    | none ↦ elim options.on_item [
      | some f ↦ item_chunks (chunk items options.chunk_size) s
      | none ↦ (next, s)
    ]
  ]

  -- The body of `if (!this.#corked && balance > 0)`.
  unfoldable pub spill : ℕ → Bucket W C T → Flow × Bucket W C T
  spill balance s =
      let (r, s₁) = get_messages env balance (emit (spill_event balance) s) in
      elim r [
        | err e ↦ (rejected e, s₁)
        | ok ms ↦
            let (ds, s₂) = deserialize_all env ms s₁ in
            let (vs, s₃) = validate_all env ds s₂ in consume (defined vs) s₃
      ]

  -- `===` with a number that is not NaN.
  abbrev pub is_number : Number → ℕ → Bool
  is_number none n = false
  is_number (some m) n = m == n

  -- The `drain` and `finish` events: NaN differs from every balance, but is not below the quota.
  unfoldable pub report : Number → Number → Bucket W C T → Bucket W C T
  report balance none s = s
  report balance (some end_list_size) s =
      if is_number balance end_list_size
      then s
      else let drained = if ltb end_list_size options.max_batch then emit drain_event s else s in
        if end_list_size == 0 then emit finish_event drained else drained

  unfoldable pub schedule : Bucket W C T → Bucket W C T
  schedule s = if s.corked then s else record s { immediate = true }

  unfoldable pub end_tick : Number → Bucket W C T → Flow × Bucket W C T
  end_tick balance s =
      let (r, c) = driver.balance s.coordinator in
      let s' = interrupted env (record s { coordinator = c }) in
      elim r [
        | err e ↦ (stop, handle_fatal_error env e s')
        | ok end_list_size ↦ (next, schedule (report balance end_list_size s'))
      ]

  -- NaN is not above 0.
  unfoldable pub spill_balance : Number → Bucket W C T → Flow × Bucket W C T
  spill_balance none s = (next, s)
  spill_balance (some balance) s =
      if not s.corked && ltb 0 balance then spill balance s else (next, s)

  unfoldable pub tick_with : Number → Bucket W C T → Flow × Bucket W C T
  tick_with balance s =
      let (r, s') = spill_balance balance s in
      elim r [ next ↦ end_tick balance s' | stop ↦ (stop, s') | rejected e ↦ (rejected e, s') ]

  unfoldable pub tick : Bucket W C T → Flow × Bucket W C T
  tick s =
      let (r, c) = driver.balance s.coordinator in
      let s' = interrupted env (record s { coordinator = c }) in
      elim r [
        | err e ↦ (stop, handle_fatal_error env e s')
        | ok balance ↦ tick_with balance (emit (tick_event balance) s')
      ]

  -- The event loop runs a scheduled immediate, which calls `#tick`; nothing awaits its promise.
  unfoldable pub fire : Bucket W C T → Bucket W C T
  fire s = if s.immediate then (tick (record s { immediate = false })).1 else s

  unfoldable pub rounds : ℕ → Bucket W C T → Bucket W C T
  rounds zero s = s
  rounds (suc n) s = rounds n (fire s)
