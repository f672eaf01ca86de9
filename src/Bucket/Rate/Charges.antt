-- ===== src/Bucket/Rate/Charges.antt =====
-- What the parts of a tick charge to the coordinator: at most one for each item, counted once.
use rabbitmqtobucketqueue.Common.{
  ℕ, ◌+◌, ◌≤◌, ◌<◌, ◌≡◌, Option, none, some, refl, Result, Unit₀, List, [], ◌∷◌, length,
  length-append, Bool-cases, Result-cases, inl, inr, arith,
}
use rabbitmqtobucketqueue.Bucket.Defs.{
  Item, DeserializedMessage, Env, Bucket, Failure, reenqueue, counts_toward_balance, emit,
  error_event, incremented, spill_event,
}
use rabbitmqtobucketqueue.Bucket.Calls.{
  get_messages, do_ack, do_nack, do_ack_all, increment, handle_fatal_error, interrupted,
}
use rabbitmqtobucketqueue.Bucket.Items.{defined, deserialize_all, validate_all}
use rabbitmqtobucketqueue.Bucket.Chunk.{chunk, concat, chunk_partition}
use rabbitmqtobucketqueue.Bucket.Tick.{
  messages, do_spill, do_item, count_or_die, charge_failed, spill_failed, spill_chunk, item_failed,
  item_one, item_all, spill_chunks, item_chunks, consume, spill,
}
use rabbitmqtobucketqueue.Bucket.Rate.Untouched.{
  Meters, Less, handle_fatal_error-Less, interrupted-Less, call-Less, get_messages-Less,
  do_ack-Less, do_nack-Less, do_ack_all-Less, do_nack_all-Less, deserialize_all-Less,
  validate_all-Less, length-defined,
}

module _ {W C T : Type 0} (env : Env W C T) (used limit : C → ℕ)
    (meter : Meters env.driver used limit) where
  -- From `s` to `s'` at most `n` are charged.
  abbrev pub Charges : Bucket W C T → Bucket W C T → ℕ → Type 0
  Charges s s' n =
      (used s'.coordinator ≤ used s.coordinator + n) × (limit s'.coordinator ≡ limit s.coordinator)

  pub handle_fatal_error-Charges :
      (e : Failure) (s : Bucket W C T) → Charges s (handle_fatal_error env e s) 0
  handle_fatal_error-Charges e s = ground (arith, handle_fatal_error-Less env used limit meter e s)

  count_or_die-Charges : (n : ℕ) (s : Bucket W C T) → Charges s (count_or_die env n s).1 n
  unfolding count_or_die increment
  count_or_die-Charges n s =
      let s' : Bucket W C T = record s { coordinator = (env.driver.increment n s.coordinator).1 } in
      let counted : Bucket W C T = emit (incremented n) s' in
      elim (Result-cases (env.driver.increment n s.coordinator).0) [
        | inl (u, e) ↦ ground (
          arith,
          meter.increment_used n s.coordinator,
          interrupted-Less env used limit meter counted,
        )
        | inr (x, e) ↦ ground (
          arith,
          meter.increment_used n s.coordinator,
          interrupted-Less env used limit meter s',
          handle_fatal_error-Charges x (interrupted env s'),
        )
      ]

  do_spill-Less :
      (c : List (DeserializedMessage T)) (s : Bucket W C T)
      → Less env used limit meter s (do_spill env c s).1
  unfolding do_spill
  do_spill-Less c s = go env.options.on_spill refl
    where
      go :
          (g : Option (List (DeserializedMessage T) → W → Result Failure Unit₀ × W))
          → env.options.on_spill ≡ g
          → Less env used limit meter s (do_spill env c s).1
      go none e = ground (arith, e)
      go (some g) e =
          rw (e, do_spill) (call-Less env used limit meter (g c) (λ u t. t) s (λ u t. refl))

  do_item-Less : (i : Item T) (s : Bucket W C T) → Less env used limit meter s (do_item env i s).1
  unfolding do_item
  do_item-Less i s = go env.options.on_item refl
    where
      go :
          (g : Option (Item T → W → Result Failure Unit₀ × W))
          → env.options.on_item ≡ g
          → Less env used limit meter s (do_item env i s).1
      go none e = ground (arith, e)
      go (some g) e =
          rw (e, do_item) (call-Less env used limit meter (g i) (λ u t. t) s (λ u t. refl))

  spill_failed-Charges :
      (c : List (DeserializedMessage T)) (e : Failure) (s : Bucket W C T)
      → Charges s (spill_failed env c e s).1 (length c)
  unfolding spill_failed charge_failed
  spill_failed-Charges c e s =
      let s' : Bucket W C T = emit (error_event e) s in
      let s'' : Bucket W C T = (count_or_die env (length c) s').1 in
      elim (Bool-cases (counts_toward_balance e)) [
        | inl counts ↦ ground (
          arith,
          count_or_die-Charges (length c) s',
          do_nack_all-Less env used limit meter (messages env c) (reenqueue e) s'',
        )
        | inr counts ↦
            ground (arith, do_nack_all-Less env used limit meter (messages env c) (reenqueue e) s')
      ]

  spill_chunk-Charges :
      (c : List (DeserializedMessage T)) (s : Bucket W C T)
      → Charges s (spill_chunk env c s).1 (length c)
  unfolding spill_chunk
  spill_chunk-Charges c s =
      let s' : Bucket W C T = (do_spill env c s).1 in
      let s'' : Bucket W C T = (do_ack_all env (messages env c) s').1 in
      let acks = do_ack_all-Less env used limit meter (messages env c) s' in
      let spilled = do_spill-Less c s in
      elim (Result-cases (do_spill env c s).0) [
        | inl (u, e) ↦ elim (Result-cases (do_ack_all env (messages env c) s').0) [
          | inl (v, e') ↦ ground (arith, acks, spilled, count_or_die-Charges (length c) s'')
          | inr (x, e') ↦ ground (arith, acks, spilled, spill_failed-Charges c x s'')
        ]
        | inr (x, e) ↦ ground (arith, spilled, spill_failed-Charges c x s')
      ]

  item_failed-Charges :
      (d : DeserializedMessage T) (e : Failure) (s : Bucket W C T)
      → Charges s (item_failed env d e s).1 1
  unfolding item_failed charge_failed
  item_failed-Charges d e s =
      let nacked_at : (t : Bucket W C T)
          → Less env used limit meter t (do_nack env d.message (reenqueue e) t).1 =
        λ t. do_nack-Less env used limit meter d.message (reenqueue e) t in
      elim (Bool-cases (counts_toward_balance e)) [
        | inl counts ↦ ground (
          arith,
          counts,
          count_or_die-Charges 1 s,
          nacked_at (emit (error_event e) (count_or_die env 1 s).1),
        )
        | inr free ↦ ground (arith, free, nacked_at (emit (error_event e) s))
      ]

  item_one-Charges :
      (d : DeserializedMessage T) (s : Bucket W C T) → Charges s (item_one env d s).1 1
  unfolding item_one
  item_one-Charges d s =
      let s' : Bucket W C T = (do_item env d.item s).1 in
      let s'' : Bucket W C T = (do_ack env d.message s').1 in
      let done = do_item-Less d.item s in
      let acks = do_ack-Less env used limit meter d.message s' in
      elim (Result-cases (do_item env d.item s).0) [
        | inl (u, e) ↦ elim (Result-cases (do_ack env d.message s').0) [
          | inl (v, e') ↦ ground (arith, done, acks, count_or_die-Charges 1 s'')
          | inr (x, e') ↦ ground (arith, done, acks, item_failed-Charges d x s'')
        ]
        | inr (x, e) ↦ ground (arith, done, item_failed-Charges d x s')
      ]

  item_all-Charges :
      (ds : List (DeserializedMessage T)) (s : Bucket W C T)
      → Charges s (item_all env ds s).1 (length ds)
  unfolding item_all
  item_all-Charges [] s = ground arith
  item_all-Charges (d ∷ ds) s =
      ground (arith, item_one-Charges d s, item_all-Charges ds (item_one env d s).1)

  spill_chunks-Charges :
      (cs : List (List (DeserializedMessage T))) (s : Bucket W C T)
      → Charges s (spill_chunks env cs s).1 (length (concat cs))
  unfolding spill_chunks
  spill_chunks-Charges [] s = ground arith
  spill_chunks-Charges (c ∷ cs) s = ground (
    arith,
    length-append c (concat cs),
    spill_chunk-Charges c s,
    spill_chunks-Charges cs (spill_chunk env c s).1,
  )

  item_chunks-Charges :
      (cs : List (List (DeserializedMessage T))) (s : Bucket W C T)
      → Charges s (item_chunks env cs s).1 (length (concat cs))
  unfolding item_chunks
  item_chunks-Charges [] s = ground arith
  item_chunks-Charges (c ∷ cs) s = ground (
    arith,
    length-append c (concat cs),
    item_all-Charges c s,
    item_chunks-Charges cs (item_all env c s).1,
  )

  module _ (size : 0 < env.options.chunk_size) where
    consume-Charges :
        (items : List (DeserializedMessage T)) (s : Bucket W C T)
        → Charges s (consume env items s).1 (length items)
    unfolding consume
    consume-Charges items s =
        let whole = (chunk_partition items env.options.chunk_size size).0 in
        let pieces = chunk items env.options.chunk_size in
        ground (arith, whole, spill_chunks-Charges pieces s, item_chunks-Charges pieces s)

    -- The body of a tick charges at most the balance that it was given.
    pub spill-Charges : (balance : ℕ) (s : Bucket W C T) → Charges s (spill env balance s).1 balance
    unfolding spill
    spill-Charges balance s =
        let s₀ : Bucket W C T = emit (spill_event balance) s in
        let taken = get_messages-Less env used limit meter balance s₀ in
        let s₁ : Bucket W C T = (get_messages env balance s₀).1 in
        elim (Result-cases (get_messages env balance s₀).0) [
          | inl (ms, e) ↦
              let ds : List (Option (DeserializedMessage T)) = (deserialize_all env ms s₁).0 in
              let s₂ : Bucket W C T = (deserialize_all env ms s₁).1 in
              let vs : List (Option (DeserializedMessage T)) = (validate_all env ds s₂).0 in
              let s₃ : Bucket W C T = (validate_all env ds s₂).1 in
              ground (
                arith,
                taken,
                deserialize_all-Less env used limit meter ms s₁,
                validate_all-Less env used limit meter ds s₂,
                length-defined vs,
                consume-Charges (defined vs) s₃,
              )
          | inr (x, e) ↦ ground (arith, taken)
        ]
