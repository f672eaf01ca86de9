-- ===== src/Bucket/Settle/Chunks.antt =====
-- What handing the items to the callbacks, and the whole tick, settle.
use rabbitmqtobucketqueue.Common.{
  ℕ, ◌+◌, ◌<◌, ◌≡◌, ◌≢◌, ◌⊎◌, Option, none, some, refl, Result, Unit₀, List, [], ◌∷◌, ◌++◌, length,
  Bool-cases, Result-cases, inl, inr, arith,
}
use rabbitmqtobucketqueue.Bucket.Defs.{
  Item, DeserializedMessage, Env, Bucket, Failure, reenqueue, counts_toward_balance, emit,
  error_event, spill_event, Flow, next,
}
use rabbitmqtobucketqueue.Bucket.Calls.{call, get_messages, do_ack, do_ack_all}
use rabbitmqtobucketqueue.Bucket.Items.{defined, deserialize_all, validate_all}
use rabbitmqtobucketqueue.Bucket.Chunk.{chunk, concat, chunk_partition}
use rabbitmqtobucketqueue.Bucket.Tick.{
  messages, do_spill, do_item, count_or_die, charge_failed, spill_failed, spill_chunk, item_failed,
  item_one, item_all, spill_chunks, item_chunks, consume, spill,
}
use rabbitmqtobucketqueue.Bucket.Settle.Counts.{
  one, pending, pending_items, gots, settles, Moves, Responds, pending-messages,
  pending_items-defined, do_ack-Moves, do_nack-Moves, do_ack_all-Moves, do_nack_all-Moves,
  increment-Moves, interrupted-Moves, get_messages-Moves,
}
use rabbitmqtobucketqueue.Bucket.Settle.Preparing.{deserialize_all-Keeps, validate_all-Keeps}

pending_items-append :
    {T : Type 0} (t : ℕ) (xs ys : List (DeserializedMessage T))
    → pending_items t (xs ++ ys) ≡ pending_items t xs + pending_items t ys
pending_items-append t [] ys = omega arith
pending_items-append t (x ∷ xs) ys = omega (arith, pending_items-append t xs ys)

module _ {W C T : Type 0} (env : Env W C T) (h : Responds env) (t : ℕ) where
  -- A part of the handler that goes on, takes nothing and settles `k` deliveries with the tag.
  abbrev Settles : Bucket W C T → Flow × Bucket W C T → ℕ → Type 0
  Settles s r k = (r.0 ≡ next) × Moves t s r.1 0 k

  -- A callback settles nothing, whatever happens meanwhile.
  callback-Moves :
      (f : W → Result Failure Unit₀ × W) (s : Bucket W C T)
      → Moves t s (call env f (λ u s. s) s).1 0 0
  callback-Moves f s =
      let s' : Bucket W C T = record s { world = (f s.world).1 } in
      elim (Result-cases (f s.world).0) [
        | inl (u, e) ↦ rw (e, call) (interrupted-Moves env t s')
        | inr (x, e) ↦ rw (e, call) (interrupted-Moves env t s')
      ]

  do_spill-Moves :
      (c : List (DeserializedMessage T)) (s : Bucket W C T) → Moves t s (do_spill env c s).1 0 0
  unfolding do_spill
  do_spill-Moves c s = go env.options.on_spill refl
    where
      go :
          (g : Option (List (DeserializedMessage T) → W → Result Failure Unit₀ × W))
          → env.options.on_spill ≡ g
          → Moves t s (do_spill env c s).1 0 0
      go none e = ground (arith, e)
      go (some g) e = rw (e, do_spill) (callback-Moves (g c) s)

  do_item-Moves : (i : Item T) (s : Bucket W C T) → Moves t s (do_item env i s).1 0 0
  unfolding do_item
  do_item-Moves i s = go env.options.on_item refl
    where
      go :
          (g : Option (Item T → W → Result Failure Unit₀ × W))
          → env.options.on_item ≡ g
          → Moves t s (do_item env i s).1 0 0
      go none e = ground (arith, e)
      go (some g) e = rw (e, do_item) (callback-Moves (g i) s)

  count_or_die-Settles : (n : ℕ) (s : Bucket W C T) → Settles s (count_or_die env n s) 0
  unfolding count_or_die
  count_or_die-Settles n s = ground (arith, increment-Moves env h t n s)

  spill_failed-Settles :
      (c : List (DeserializedMessage T)) (e : Failure) (s : Bucket W C T)
      → Settles s (spill_failed env c e s) (pending t (messages env c))
  unfolding spill_failed charge_failed
  spill_failed-Settles c e s =
      let s' : Bucket W C T = emit (error_event e) s in
      elim (Bool-cases (counts_toward_balance e)) [
        | inl counts ↦ ground (
          arith,
          count_or_die-Settles (length c) s',
          do_nack_all-Moves env h t (messages env c) (reenqueue e)
              (count_or_die env (length c) s').1,
        )
        | inr counts ↦ ground (arith, do_nack_all-Moves env h t (messages env c) (reenqueue e) s')
      ]

  spill_chunk-Settles :
      (c : List (DeserializedMessage T)) (s : Bucket W C T)
      → Settles s (spill_chunk env c s) (pending_items t c)
  unfolding spill_chunk
  spill_chunk-Settles c s =
      let s' : Bucket W C T = (do_spill env c s).1 in
      elim (Result-cases (do_spill env c s).0) [
        | inl (u, e) ↦ ground (
          arith,
          do_spill-Moves c s,
          pending-messages t c,
          do_ack_all-Moves env h t (messages env c) s',
          count_or_die-Settles (length c) (do_ack_all env (messages env c) s').1,
        )
        | inr (x, e) ↦
            ground (arith, do_spill-Moves c s, pending-messages t c, spill_failed-Settles c x s')
      ]

  item_failed-Settles :
      (d : DeserializedMessage T) (e : Failure) (s : Bucket W C T)
      → Settles s (item_failed env d e s) (one t d.message)
  unfolding item_failed charge_failed
  item_failed-Settles d e s = elim (Bool-cases (counts_toward_balance e)) [
    | inl counts ↦
        let s' : Bucket W C T = (count_or_die env 1 s).1 in
        ground (
          arith,
          count_or_die-Settles 1 s,
          do_nack-Moves env h t d.message (reenqueue e) (emit (error_event e) s'),
        )
    | inr counts ↦
        ground (arith, do_nack-Moves env h t d.message (reenqueue e) (emit (error_event e) s))
  ]

  item_one-Settles :
      (d : DeserializedMessage T) (s : Bucket W C T)
      → Settles s (item_one env d s) (one t d.message)
  unfolding item_one
  item_one-Settles d s =
      let s' : Bucket W C T = (do_item env d.item s).1 in
      elim (Result-cases (do_item env d.item s).0) [
        | inl (u, e) ↦ ground (
          arith,
          do_item-Moves d.item s,
          do_ack-Moves env h t d.message s',
          count_or_die-Settles 1 (do_ack env d.message s').1,
        )
        | inr (x, e) ↦ ground (arith, do_item-Moves d.item s, item_failed-Settles d x s')
      ]

  item_all-Settles :
      (ds : List (DeserializedMessage T)) (s : Bucket W C T)
      → Settles s (item_all env ds s) (pending_items t ds)
  unfolding item_all
  item_all-Settles [] s = ground arith
  item_all-Settles (d ∷ ds) s =
      ground (arith, item_one-Settles d s, item_all-Settles ds (item_one env d s).1)

  spill_chunks-Settles :
      (cs : List (List (DeserializedMessage T))) (s : Bucket W C T)
      → Settles s (spill_chunks env cs s) (pending_items t (concat cs))
  unfolding spill_chunks
  spill_chunks-Settles [] s = ground arith
  spill_chunks-Settles (c ∷ cs) s = ground (
    arith,
    pending_items-append t c (concat cs),
    spill_chunk-Settles c s,
    spill_chunks-Settles cs (spill_chunk env c s).1,
  )

  item_chunks-Settles :
      (cs : List (List (DeserializedMessage T))) (s : Bucket W C T)
      → Settles s (item_chunks env cs s) (pending_items t (concat cs))
  unfolding item_chunks
  item_chunks-Settles [] s = ground arith
  item_chunks-Settles (c ∷ cs) s = ground (
    arith,
    pending_items-append t c (concat cs),
    item_all-Settles c s,
    item_chunks-Settles cs (item_all env c s).1,
  )

  -- `onSpill` or `onItem` is configured, and the chunk size is at least 1.
  module _ (handled : (env.options.on_spill ≢ none) ⊎ (env.options.on_item ≢ none))
      (size : 0 < env.options.chunk_size) where
    consume-Settles :
        (items : List (DeserializedMessage T)) (s : Bucket W C T)
        → Settles s (consume env items s) (pending_items t items)
    unfolding consume
    consume-Settles items s =
        let whole = chunk_partition items env.options.chunk_size size in
        let pieces = chunk items env.options.chunk_size in
        ground (arith, whole.0, spill_chunks-Settles pieces s, item_chunks-Settles pieces s)

    -- What the body of a tick takes it settles.
    pub spill-settles :
        (balance : ℕ) (s : Bucket W C T)
        → ((spill env balance s).0 ≡ next)
          × (settles t (spill env balance s).1.trace + gots t s.trace
              ≡ gots t (spill env balance s).1.trace + settles t s.trace)
    unfolding spill
    spill-settles balance s =
        let (ms, e, m) = get_messages-Moves env h t balance (emit (spill_event balance) s) in
        let s₁ : Bucket W C T = (get_messages env balance (emit (spill_event balance) s)).1 in
        let ds : List (Option (DeserializedMessage T)) = (deserialize_all env ms s₁).0 in
        let s₂ : Bucket W C T = (deserialize_all env ms s₁).1 in
        let vs : List (Option (DeserializedMessage T)) = (validate_all env ds s₂).0 in
        let s₃ : Bucket W C T = (validate_all env ds s₂).1 in
        ground (
          arith,
          e,
          m,
          deserialize_all-Keeps env h t ms s₁,
          validate_all-Keeps env h t ds s₂,
          pending_items-defined t vs,
          consume-Settles (defined vs) s₃,
        )
