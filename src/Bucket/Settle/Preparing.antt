-- ===== src/Bucket/Settle/Preparing.antt =====
-- What deserialization and validation settle.
use rabbitmqtobucketqueue.Common.{
  ℕ, ◌+◌, ◌≡◌, refl, Option, none, some, List, [], ◌∷◌, arith, Bool, not, ◌||◌, Result,
  Result-cases, inl, inr,
}
use rabbitmqtobucketqueue.Bucket.Defs.{
  Message, DeserializedMessage, Env, Bucket, Failure, reenqueue, Item, emit, error_event,
  invalid_event,
}
use rabbitmqtobucketqueue.Bucket.Calls.{interrupted}
use rabbitmqtobucketqueue.Bucket.Items.{
  deserialize_failed, deserialize, deserialize_all, validate_failed, invalid, validate,
  validate_defined, validate_all,
}
use rabbitmqtobucketqueue.Bucket.Settle.Counts.{
  one, pending, pending_option, pending_options, gots, settles, Responds, Moves, interrupted-Moves,
  nack_unawaited-Moves,
}

module _ {W C T : Type 0} where
  module _ (env : Env W C T) (h : Responds env) (t : ℕ) where
    -- What a step that may drop a message does: nothing is taken, and the message is settled or
    -- it is still to be settled.
    abbrev pub Keeps : Bucket W C T → Option (DeserializedMessage T) × Bucket W C T → ℕ → Type 0
    Keeps s r due =
        (gots t r.1.trace ≡ gots t s.trace)
        × (settles t r.1.trace + pending_option t r.0 ≡ settles t s.trace + due)

    deserialize_failed-Keeps :
        (m : Message) (e : Failure) (s : Bucket W C T)
        → Keeps s (deserialize_failed env m e s) (one t m)
    unfolding deserialize_failed
    deserialize_failed-Keeps m e s = ground (
      arith,
      nack_unawaited-Moves env h t m (not env.options.discard_on_deserialize_error || reenqueue e)
          (emit (error_event e) s),
    )

    deserialize-Keeps : (m : Message) (s : Bucket W C T) → Keeps s (deserialize env m s) (one t m)
    unfolding deserialize
    deserialize-Keeps m s = go env.options.deserialize_item refl
      where
        called : (List ℕ → W → Result Failure T × W) → Bucket W C T
        called f = record s { world = (f m.content s.world).1 }

        moved :
            (f : List ℕ → W → Result Failure T × W)
            → Moves t (called f) (interrupted env (called f)) 0 0
        moved f = interrupted-Moves env t (called f)

        go :
            (f : Option (List ℕ → W → Result Failure T × W))
            → env.options.deserialize_item ≡ f
            → Keeps s (deserialize env m s) (one t m)
        go none e = ground arith
        go (some f) e = elim (Result-cases (f m.content s.world).0) [
          | inl (a, e') ↦ ground (arith, moved f)
          | inr (x, e') ↦
              ground (arith, moved f, deserialize_failed-Keeps m x (interrupted env (called f)))
        ]

    pub deserialize_all-Keeps :
        (ms : List Message) (s : Bucket W C T)
        → (gots t (deserialize_all env ms s).1.trace ≡ gots t s.trace)
          × (settles t (deserialize_all env ms s).1.trace
                + pending_options t (deserialize_all env ms s).0
              ≡ settles t s.trace + pending t ms)
    unfolding deserialize_all
    deserialize_all-Keeps [] s = (refl, refl)
    deserialize_all-Keeps (m ∷ ms) s =
        ground (arith, deserialize-Keeps m s, deserialize_all-Keeps ms (deserialize env m s).1)

    validate_failed-Keeps :
        (d : DeserializedMessage T) (e : Failure) (s : Bucket W C T)
        → Keeps s (validate_failed env d e s) (one t d.message)
    unfolding validate_failed
    validate_failed-Keeps d e s = ground (
      arith,
      nack_unawaited-Moves env h t d.message
          (not env.options.discard_on_validation_error || reenqueue e) (emit (error_event e) s),
    )

    invalid-Keeps :
        (d : DeserializedMessage T) (s : Bucket W C T) → Keeps s (invalid env d s) (one t d.message)
    unfolding invalid
    invalid-Keeps d s = ground (
      arith,
      nack_unawaited-Moves env h t d.message (not env.options.discard_on_invalid)
          (emit (invalid_event d.item d.message) s),
    )

    validate-Keeps :
        (d : DeserializedMessage T) (s : Bucket W C T)
        → Keeps s (validate env d s) (one t d.message)
    unfolding validate
    validate-Keeps d s = go env.options.validate_item refl
      where
        go :
            (f : Option (Item T → W → Result Failure Bool × W))
            → env.options.validate_item ≡ f
            → Keeps s (validate env d s) (one t d.message)
        go none e = ground arith
        go (some f) e =
            let called : Bucket W C T = record s { world = (f d.item s.world).1 } in
            let s' : Bucket W C T = interrupted env called in
            let moved = interrupted-Moves env t called in
            elim (Result-cases (f d.item s.world).0) [
              | inl (a, e') ↦ ground (arith, moved, invalid-Keeps d s')
              | inr (x, e') ↦ ground (arith, moved, validate_failed-Keeps d x s')
            ]

    validate_defined-Keeps :
        (d : Option (DeserializedMessage T)) (s : Bucket W C T)
        → Keeps s (validate_defined env d s) (pending_option t d)
    unfolding validate_defined
    validate_defined-Keeps none s = (refl, refl)
    validate_defined-Keeps (some d) s = validate-Keeps d s

    pub validate_all-Keeps :
        (ds : List (Option (DeserializedMessage T))) (s : Bucket W C T)
        → (gots t (validate_all env ds s).1.trace ≡ gots t s.trace)
          × (settles t (validate_all env ds s).1.trace + pending_options t (validate_all env ds s).0
              ≡ settles t s.trace + pending_options t ds)
    unfolding validate_all
    validate_all-Keeps [] s = (refl, refl)
    validate_all-Keeps (d ∷ ds) s =
        ground
          (arith, validate_defined-Keeps d s, validate_all-Keeps ds (validate_defined env d s).1)
