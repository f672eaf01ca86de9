-- ===== src/Bucket/Frame/Steps.antt =====
-- A frame holds across deserialization and validation, and across the charges of the coordinator.
use rabbitmqtobucketqueue.Common.{
  ℕ, Option, none, some, List, [], ◌∷◌, Bool, Result, ok, err, Result-cases, Unit₀, inl, inr, ◌≡◌,
  refl, false, true,
}
use rabbitmqtobucketqueue.Bucket.Defs.{
  Message, Item, DeserializedMessage, Env, Bucket, Failure, error_event, invalid_event,
}
use rabbitmqtobucketqueue.Bucket.Calls.{increment, nack_unawaited}
use rabbitmqtobucketqueue.Bucket.Items.{
  deserialize_failed, deserialize, deserialize_all, validate_failed, invalid, validate,
  validate_defined, validate_all,
}
use rabbitmqtobucketqueue.Bucket.Tick.{count_or_die, flow}
use rabbitmqtobucketqueue.Bucket.Frame.{
  Frame, do_nack-Frame, increment-Frame, handle_fatal_error-Frame,
}

module _ {W C T : Type 0} (env : Env W C T) (R : Bucket W C T → Bucket W C T → Type 0)
    (f : Frame env R) where
  infixr 5 ◌⨾◌
  ◌⨾◌ : {s t u : Bucket W C T} → R s t → R t u → R s u
  ◌⨾◌ {s} {t} {u} a b = f.trans s t u a b

  nack_unawaited-Frame :
      (m : Message) (b : Bool) (s : Bucket W C T) → R s (nack_unawaited env m b s)
  unfolding nack_unawaited
  nack_unawaited-Frame m b s = do_nack-Frame env R f m b s

  deserialize-Frame : (m : Message) (s : Bucket W C T) → R s (deserialize env m s).1
  unfolding deserialize deserialize_failed
  deserialize-Frame m s = go env.options.deserialize_item refl
    where
      go :
          (g : Option (List ℕ → W → Result Failure T × W))
          → env.options.deserialize_item ≡ g
          → R s (deserialize env m s).1
      go none e = rw (e, deserialize) (f.here s)
      go (some g) e = elim (Result-cases (g m.content s.world).0) [
        | inl (a, e') ↦ rw (e, deserialize, e') (f.worlds _ s ⨾ f.interrupts _)
        | inr (x, e') ↦
            rw (e, deserialize, e')
              (f.worlds _ s
                ⨾ f.interrupts _
                ⨾ f.emits (error_event x) _
                ⨾ nack_unawaited-Frame m _ _)
      ]

  pub deserialize_all-Frame :
      (ms : List Message) (s : Bucket W C T) → R s (deserialize_all env ms s).1
  unfolding deserialize_all
  deserialize_all-Frame [] s = f.here s
  deserialize_all-Frame (m ∷ ms) s =
      deserialize-Frame m s ⨾ deserialize_all-Frame ms (deserialize env m s).1

  validate-Frame : (d : DeserializedMessage T) (s : Bucket W C T) → R s (validate env d s).1
  unfolding validate validate_failed invalid
  validate-Frame d s = go env.options.validate_item refl
    where
      go :
          (g : Option (Item T → W → Result Failure Bool × W))
          → env.options.validate_item ≡ g
          → R s (validate env d s).1
      go none e = rw (e, validate) (f.here s)
      go (some g) e = elim (Result-cases (g d.item s.world).0) [
        | inl (true, e') ↦ rw (e, validate, e') (f.worlds _ s ⨾ f.interrupts _)
        | inl (false, e') ↦
            rw (e, validate, e')
              (f.worlds _ s
                ⨾ f.interrupts _
                ⨾ f.emits (invalid_event d.item d.message) _
                ⨾ nack_unawaited-Frame d.message _ _)
        | inr (x, e') ↦
            rw (e, validate, e')
              (f.worlds _ s
                ⨾ f.interrupts _
                ⨾ f.emits (error_event x) _
                ⨾ nack_unawaited-Frame d.message _ _)
      ]

  pub validate_all-Frame :
      (ds : List (Option (DeserializedMessage T))) (s : Bucket W C T)
      → R s (validate_all env ds s).1
  unfolding validate_all validate_defined
  validate_all-Frame [] s = f.here s
  validate_all-Frame (none ∷ ds) s = validate_all-Frame ds s
  validate_all-Frame (some d ∷ ds) s =
      validate-Frame d s ⨾ validate_all-Frame ds (validate env d s).1

  pub count_or_die-Frame : (n : ℕ) (s : Bucket W C T) → R s (count_or_die env n s).1
  unfolding count_or_die
  count_or_die-Frame n s = elim (Result-cases (increment env n s).0) [
    | inl (u, e) ↦ rw (e, count_or_die) (increment-Frame env R f n s)
    | inr (x, e) ↦
        rw (e, count_or_die) (increment-Frame env R f n s ⨾ handle_fatal_error-Frame env R f x _)
  ]

  pub flow-state : (r : Result Failure Unit₀ × Bucket W C T) → (flow env r).1 ≡ r.1
  flow-state (ok u, s) = refl
  flow-state (err e, s) = refl
