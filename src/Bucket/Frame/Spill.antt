-- ===== src/Bucket/Frame/Spill.antt =====
-- A frame holds across the hand-over of the items.
use rabbitmqtobucketqueue.Common.{
  ℕ, Option, none, some, List, [], ◌∷◌, Bool-cases, Result, Result-cases, Unit₀, inl, inr, ◌≡◌,
  refl, length,
}
use rabbitmqtobucketqueue.Bucket.Defs.{
  Item, DeserializedMessage, Env, Bucket, Failure, reenqueue, counts_toward_balance, emit,
  error_event, Flow, next, stop, rejected,
}
use rabbitmqtobucketqueue.Bucket.Calls.{do_ack, do_ack_all}
use rabbitmqtobucketqueue.Bucket.Tick.{
  messages, do_spill, do_item, charge_failed, spill_failed, spill_chunk, item_failed, item_one,
  item_all, spill_chunks, item_chunks,
}
use rabbitmqtobucketqueue.Bucket.Frame.{
  Frame, call-Frame, do_ack-Frame, do_nack-Frame, do_ack_all-Frame, do_nack_all-Frame,
}
use rabbitmqtobucketqueue.Bucket.Frame.Steps.{count_or_die-Frame, flow-state}

module _ {W C T : Type 0} (env : Env W C T) (R : Bucket W C T → Bucket W C T → Type 0)
    (f : Frame env R) where
  infixr 5 ◌⨾◌
  ◌⨾◌ : {s t u : Bucket W C T} → R s t → R t u → R s u
  ◌⨾◌ {s} {t} {u} a b = f.trans s t u a b

  charge_failed-Frame : (e : Failure) (n : ℕ) (s : Bucket W C T) → R s (charge_failed env e n s).1
  unfolding charge_failed
  charge_failed-Frame e n s = elim (Bool-cases (counts_toward_balance e)) [
    | inl h ↦ rw (h, charge_failed) (count_or_die-Frame env R f n s)
    | inr h ↦ rw (h, charge_failed) (f.here s)
  ]

  spill_failed-Frame :
      (c : List (DeserializedMessage T)) (e : Failure) (s : Bucket W C T)
      → R s (spill_failed env c e s).1
  unfolding spill_failed
  spill_failed-Frame c e s = go (charge_failed env e (length c) s').0 refl
    where
      s' : Bucket W C T
      s' = emit (error_event e) s

      charged : R s (charge_failed env e (length c) s').1
      charged = f.emits (error_event e) s ⨾ charge_failed-Frame e (length c) s'

      go : (b : Flow) → (charge_failed env e (length c) s').0 ≡ b → R s (spill_failed env c e s).1
      go next h =
          rw (h, spill_failed, flow-state env R f)
            (charged ⨾ do_nack_all-Frame env R f (messages env c) (reenqueue e) _)
      go stop h = rw (h, spill_failed) charged
      go (rejected x) h = rw (h, spill_failed) charged

  item_failed-Frame :
      (d : DeserializedMessage T) (e : Failure) (s : Bucket W C T) → R s (item_failed env d e s).1
  unfolding item_failed
  item_failed-Frame d e s = go (charge_failed env e 1 s).0 refl
    where
      charged : R s (charge_failed env e 1 s).1
      charged = charge_failed-Frame e 1 s

      go : (b : Flow) → (charge_failed env e 1 s).0 ≡ b → R s (item_failed env d e s).1
      go next h =
          rw (h, item_failed, flow-state env R f)
            (charged ⨾ f.emits (error_event e) _ ⨾ do_nack-Frame env R f d.message (reenqueue e) _)
      go stop h = rw (h, item_failed) charged
      go (rejected x) h = rw (h, item_failed) charged

  do_spill-Frame : (c : List (DeserializedMessage T)) (s : Bucket W C T) → R s (do_spill env c s).1
  unfolding do_spill
  do_spill-Frame c s = go env.options.on_spill refl
    where
      go :
          (g : Option (List (DeserializedMessage T) → W → Result Failure Unit₀ × W))
          → env.options.on_spill ≡ g
          → R s (do_spill env c s).1
      go none e = rw (e, do_spill) (f.here s)
      go (some g) e = rw (e, do_spill) (call-Frame env R f (g c) _ (λ _ t. f.here t) s)

  do_item-Frame : (i : Item T) (s : Bucket W C T) → R s (do_item env i s).1
  unfolding do_item
  do_item-Frame i s = go env.options.on_item refl
    where
      go :
          (g : Option (Item T → W → Result Failure Unit₀ × W))
          → env.options.on_item ≡ g
          → R s (do_item env i s).1
      go none e = rw (e, do_item) (f.here s)
      go (some g) e = rw (e, do_item) (call-Frame env R f (g i) _ (λ _ t. f.here t) s)

  spill_chunk-Frame :
      (c : List (DeserializedMessage T)) (s : Bucket W C T) → R s (spill_chunk env c s).1
  unfolding spill_chunk
  spill_chunk-Frame c s =
      let s' : Bucket W C T = (do_spill env c s).1 in
      elim (Result-cases (do_spill env c s).0) [
        | inl (u, e) ↦ elim (Result-cases (do_ack_all env (messages env c) s').0) [
          | inl (v, e') ↦
              rw (e, spill_chunk, e')
                (do_spill-Frame c s
                  ⨾ do_ack_all-Frame env R f (messages env c) s'
                  ⨾ count_or_die-Frame env R f (length c) _)
          | inr (x, e') ↦
              rw (e, spill_chunk, e')
                (do_spill-Frame c s
                  ⨾ do_ack_all-Frame env R f (messages env c) s'
                  ⨾ spill_failed-Frame c x _)
        ]
        | inr (x, e) ↦ rw (e, spill_chunk) (do_spill-Frame c s ⨾ spill_failed-Frame c x s')
      ]

  item_one-Frame : (d : DeserializedMessage T) (s : Bucket W C T) → R s (item_one env d s).1
  unfolding item_one
  item_one-Frame d s =
      let s' : Bucket W C T = (do_item env d.item s).1 in
      elim (Result-cases (do_item env d.item s).0) [
        | inl (u, e) ↦ elim (Result-cases (do_ack env d.message s').0) [
          | inl (v, e') ↦
              rw (e, item_one, e')
                (do_item-Frame d.item s
                  ⨾ do_ack-Frame env R f d.message s'
                  ⨾ count_or_die-Frame env R f 1 _)
          | inr (x, e') ↦
              rw (e, item_one, e')
                (do_item-Frame d.item s
                  ⨾ do_ack-Frame env R f d.message s'
                  ⨾ item_failed-Frame d x _)
        ]
        | inr (x, e) ↦ rw (e, item_one) (do_item-Frame d.item s ⨾ item_failed-Frame d x s')
      ]

  item_all-Frame :
      (ds : List (DeserializedMessage T)) (s : Bucket W C T) → R s (item_all env ds s).1
  unfolding item_all
  item_all-Frame [] s = f.here s
  item_all-Frame (d ∷ ds) s = item_one-Frame d s ⨾ item_all-Frame ds (item_one env d s).1

  pub spill_chunks-Frame :
      (cs : List (List (DeserializedMessage T))) (s : Bucket W C T) → R s (spill_chunks env cs s).1
  unfolding spill_chunks
  spill_chunks-Frame [] s = f.here s
  spill_chunks-Frame (c ∷ cs) s =
      go (spill_chunk env c s).0 refl (spill_chunks-Frame cs (spill_chunk env c s).1)
    where
      go :
          (b : Flow)
          → (spill_chunk env c s).0 ≡ b
          → R (spill_chunk env c s).1 (spill_chunks env cs (spill_chunk env c s).1).1
          → R s (spill_chunks env (c ∷ cs) s).1
      go next h rest = rw (h, spill_chunks) (spill_chunk-Frame c s ⨾ rest)
      go stop h rest = rw (h, spill_chunks) (spill_chunk-Frame c s)
      go (rejected x) h rest = rw (h, spill_chunks) (spill_chunk-Frame c s)

  pub item_chunks-Frame :
      (cs : List (List (DeserializedMessage T))) (s : Bucket W C T) → R s (item_chunks env cs s).1
  unfolding item_chunks
  item_chunks-Frame [] s = f.here s
  item_chunks-Frame (c ∷ cs) s =
      go (item_all env c s).0 refl (item_chunks-Frame cs (item_all env c s).1)
    where
      go :
          (b : Flow)
          → (item_all env c s).0 ≡ b
          → R (item_all env c s).1 (item_chunks env cs (item_all env c s).1).1
          → R s (item_chunks env (c ∷ cs) s).1
      go next h rest = rw (h, item_chunks) (item_all-Frame c s ⨾ rest)
      go stop h rest = rw (h, item_chunks) (item_all-Frame c s)
      go (rejected x) h rest = rw (h, item_chunks) (item_all-Frame c s)
