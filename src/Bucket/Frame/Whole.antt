-- ===== src/Bucket/Frame/Whole.antt =====
-- A frame holds across the whole tick, and across the rounds of the loop.
use rabbitmqtobucketqueue.Common.{
  ℕ, Option, none, some, List, Bool-cases, Result, Result-cases, Unit₀, inl, inr, ◌≡◌, refl, not,
  ◌&&◌, ltb, ◌==◌, if◌then◌else◌,
}
use rabbitmqtobucketqueue.Coordinator.{Number}
use rabbitmqtobucketqueue.Bucket.Defs.{
  Item, DeserializedMessage, Env, Bucket, Failure, emit, spill_event, tick_event, drain_event,
  finish_event, Flow, next, stop, rejected,
}
use rabbitmqtobucketqueue.Bucket.Calls.{get_messages}
use rabbitmqtobucketqueue.Bucket.Tick.{
  consume, spill, is_number, report, end_tick, spill_balance, tick_with, tick,
}
use rabbitmqtobucketqueue.Bucket.Frame.{
  Frame, get_messages-Frame, handle_fatal_error-Frame, if-Frame,
}
use rabbitmqtobucketqueue.Bucket.Frame.Steps.{deserialize_all-Frame, validate_all-Frame}
use rabbitmqtobucketqueue.Bucket.Frame.Spill.{spill_chunks-Frame, item_chunks-Frame}

module _ {W C T : Type 0} (env : Env W C T) (R : Bucket W C T → Bucket W C T → Type 0)
    (f : Frame env R) where
  infixr 5 ◌⨾◌
  ◌⨾◌ : {s t u : Bucket W C T} → R s t → R t u → R s u
  ◌⨾◌ {s} {t} {u} a b = f.trans s t u a b

  consume-Frame :
      (items : List (DeserializedMessage T)) (s : Bucket W C T) → R s (consume env items s).1
  unfolding consume
  consume-Frame items s = go env.options.on_spill env.options.on_item refl refl
    where
      go :
          (g : Option (List (DeserializedMessage T) → W → Result Failure Unit₀ × W))
          (h : Option (Item T → W → Result Failure Unit₀ × W))
          → env.options.on_spill ≡ g
          → env.options.on_item ≡ h
          → R s (consume env items s).1
      go (some g) h e e' = rw (e, consume) (spill_chunks-Frame env R f _ s)
      go none (some h) e e' = rw (e, consume, e') (item_chunks-Frame env R f _ s)
      go none none e e' = rw (e, consume, e') (f.here s)

  spill-Frame : (balance : ℕ) (s : Bucket W C T) → R s (spill env balance s).1
  unfolding spill
  spill-Frame balance s =
      let s₀ : Bucket W C T = emit (spill_event balance) s in
      let taken = f.emits (spill_event balance) s ⨾ get_messages-Frame env R f balance s₀ in
      elim (Result-cases (get_messages env balance s₀).0) [
        | inl (ms, e) ↦
            rw (e, spill)
              (taken
                ⨾ deserialize_all-Frame env R f ms _
                ⨾ validate_all-Frame env R f _ _
                ⨾ consume-Frame _ _)
        | inr (x, e) ↦ rw (e, spill) taken
      ]

  report-Frame : (b e : Number) (s : Bucket W C T) → R s (report env b e s)
  unfolding report
  report-Frame b none s = f.here s
  report-Frame b (some e) s =
      if-Frame env R f (is_number env b e) (f.here s)
        (if-Frame env R f (e == 0) (drains ⨾ f.emits finish_event _) drains)
    where
      drains : R s (if ltb e env.options.max_batch then emit drain_event s else s)
      drains = if-Frame env R f (ltb e env.options.max_batch) (f.emits drain_event s) (f.here s)

  end_tick-Frame : (balance : Number) (s : Bucket W C T) → R s (end_tick env balance s).1
  unfolding end_tick
  end_tick-Frame balance s = elim (Result-cases (env.driver.balance s.coordinator).0) [
    | inl (b, e) ↦
        rw (e, end_tick)
          (f.coordinators _ s ⨾ f.interrupts _ ⨾ report-Frame balance b _ ⨾ f.schedules _)
    | inr (x, e) ↦
        rw (e, end_tick)
          (f.coordinators _ s ⨾ f.interrupts _ ⨾ handle_fatal_error-Frame env R f x _)
  ]

  spill_balance-Frame : (balance : Number) (s : Bucket W C T) → R s (spill_balance env balance s).1
  unfolding spill_balance
  spill_balance-Frame none s = f.here s
  spill_balance-Frame (some balance) s = elim (Bool-cases (not s.corked && ltb 0 balance)) [
    | inl h ↦ rw (h, spill_balance) (spill-Frame balance s)
    | inr h ↦ rw (h, spill_balance) (f.here s)
  ]

  tick_with-Frame : (balance : Number) (s : Bucket W C T) → R s (tick_with env balance s).1
  unfolding tick_with
  tick_with-Frame balance s = go (spill_balance env balance s).0 refl
    where
      go : (b : Flow) → (spill_balance env balance s).0 ≡ b → R s (tick_with env balance s).1
      go next h = rw (h, tick_with) (spill_balance-Frame balance s ⨾ end_tick-Frame balance _)
      go stop h = rw (h, tick_with) (spill_balance-Frame balance s)
      go (rejected x) h = rw (h, tick_with) (spill_balance-Frame balance s)

  pub tick-Frame : (s : Bucket W C T) → R s (tick env s).1
  unfolding tick
  tick-Frame s = elim (Result-cases (env.driver.balance s.coordinator).0) [
    | inl (b, e) ↦
        rw (e, tick)
          (f.coordinators _ s ⨾ f.interrupts _ ⨾ f.emits (tick_event b) _ ⨾ tick_with-Frame b _)
    | inr (x, e) ↦
        rw (e, tick) (f.coordinators _ s ⨾ f.interrupts _ ⨾ handle_fatal_error-Frame env R f x _)
  ]
