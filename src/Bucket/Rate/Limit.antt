-- ===== src/Bucket/Rate/Limit.antt =====
-- The limit holds over any number of rounds of one consumer.
use rabbitmqtobucketqueue.Common.{
  ℕ, zero, suc, ◌+◌, ◌≤◌, ◌<◌, ◌≡◌, none, some, ok, false, not, ◌&&◌, ltb, Bool-cases, Result-cases,
  inl, inr, arith, refl,
}
use rabbitmqtobucketqueue.Coordinator.{Number}
use rabbitmqtobucketqueue.Bucket.Defs.{Env, Bucket, emit, tick_event}
use rabbitmqtobucketqueue.Bucket.Calls.{interrupted}
use rabbitmqtobucketqueue.Bucket.Rate.Untouched.{Meters, interrupted-Less}
use rabbitmqtobucketqueue.Bucket.Tick.{
  spill, report, schedule, end_tick, spill_balance, tick_with, tick, fire, rounds,
}
use rabbitmqtobucketqueue.Bucket.Rate.Charges.{Charges, handle_fatal_error-Charges, spill-Charges}

module _ {W C T : Type 0} (env : Env W C T) (used limit : C → ℕ)
    (meter : Meters env.driver used limit) (size : 0 < env.options.chunk_size) where
  -- The limit is the one before, and what is used is within it.
  abbrev pub IsWithin : Bucket W C T → Bucket W C T → Type 0
  IsWithin s s' =
      (used s'.coordinator ≤ limit s'.coordinator) × (limit s'.coordinator ≡ limit s.coordinator)

  schedule-coordinator : (s : Bucket W C T) → (schedule env s).coordinator ≡ s.coordinator
  unfolding schedule
  schedule-coordinator s = ground arith

  report-coordinator :
      (b e : Number) (s : Bucket W C T) → (report env b e s).coordinator ≡ s.coordinator
  unfolding report
  report-coordinator b none s = refl
  report-coordinator none (some e) s = ground arith
  report-coordinator (some b) (some e) s = ground arith

  end_tick-Charges :
      (balance : Number) (s : Bucket W C T)
      → Charges env used limit meter s (end_tick env balance s).1 0
  unfolding end_tick
  end_tick-Charges balance s =
      let s₀ : Bucket W C T = record s { coordinator = (env.driver.balance s.coordinator).1 } in
      let s' : Bucket W C T = interrupted env s₀ in
      let same = interrupted-Less env used limit meter s₀ in
      let read = meter.balance_used s.coordinator in
      elim (Result-cases (env.driver.balance s.coordinator).0) [
        | inl (b, e) ↦ ground (
          arith,
          read,
          same,
          report-coordinator balance b s',
          schedule-coordinator (report env balance b s'),
        )
        | inr (x, e) ↦
            ground (arith, read, same, handle_fatal_error-Charges env used limit meter x s')
      ]

  -- NaN allows nothing.
  abbrev allowed : Number → ℕ
  allowed none = 0
  allowed (some n) = n

  tick_with-Charges :
      (balance : Number) (s : Bucket W C T)
      → Charges env used limit meter s (tick_with env balance s).1 (allowed balance)
  unfolding tick_with spill_balance
  tick_with-Charges none s = ground (arith, end_tick-Charges none s)
  tick_with-Charges (some balance) s = elim (Bool-cases (not s.corked && ltb 0 balance)) [
    | inl spills ↦ ground (
      arith,
      spill-Charges env used limit meter size balance s,
      end_tick-Charges (some balance) (spill env balance s).1,
    )
    | inr idle ↦ ground (arith, end_tick-Charges (some balance) s)
  ]

  -- What a balance allows is within the limit.
  allowed-limit :
      (c : C) (b : Number)
      → (env.driver.balance c).0 ≡ ok b
      → used c ≤ limit c
      → used (env.driver.balance c).1 + allowed b ≤ limit c
  allowed-limit c none e h = omega (arith, meter.balance_used c, h)
  allowed-limit c (some b) e h = omega (arith, meter.balance_used c, meter.balance_left c b e, h)

  tick_limit :
      (s : Bucket W C T) → used s.coordinator ≤ limit s.coordinator → IsWithin s (tick env s).1
  unfolding tick
  tick_limit s h =
      let s₀ : Bucket W C T = record s { coordinator = (env.driver.balance s.coordinator).1 } in
      let s' : Bucket W C T = interrupted env s₀ in
      let same = interrupted-Less env used limit meter s₀ in
      let read = meter.balance_used s.coordinator in
      elim (Result-cases (env.driver.balance s.coordinator).0) [
        | inl (b, e) ↦ ground (
          arith,
          read,
          same,
          allowed-limit s.coordinator b e h,
          tick_with-Charges b (emit (tick_event b) s'),
        )
        | inr (x, e) ↦
            ground (arith, read, same, handle_fatal_error-Charges env used limit meter x s')
      ]

  -- One consumer whose coordinator meters a limit, with a chunk size of at least 1, never charges
  -- more than the limit, over any number of rounds of its loop: whatever RabbitMQ, the
  -- deserializer, the validator and the callbacks do, whichever calls fail, and also when it is
  -- corked, uncorked, purged, shut down or fails while a round awaits.
  pub rounds_limit :
      (n : ℕ) (s : Bucket W C T)
      → used s.coordinator ≤ limit s.coordinator
      → IsWithin s (rounds env n s)
  unfolding rounds fire
  rounds_limit zero s h = (h, refl)
  rounds_limit (suc n) s h =
      let fired : IsWithin s (fire env s) =
        ground (arith, tick_limit (record s { immediate = false })) in
      ground (arith, fired, rounds_limit n (fire env s) fired.0)
