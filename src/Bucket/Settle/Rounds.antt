-- ===== src/Bucket/Settle/Rounds.antt =====
-- A tick, and any number of rounds of the loop, settle what they take.
use rabbitmqtobucketqueue.Common.{
  ℕ, zero, suc, ◌+◌, ◌<◌, ◌≡◌, ◌≢◌, ◌⊎◌, none, some, false, Bool-cases, Result-cases, inl, inr, ltb,
  not, ◌&&◌, arith,
}
use rabbitmqtobucketqueue.Coordinator.{Number}
use rabbitmqtobucketqueue.Bucket.Defs.{Env, Bucket, emit, tick_event}
use rabbitmqtobucketqueue.Bucket.Calls.{interrupted}
use rabbitmqtobucketqueue.Bucket.Tick.{
  spill, report, schedule, end_tick, spill_balance, tick_with, tick, fire, rounds,
}
use rabbitmqtobucketqueue.Bucket.Settle.Counts.{
  gots, settles, Moves, Responds, interrupted-Moves, handle_fatal_error-Moves,
}
use rabbitmqtobucketqueue.Bucket.Settle.Chunks.{spill-settles}

module _ {W C T : Type 0} (env : Env W C T) (t : ℕ) where
  -- What was taken since is settled since.
  abbrev pub IsSettled : Bucket W C T → Bucket W C T → Type 0
  IsSettled s s' = settles t s'.trace + gots t s.trace ≡ gots t s'.trace + settles t s.trace

  schedule-Moves : (s : Bucket W C T) → Moves t s (schedule env s) 0 0
  unfolding schedule
  schedule-Moves s = ground arith

  report-Moves : (b e : Number) (s : Bucket W C T) → Moves t s (report env b e s) 0 0
  unfolding report
  report-Moves b none s = ground arith
  report-Moves none (some e) s = ground arith
  report-Moves (some b) (some e) s = ground arith

  end_tick-Moves : (balance : Number) (s : Bucket W C T) → Moves t s (end_tick env balance s).1 0 0
  unfolding end_tick
  end_tick-Moves balance s =
      let s₀ : Bucket W C T = record s { coordinator = (env.driver.balance s.coordinator).1 } in
      let s' : Bucket W C T = interrupted env s₀ in
      let same = interrupted-Moves env t s₀ in
      elim (Result-cases (env.driver.balance s.coordinator).0) [
        | inl (b, e) ↦
            ground
              (arith, same, report-Moves balance b s', schedule-Moves (report env balance b s'))
        | inr (x, e) ↦ ground (arith, same, handle_fatal_error-Moves env t x s')
      ]

  module _ (h : Responds env)
      (handled : (env.options.on_spill ≢ none) ⊎ (env.options.on_item ≢ none))
      (size : 0 < env.options.chunk_size) where
    tick_with-IsSettled :
        (balance : Number) (s : Bucket W C T) → IsSettled s (tick_with env balance s).1
    unfolding tick_with spill_balance
    tick_with-IsSettled none s = ground (arith, end_tick-Moves none s)
    tick_with-IsSettled (some balance) s = elim (Bool-cases (not s.corked && ltb 0 balance)) [
      | inl spills ↦ ground (
        arith,
        spill-settles env h t handled size balance s,
        end_tick-Moves (some balance) (spill env balance s).1,
      )
      | inr idle ↦ ground (arith, end_tick-Moves (some balance) s)
    ]

    tick-IsSettled : (s : Bucket W C T) → IsSettled s (tick env s).1
    unfolding tick
    tick-IsSettled s =
        let s₀ : Bucket W C T = record s { coordinator = (env.driver.balance s.coordinator).1 } in
        let s' : Bucket W C T = interrupted env s₀ in
        let same = interrupted-Moves env t s₀ in
        elim (Result-cases (env.driver.balance s.coordinator).0) [
          | inl (b, e) ↦ ground (arith, same, tick_with-IsSettled b (emit (tick_event b) s'))
          | inr (x, e) ↦ ground (arith, same, handle_fatal_error-Moves env t x s')
        ]

    fire-IsSettled : (s : Bucket W C T) → IsSettled s (fire env s)
    unfolding fire
    fire-IsSettled s = ground (arith, tick-IsSettled (record s { immediate = false }))

    -- While RabbitMQ answers and no increment fails, and `onSpill` or `onItem` is configured and the
    -- chunk size is at least 1: after any number of rounds of the loop, each delivery (told apart
    -- by its tag) has been acked or nacked as often as it was taken from the queue, whatever the
    -- deserializer, the validator and the callbacks return or throw, also if the balance cannot be
    -- read, and if other code corks or uncorks the consumer while a round awaits.
    pub rounds-IsSettled : (n : ℕ) (s : Bucket W C T) → IsSettled s (rounds env n s)
    unfolding rounds
    rounds-IsSettled zero s = ground arith
    rounds-IsSettled (suc n) s = omega (arith, fire-IsSettled s, rounds-IsSettled n (fire env s))
