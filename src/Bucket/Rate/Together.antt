-- ===== src/Bucket/Rate/Together.antt =====
-- The limit for consumers that share a coordinator's queue, quota, interval and table, as several
-- processes whose clocks agree do: they see one state and one time, and their rounds do not overlap.
use rabbitmqtobucketqueue.Common.{
  ℕ, zero, suc, ◌≤◌, ◌<◌, ◌≡◌, ◌∙◌, refl, Bool, true, List, [], ◌∷◌, filter, String,
}
use rabbitmqtobucketqueue.Coordinator.Shared.{Timed, shared_driver}
use rabbitmqtobucketqueue.Coordinator.Database.{sum, Sql, is_live}
use rabbitmqtobucketqueue.Coordinator.Database.Timed.{
  Held, Foreign, quota, counted, database_store, database-Counts,
}
use rabbitmqtobucketqueue.Bucket.Defs.{Env, Bucket, Failure}
use rabbitmqtobucketqueue.Bucket.Tick.{fire, rounds}
use rabbitmqtobucketqueue.Bucket.Rate.Untouched.{Meters}
use rabbitmqtobucketqueue.Bucket.Rate.Limit.{rounds_limit}
use rabbitmqtobucketqueue.Bucket.Rate.Shared.{shared-Meters}

-- A consumer, whose bucket has the state of the coordinator as it last saw it.
pub record Member (W C T : Type 0) : Type 0 where
  pub env : Env W C T
  pub bucket : Bucket W C T

-- The limit is the one before, and what is used is within it.
abbrev Within : {C : Type 0} → (C → ℕ) → (C → ℕ) → C → C → Type 0
Within used limit c c' = (used c' ≤ limit c') × (limit c' ≡ limit c)

module _ {W C T : Type 0} where
  -- The event loop of the member at an index runs, with the coordinator and the time as they are now,
  -- which are the same for all members.
  unfoldable pub turn : ℕ → C → List (Member W C T) → C × List (Member W C T)
  turn i c [] = (c, [])
  turn zero c (m ∷ ms) =
      let s = fire m.env (record m.bucket { coordinator = c }) in
      (s.coordinator, record m { bucket = s } ∷ ms)
  turn (suc i) c (m ∷ ms) = let (c', ms') = turn i c ms in (c', m ∷ ms')

  -- Rounds one after the other, in any order.
  unfoldable pub turns : List ℕ → C → List (Member W C T) → C × List (Member W C T)
  unfolding turn
  turns [] c ms = (c, ms)
  turns (i ∷ is) c ms = let (c', ms') = turn i c ms in turns is c' ms'

  module _ (used limit : C → ℕ) where
    -- The coordinators of all members meter the same.
    abbrev AllMeter : List (Member W C T) → Type 0
    AllMeter [] = Unit {0}
    AllMeter (m ∷ ms) =
        (Meters m.env.driver used limit × (0 < m.env.options.chunk_size)) × AllMeter ms

    turn-limit :
        (i : ℕ) (c : C) (ms : List (Member W C T))
        → AllMeter ms
        → used c ≤ limit c
        → Within used limit c (turn i c ms).0 × AllMeter (turn i c ms).1
    unfolding turn
    turn-limit i c [] h k = ((k, refl), h)
    turn-limit zero c (m ∷ ms) (h, hs) k = (
      unfold rounds in
          rounds_limit m.env used limit h.0 h.1 1 (record m.bucket { coordinator = c }) k,
      (h, hs),
    )
    turn-limit (suc i) c (m ∷ ms) (h, hs) k =
        let (within, later) = turn-limit i c ms hs k in (within, (h, later))

    turns-limit :
        (is : List ℕ) (c : C) (ms : List (Member W C T))
        → AllMeter ms
        → used c ≤ limit c
        → Within used limit c (turns is c ms).0
    unfolding turns
    turns-limit [] c ms h k = (k, refl)
    turns-limit (i ∷ is) c ms h k =
        let (within, later) = turn-limit i c ms h k in
        let rest = turns-limit is (turn i c ms).0 (turn i c ms).1 later within.0 in
        (rest.0, rest.1 ∙ within.1)

-- Every uuid is one of these consumers'.
abbrev pub anyone : String → Bool
anyone uuid = true

module _ {D : Type 0} (sql : Sql D) (failure : Failure) where
  -- The consumers use the database coordinator and chunks of at least 1.
  abbrev pub AllUse :
      {W T : Type 0} → List (Member W (Timed anyone (Held D) (Foreign anyone)) T) → Type 0
  AllUse [] = Unit {0}
  AllUse (m ∷ ms) =
      ((m.env.driver ≡ shared_driver (database_store anyone sql failure))
        × (0 < m.env.options.chunk_size))
      × AllUse ms

  AllUse-AllMeter :
      {W T : Type 0} (ms : List (Member W (Timed anyone (Held D) (Foreign anyone)) T))
      → AllUse ms
      → AllMeter (λ s. counted anyone sql s.now s.store) (λ s. quota anyone sql s.store) ms
  AllUse-AllMeter [] h = tt
  AllUse-AllMeter (m ∷ ms) ((e, size), hs) =
      let meters =
        shared-Meters (database_store anyone sql failure) (counted anyone sql) (quota anyone sql)
          (database-Counts anyone sql failure) in
      ((rw e meters, size), AllUse-AllMeter ms hs)

  -- What has been counted for the queue and has not expired, whoever counted it.
  abbrev pub all_counted : Timed anyone (Held D) (Foreign anyone) → ℕ
  all_counted s = sum (filter (is_live s.store.database.queue s.now) (sql.rows s.store.table))

  -- Any number of consumers with the same queue, table, quota and interval and chunk sizes of at
  -- least 1, whose clocks agree, together stay within the quota if they start within it and their
  -- rounds do not overlap, in whichever order they run: time passes, other processes reset and
  -- declutter, and calls fail.
  pub turns-together :
      {W T : Type 0} (is : List ℕ) (c : Timed anyone (Held D) (Foreign anyone))
      (ms : List (Member W (Timed anyone (Held D) (Foreign anyone)) T))
      → AllUse ms
      → all_counted c ≤ c.store.database.max_batch
      → let c' = (turns is c ms).0 in
        (all_counted c' ≤ c'.store.database.max_batch)
        × (c'.store.database.max_batch ≡ c.store.database.max_batch)
  turns-together is c ms h k =
      turns-limit (λ s. counted anyone sql s.now s.store) (λ s. quota anyone sql s.store) is c ms
        (AllUse-AllMeter ms h) k
