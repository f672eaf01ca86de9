-- ===== src/Bucket/Rate/Shared.antt =====
-- The limit for a coordinator whose instances share their counts.
use rabbitmqtobucketqueue.Common.{
  ℕ, ◌+◌, ◌≤◌, ◌<◌, ◌≡◌, ◌∙◌, refl, Bool, String, List, [], ◌∷◌, arith,
}
use rabbitmqtobucketqueue.Coordinator.Shared.{
  Store, Timed, Counts, all_foreign, next, arrive, shared_driver,
}
use rabbitmqtobucketqueue.Bucket.Defs.{Env, Bucket, Failure}
use rabbitmqtobucketqueue.Bucket.Tick.{rounds}
use rabbitmqtobucketqueue.Bucket.Rate.Untouched.{Meters}
use rabbitmqtobucketqueue.Bucket.Rate.Limit.{rounds_limit}

module _ {mine : String → Bool} {D X : Type 0} (store : Store Failure D X) (used : ℕ → D → ℕ)
    (limit : D → ℕ) (counts : Counts mine store used limit) where
  -- What is used at the time of the state, and the limit.
  abbrev pub used_now : Timed mine D X → ℕ
  used_now s = used s.now s.store

  abbrev pub limit_now : Timed mine D X → ℕ
  limit_now s = limit s.store

  all_foreign-used :
      (t now : ℕ) (xs : List X) (d : D)
      → let d' = all_foreign store t xs d in (used now d' ≤ used now d) × (limit d' ≡ limit d)
  unfolding all_foreign
  all_foreign-used t now [] d = (omega arith, refl)
  all_foreign-used t now (x ∷ xs) d =
      let first = counts.foreign_used t now x d in
      let others = all_foreign-used t now xs (store.foreign t x d) in
      (omega (arith, first, others), others.1 ∙ first.1)

  -- No more is used, and the limit is the same.
  abbrev IsLess : Timed mine D X → Timed mine D X → Type 0
  IsLess s s' = (used_now s' ≤ used_now s) × (limit_now s' ≡ limit_now s)

  arrive-IsLess : (s : Timed mine D X) → IsLess s (arrive store s)
  unfolding arrive
  arrive-IsLess s =
      let t = s.now + (next store s).passed in
      let others = all_foreign-used t t (next store s).others s.store in
      let later = counts.later s.now (next store s).passed s.store in
      (omega (arith, others, later), others.1)

  pub shared-Meters : Meters (shared_driver store) used_now limit_now
  unfolding shared_driver
  shared-Meters = record {
    balance_left = λ s b e.
        let a = arrive store s in
        let v = next store s in
        let d = (store.get_balance a.now v.lasts v.answers a.store).1 in
        let read = counts.balance_left a.now v.lasts b v.answers a.store e in
        let kept = counts.balance_used a.now v.lasts v.answers a.store in
        omega (arith, read, kept.0, counts.later a.now v.lasts d, arrive-IsLess s);
    balance_used = λ s.
        let a = arrive store s in
        let v = next store s in
        let d = (store.get_balance a.now v.lasts v.answers a.store).1 in
        let kept = counts.balance_used a.now v.lasts v.answers a.store in
        (
          omega (arith, kept.0, counts.later a.now v.lasts d, arrive-IsLess s),
          kept.1 ∙ (arrive-IsLess s).1,
        );
    increment_used = λ n s.
        let a = arrive store s in
        let v = next store s in
        let d = (store.increment a.now v.answers v.uuid n a.store).1 in
        let added = counts.increment_used a.now n v.answers v.uuid a.store v.drawn in
        (
          omega (arith, added.0, counts.later a.now v.lasts d, arrive-IsLess s),
          added.1 ∙ (arrive-IsLess s).1,
        );
    reset_used = λ s.
        let a = arrive store s in
        let v = next store s in
        let d = (store.reset a.now v.answers a.store).1 in
        let kept = counts.reset_used a.now v.answers a.store in
        (
          omega (arith, kept.0, counts.later a.now v.lasts d, arrive-IsLess s),
          kept.1 ∙ (arrive-IsLess s).1,
        );
    shutdown_used = λ s.
        let kept = counts.shutdown_used s.now s.store in
        (omega (arith, kept.0, counts.later s.now 0 (store.shutdown s.store).1), kept.1);
  }

  -- A consumer stays within the limit.
  pub rounds-shared :
      {W T : Type 0} (env : Env W (Timed mine D X) T)
      → env.driver ≡ shared_driver store
      → 0 < env.options.chunk_size
      → (n : ℕ) (s : Bucket W (Timed mine D X) T) → used_now s.coordinator ≤ limit_now s.coordinator
      → let s' = rounds env n s in
        (used_now s'.coordinator ≤ limit_now s'.coordinator)
        × (limit_now s'.coordinator ≡ limit_now s.coordinator)
  rounds-shared env e size n s h =
      rounds_limit env used_now limit_now (rw e shared-Meters) size n s h
