-- ===== src/Coordinator/Redis/Timed.antt =====
-- The Redis coordinator of one instance, over keys that other instances set and delete, and a
-- Redis that may fail to answer.
use rabbitmqtobucketqueue.Common.{
  ℕ, zero, suc, ◌+◌, ◌-◌, ◌*◌, ◌/◌, ◌≤◌, ◌≡◌, refl, Bool, true, false, not, ◌&&◌, if◌then◌else◌,
  ◌==◌, List, [], ◌∷◌, filter, length, some, String, Result, Unit₀, ok, err, arith, Bool-cases, inl,
  inr,
}
use rabbitmqtobucketqueue.Coordinator.{Number}
use rabbitmqtobucketqueue.Coordinator.Shared.{Store, Counts}
use rabbitmqtobucketqueue.Coordinator.Redis.{
  Entry, same_key, is_live, Redis, RedisCoordinator, increment, reset, get_balance,
}
use rabbitmqtobucketqueue.Coordinator.Redis.Expiry.{total, get_balance-unexpired}

-- A call of another instance: it draws no uuid that this instance draws.
pub data Foreign (mine : String → Bool) : Type 0 where
  increments : RedisCoordinator → (uuid : String) → ℕ → mine uuid ≡ false → Foreign mine
  resets : RedisCoordinator → Foreign mine

-- A coordinator and Redis.
pub record Held (D : Type 0) : Type 0 where
  pub coordinator : RedisCoordinator
  pub keys : D

module _ (mine : String → Bool) {D : Type 0} (redis : Redis D) where
  abbrev pub foreign : ℕ → Foreign mine → D → D
  foreign t (increments c uuid n other) d = (increment redis c t uuid n d).1
  foreign t (resets c) d = reset redis c t d

  module _ {E : Type 0} (failure : E) (refused : String → E) where
    -- A call that is not answered rejects, and changes nothing. `lasts` is the time between KEYS and
    -- MGET.
    abbrev pub balance_with : Bool → ℕ → ℕ → Held D → Result E Number
    balance_with answers now lasts s =
        if answers
        then ok (get_balance redis s.coordinator now (now + lasts) s.keys)
        else err failure

    -- What Redis answers an increment.
    abbrev pub answered : Result String Unit₀ → Result E Unit₀
    answered (ok u) = ok u
    answered (err e) = err (refused e)

    abbrev pub increment_with : Bool → ℕ → String → ℕ → Held D → Result E Unit₀ × Held D
    increment_with answers now uuid n s =
        if answers
        then (let (r, d) = increment redis s.coordinator now uuid n s.keys in
            (answered r, record s { keys = d }))
        else (err failure, s)

    abbrev pub reset_with : Bool → ℕ → Held D → Result E Unit₀ × Held D
    reset_with answers now s =
        if answers
        then (ok tt, record s { keys = reset redis s.coordinator now s.keys })
        else (err failure, s)

    -- `shutdown` is inherited, and does nothing.
    unfoldable pub redis_store : Store E (Held D) (Foreign mine)
    redis_store = record {
      get_balance = λ now lasts answers s. (balance_with answers now lasts s, s);
      increment = λ now answers uuid n s. increment_with answers now uuid n s;
      reset = λ now answers s. reset_with answers now s;
      shutdown = λ s. (ok tt, s);
      foreign = λ t x s. record s { keys = foreign t x s.keys };
    }

  -- What this instance has counted for the queue in keys that have not expired, and the quota.
  abbrev pub counted : ℕ → Held D → ℕ
  counted now s =
      total redis
        (filter (λ e. mine e.uuid && is_live s.coordinator.queue now e) (redis.entries s.keys))

  abbrev pub quota : Held D → ℕ
  quota s = s.coordinator.max_batch

module _ (mine : String → Bool) {D : Type 0} (redis : Redis D) where
  -- The count of an instance among entries, at a time.
  own : String → ℕ → List Entry → ℕ
  own q now es = total redis (filter (λ e. mine e.uuid && is_live q now e) es)

  own-filter :
      (q : String) (now : ℕ) (f : Entry → Bool) (es : List Entry)
      → own q now (filter f es) ≤ own q now es
  unfolding own
  own-filter q now f [] = omega arith
  own-filter q now f (e ∷ es) = let later = own-filter q now f es in ground (arith, later)

  own-later :
      (q : String) (now passed : ℕ) (es : List Entry) → own q (now + passed) es ≤ own q now es
  unfolding own
  own-later q now passed [] = omega arith
  own-later q now passed (e ∷ es) = let later = own-later q now passed es in ground (arith, later)

  own-all :
      (q : String) (now : ℕ) (es : List Entry)
      → own q now es ≤ total redis (filter (is_live q now) es)
  unfolding own
  own-all q now [] = omega arith
  own-all q now (e ∷ es) = let later = own-all q now es in ground (arith, later)

  own-cons :
      (q : String) (now : ℕ) (e : Entry) (es : List Entry)
      → (own q now (e ∷ es) ≤ own q now es + redis.parse_int e.value)
        × (mine e.uuid ≡ false → own q now (e ∷ es) ≤ own q now es)
  unfolding own
  own-cons q now e es = (ground arith, λ other. ground (arith, other))

  reset-own :
      (q : String) (now t : ℕ) (c : RedisCoordinator) (d : D)
      → own q now (redis.entries (reset redis c t d)) ≤ own q now (redis.entries d)
  unfolding reset
  reset-own q now t c d = elim (Bool-cases (length (redis.keys c.queue t d) == 0)) [
    | inl empty ↦ rw empty (omega arith)
    | inr some_keys ↦ rw (some_keys, redis.entries-del) (own-filter q now _ (redis.entries d))
  ]

  -- A key adds at most its count, and nothing if another instance sets it.
  increment-own :
      (q : String) (now t n : ℕ) (uuid : String) (c : RedisCoordinator) (d : D)
      → let d' = (increment redis c t uuid n d).1 in
        (own q now (redis.entries d') ≤ own q now (redis.entries d) + n)
        × (mine uuid ≡ false → own q now (redis.entries d') ≤ own q now (redis.entries d))
  unfolding increment
  increment-own q now t n uuid c d = of (c.interval / 1000)
    where
      of :
          (seconds : ℕ)
          → let d' = (redis.setex c.queue uuid seconds (redis.to_text n) t d).1 in
            (own q now (redis.entries d') ≤ own q now (redis.entries d) + n)
            × (mine uuid ≡ false → own q now (redis.entries d') ≤ own q now (redis.entries d))
      of zero =
          let nothing = redis.setex-zero c.queue uuid (redis.to_text n) t d in
          rw nothing (omega arith, λ other. omega arith)
      of (suc k) =
          let e : Entry = record {
            queue = c.queue;
            uuid = uuid;
            value = redis.to_text n;
            expires_at = t + (suc k) * 1000;
          } in
          let others = filter (λ x. not (same_key e x)) (redis.entries d) in
          let added = own-cons q now e others in
          let less = own-filter q now (λ x. not (same_key e x)) (redis.entries d) in
          let stored =
            (redis.entries-setex c.queue uuid (suc k) (redis.to_text n) t d (omega arith)).1 in
          rw stored (
            omega (arith, added.0, less, redis.parse_int-to_text n),
            λ other. omega (arith, added.1 other, less),
          )

  foreign-own :
      (q : String) (now t : ℕ) (x : Foreign mine) (d : D)
      → own q now (redis.entries (foreign mine redis t x d)) ≤ own q now (redis.entries d)
  foreign-own q now t (increments c uuid n other) d = (increment-own q now t n uuid c d).1 other
  foreign-own q now t (resets c) d = reset-own q now t c d

  balance-own :
      (c : RedisCoordinator) (now lasts b : ℕ) (d : D)
      → get_balance redis c now (now + lasts) d ≡ some b
      → b ≤ c.max_batch - own c.queue now (redis.entries d)
  balance-own c now lasts b d e =
      let all = own-all c.queue now (redis.entries d) in
      let read = get_balance-unexpired redis c now (now + lasts) d in ground (arith, all, read, e)

  module _ {E : Type 0} (failure : E) (refused : String → E) where
    balance_with-left :
        (answers : Bool) (now lasts b : ℕ) (s : Held D)
        → balance_with mine redis failure refused answers now lasts s ≡ ok (some b)
        → b ≤ quota mine redis s - own s.coordinator.queue now (redis.entries s.keys)
    balance_with-left false now lasts b s e = absurd (ground (arith, e))
    balance_with-left true now lasts b s e =
        balance-own s.coordinator now lasts b s.keys (ground (arith, e))

    increment_with-used :
        (answers : Bool) (now n : ℕ) (uuid : String) (s : Held D)
        → let s' = (increment_with mine redis failure refused answers now uuid n s).1 in
          (counted mine redis now s' ≤ counted mine redis now s + n)
          × (quota mine redis s' ≡ quota mine redis s)
    increment_with-used false now n uuid s = (omega arith, refl)
    increment_with-used true now n uuid s = (
      unfold own in (increment-own s.coordinator.queue now now n uuid s.coordinator s.keys).0,
      refl,
    )

    reset_with-used :
        (answers : Bool) (now : ℕ) (s : Held D)
        → let s' = (reset_with mine redis failure refused answers now s).1 in
          (counted mine redis now s' ≤ counted mine redis now s)
          × (quota mine redis s' ≡ quota mine redis s)
    reset_with-used false now s = (omega arith, refl)
    reset_with-used true now s =
        (unfold own in reset-own s.coordinator.queue now now s.coordinator s.keys, refl)

    pub redis-Counts :
        Counts mine (redis_store mine redis failure refused) (counted mine redis) (quota mine redis)
    unfolding redis_store own
    redis-Counts = record {
      later = λ now passed s. own-later s.coordinator.queue now passed (redis.entries s.keys);
      foreign_used = λ t now x s. (foreign-own s.coordinator.queue now t x s.keys, refl);
      balance_left = λ now lasts b a s e. balance_with-left a now lasts b s e;
      balance_used = λ now lasts a s. (omega arith, refl);
      increment_used = λ now n a uuid s drawn. increment_with-used a now n uuid s;
      reset_used = λ now a s. reset_with-used a now s;
      shutdown_used = λ now s. (omega arith, refl);
    }
