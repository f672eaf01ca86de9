-- ===== src/Coordinator/Redis/Expiry.antt =====
-- What the keys that expire make of the balance.
use rabbitmqtobucketqueue.Common.{
  ℕ, ◌+◌, ◌-◌, ◌*◌, ◌/◌, ◌%◌, ◌≡◌, refl, Bool, true, not, ◌&&◌, if◌then◌else◌, ltb, ◌==◌, List, [],
  ◌∷◌, filter, map, length, Option, none, some, String, ok, err, ◌<◌, ap, arith, Bool-cases, inl,
  inr,
}
use rabbitmqtobucketqueue.Coordinator.Redis.{
  Entry, same_key, is_live, Redis, RedisCoordinator, new, increment, sum_values, rest, get_balance,
}

abbrev pub unexpired : ℕ → List Entry → Bool
unexpired now [] = true
unexpired now (e ∷ es) = ltb now e.expires_at && unexpired now es

module _ {D : Type 0} (redis : Redis D) where
  -- The counts of the keys.
  abbrev pub total : List Entry → ℕ
  total [] = 0
  total (e ∷ es) = redis.parse_int e.value + total es

  abbrev got : ℕ → List Entry → List (Option String)
  got now es = map (λ e. if ltb now e.expires_at then some e.value else none) es

  sum_values-none : (vs : List (Option String)) → sum_values redis none vs ≡ none
  unfolding sum_values
  sum_values-none [] = refl
  sum_values-none (v ∷ vs) = sum_values-none vs

  sum_values-got :
      (now n : ℕ) (es : List Entry)
      → sum_values redis (some n) (got now es)
        ≡ (if unexpired now es then some (n + total es) else none)
  unfolding sum_values
  sum_values-got now n [] = ground arith
  sum_values-got now n (e ∷ es) =
      ground
        (arith, sum_values-got now (n + redis.parse_int e.value) es, sum_values-none (got now es))

  rest-some : (m n : ℕ) → rest redis m (some n) ≡ some (m - n)
  rest-some m n = ground arith

  -- The balance is the quota less the counts of the queue's keys that had not expired when KEYS
  -- listed them, and 0 once these reach the quota, if none of them expires before MGET reads them;
  -- if one does, it is NaN.
  pub get_balance-unexpired :
      (c : RedisCoordinator) (asked read : ℕ) (d : D)
      → let es = filter (is_live c.queue asked) (redis.entries d) in
        get_balance redis c asked read d
        ≡ (if unexpired read es then some (c.max_batch - total es) else none)
  unfolding get_balance
  get_balance-unexpired c asked read d =
      rw (redis.keys_lem, redis.mget_lem) (of (filter (is_live c.queue asked) (redis.entries d)))
    where
      of :
          (es : List Entry)
          → (if length es == 0
              then some c.max_batch
              else rest redis c.max_batch (sum_values redis (some 0) (got read es)))
            ≡ (if unexpired read es then some (c.max_batch - total es) else none)
      of [] = ground arith
      of (e ∷ es) = ground (arith, sum_values-got read 0 (e ∷ es))

  -- The entry of an increment, at the time that the seconds amount to.
  setex-at :
      (q u : String) (seconds : ℕ) (v : String) (now t : ℕ) (d : D)
      → 0 < seconds
      → now + seconds * 1000 ≡ t
      → let e : Entry = record { queue = q; uuid = u; value = v; expires_at = t } in
        ((redis.setex q u seconds v now d).0 ≡ ok tt)
        × (redis.entries (redis.setex q u seconds v now d).1
            ≡ e ∷ filter (λ x. not (same_key e x)) (redis.entries d))
  setex-at q u seconds v now t d some_seconds h =
      rw⁻¹ h (redis.entries-setex q u seconds v now d some_seconds)

  -- A coordinator that could be made with an interval forgets a count exactly when the interval has
  -- passed: the key of an increment expires that many milliseconds after it, and replaces a key of
  -- the same name. With an interval of 0 an increment rejects, and stores nothing.
  pub increment-expires :
      (q : String) (m i : ℕ) (c : RedisCoordinator) (now count : ℕ) (uuid : String) (d : D)
      → new q m i ≡ ok c
      → let e : Entry = record {
        queue = q;
        uuid = uuid;
        value = redis.to_text count;
        expires_at = now + i;
      } in
        let (r, d') = increment redis c now uuid count d in
        (0 < i
          → (r ≡ ok tt)
            × (redis.entries d' ≡ e ∷ filter (λ x. not (same_key e x)) (redis.entries d)))
        × (i ≡ 0 → (r ≡ err "ERR invalid expire time in 'setex' command") × (d' ≡ d))
  unfolding new increment
  increment-expires q m i c now count uuid d made = elim (Bool-cases (i % 1000 == 0)) [
    | inr odd ↦ absurd (ground (arith, odd, made))
    | inl whole ↦
        let seconds : i / 1000 * 1000 ≡ i = ground (arith, whole) in
        let at_q : c.queue ≡ q = ground (arith, whole, made) in
        let after_i : c.interval ≡ i = ground (arith, whole, made) in
        let refused = redis.setex-zero q uuid (redis.to_text count) now d in
        rw (at_q, after_i)
          (
            λ positive.
                setex-at q uuid (i / 1000) (redis.to_text count) now (now + i) d
                  (omega (arith, seconds, positive)) (omega (arith, seconds)),
            λ z. rw z (ap (λ p. p.0) refused, ap (λ p. p.1) refused),
          )
  ]
