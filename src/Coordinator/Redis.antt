-- ===== src/Coordinator/Redis.antt =====
-- src/coordinators/redis.ts: one key for each increment, which Redis forgets after the interval.
-- Redis (ioredis) is the parameter `Redis`: its entries, and what its commands do at a given time.
pub mod Expiry
pub mod Reset
pub mod Timed
use rabbitmqtobucketqueue.Common.{
  ℕ, ◌+◌, ◌-◌, ◌*◌, ◌/◌, ◌%◌, ◌≤◌, ◌<◌, ◌≡◌, refl, Bool, true, false, not, ◌&&◌, ◌||◌,
  if◌then◌else◌, ltb, ◌==◌, List, [], ◌∷◌, filter, map, length, Option, none, some, String, str_eq,
  Result, ok, err, Unit₀, arith,
}
use rabbitmqtobucketqueue.Coordinator.{Number, TestFailed, tested}
use rabbitmqtobucketqueue.Common.Int.{ℤ, sub_ℕ, is_negative, pos_part}

-- `ping` is what Redis answers to PING.
abbrev pub test : {E : Type 0} → Result E String → Result (TestFailed E) Unit₀
test ping = tested ping

-- A key, which is a queue and a uuid, with its value. Times are milliseconds.
pub record Entry : Type 0 where
  pub queue : String
  pub uuid : String
  pub value : String
  pub expires_at : ℕ

abbrev pub same_key : Entry → Entry → Bool
same_key a b = str_eq a.queue b.queue && str_eq a.uuid b.uuid

abbrev pub has_key : Entry → List Entry → Bool
has_key e [] = false
has_key e (x ∷ xs) = same_key e x || has_key e xs

-- The key is of this queue and has not expired.
abbrev pub is_live : String → ℕ → Entry → Bool
is_live queue now e = str_eq e.queue queue && ltb now e.expires_at

-- What Redis documents of the commands, for a queue whose name is not a pattern itself: KEYS gives
-- the keys that match and have not expired, SETEX takes the place of a key that is there and refuses a time of 0 seconds, MGET the value of each key, or nil if it has expired.
-- A key stands for its entry.
pub record Redis (D : Type 0) : Type 0 where
  pub entries : D → List Entry
  pub setex : String → String → ℕ → String → ℕ → D → Result String Unit₀ × D
  pub keys : String → ℕ → D → List Entry
  pub mget : List Entry → ℕ → D → List (Option String)
  pub del : List Entry → D → D
  pub to_text : ℕ → String
  pub parse_int : String → ℕ
  pub parse_int-to_text : (n : ℕ) → parse_int (to_text n) ≡ n
  pub entries-setex :
      (q u : String) (seconds : ℕ) (v : String) (now : ℕ) (d : D)
      → let e : Entry = record {
        queue = q;
        uuid = u;
        value = v;
        expires_at = now + seconds * 1000;
      } in
        0 < seconds
        → ((setex q u seconds v now d).0 ≡ ok tt)
          × (entries (setex q u seconds v now d).1
              ≡ e ∷ filter (λ x. not (same_key e x)) (entries d))
  pub setex-zero :
      (q u v : String) (now : ℕ) (d : D)
      → setex q u 0 v now d ≡ (err "ERR invalid expire time in 'setex' command", d)
  pub keys_lem : (q : String) (now : ℕ) (d : D) → keys q now d ≡ filter (is_live q now) (entries d)
  pub mget_lem :
      (es : List Entry) (now : ℕ) (d : D)
      → mget es now d ≡ map (λ e. if ltb now e.expires_at then some e.value else none) es
  pub entries-del :
      (es : List Entry) (d : D) → entries (del es d) ≡ filter (λ e. not (has_key e es)) (entries d)

pub record RedisCoordinator : Type 0 where
  pub queue : String
  pub max_batch : ℕ
  pub interval : ℕ

-- The constructor, which refuses an interval that is not in whole seconds.
unfoldable pub new : String → ℕ → ℕ → Result String RedisCoordinator
new queue max_batch interval =
    if not (interval % 1000 == 0)
    then err "Redis requires intervals in round seconds represented as milliseconds."
    else ok (record { queue = queue; max_batch = max_batch; interval = interval })

module _ {D : Type 0} (redis : Redis D) where
  -- The promise of ioredis rejects with the error of the command.
  unfoldable pub increment : RedisCoordinator → ℕ → String → ℕ → D → Result String Unit₀ × D
  increment c now uuid count d =
      redis.setex c.queue uuid (c.interval / 1000) (redis.to_text count) now d

  unfoldable pub reset : RedisCoordinator → ℕ → D → D
  reset c now d =
      let keys = redis.keys c.queue now d in if length keys == 0 then d else redis.del keys d

  -- `parseInt(values[i])`; the text `null` is not a number.
  abbrev pub parse : Option String → Number
  parse none = none
  parse (some v) = some (redis.parse_int v)

  abbrev pub plus : Number → Number → Number
  plus none b = none
  plus (some a) none = none
  plus (some a) (some b) = some (a + b)

  -- The loop that sums the values, from the sum so far.
  unfoldable pub sum_values : Number → List (Option String) → Number
  sum_values sum [] = sum
  sum_values sum (v ∷ vs) = sum_values (plus sum (parse v)) vs

  -- NaN is not below 0.
  abbrev pub rest : ℕ → Number → Number
  rest max_batch none = none
  rest max_batch (some sum) =
      let balance = sub_ℕ max_batch sum in
      some (if is_negative balance then 0 else pos_part balance)

  -- `asked` is the time of KEYS and `read` that of MGET.
  unfoldable pub get_balance : RedisCoordinator → ℕ → ℕ → D → Number
  unfolding sum_values
  get_balance c asked read d =
      let keys = redis.keys c.queue asked d in
      if length keys == 0
      then some c.max_batch
      else rest c.max_batch (sum_values (some 0) (redis.mget keys read d))
