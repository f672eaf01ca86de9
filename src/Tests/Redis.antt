-- ===== src/Tests/Redis.antt =====
-- The Redis coordinator over a list of entries whose values are texts of strokes.
use rabbitmqtobucketqueue.Common.{
  ℕ, zero, suc, ap, String, ◌+◌, ◌*◌, not, if◌then◌else◌, ltb, ◌≡◌, refl, Option, none, some, List,
  [], ◌∷◌, filter, map, ok, err, Result, Unit₀, ◌<◌, arith,
}
use rabbitmqtobucketqueue.Coordinator.Redis.{
  Entry, same_key, has_key, is_live, Redis, RedisCoordinator, new, increment, get_balance, test,
}
use rabbitmqtobucketqueue.Coordinator.{coordinator_test_failed}
use rabbitmqtobucketqueue.Coordinator.Redis.Expiry.{get_balance-unexpired, increment-expires}

-- A number as a text of so many strokes.
abbrev pub tally : ℕ → String
tally zero = String.[]
tally (suc n) = String.◌∷◌ "|" (tally n)

abbrev pub strokes : String → ℕ
strokes String.[] = 0
strokes (String.◌∷◌ c s) = suc (strokes s)

pub strokes-tally : (n : ℕ) → strokes (tally n) ≡ n
strokes-tally zero = refl
strokes-tally (suc n) = ap suc (strokes-tally n)

abbrev pub entry : String → String → ℕ → String → ℕ → Entry
entry q u seconds v now = record {
  queue = q;
  uuid = u;
  value = v;
  expires_at = now + seconds * 1000;
}

abbrev pub put : String → String → ℕ → String → ℕ → List Entry → Result String Unit₀ × List Entry
put q u zero v now d = (err "ERR invalid expire time in 'setex' command", d)
put q u (suc n) v now d =
    (ok tt, entry q u (suc n) v now ∷ filter (λ x. not (same_key (entry q u (suc n) v now) x)) d)

pub put-entries :
    (q u : String) (seconds : ℕ) (v : String) (now : ℕ) (d : List Entry)
    → 0 < seconds
    → ((put q u seconds v now d).0 ≡ ok tt)
      × ((put q u seconds v now d).1
          ≡ entry q u seconds v now ∷ filter (λ x. not (same_key (entry q u seconds v now) x)) d)
put-entries q u zero v now d h = absurd (omega (arith, h))
put-entries q u (suc n) v now d h = (refl, refl)

abbrev pub listed : Redis (List Entry)
listed = record {
  entries = λ d. d;
  setex = put;
  keys = λ q now d. filter (is_live q now) d;
  mget = λ es now d. map (λ e. if ltb now e.expires_at then some e.value else none) es;
  del = λ es d. filter (λ e. not (has_key e es)) d;
  to_text = tally;
  parse_int = strokes;
  parse_int-to_text = strokes-tally;
  entries-setex = put-entries;
  setex-zero = λ q u v now d. refl;
  keys_lem = λ q now d. refl;
  mget_lem = λ es now d. refl;
  entries-del = λ es d. refl;
}

abbrev pub coordinator : RedisCoordinator
coordinator = record { queue = "jobs"; max_batch = 9; interval = 2000 }

abbrev pub stored : List Entry
stored =
    record { queue = "jobs"; uuid = "a"; value = "||||"; expires_at = 2000 }
    ∷ record { queue = "mails"; uuid = "b"; value = "||||"; expires_at = 9000 }
    ∷ []

get_balance-unexpired_example : get_balance listed coordinator 1000 1500 stored ≡ some 5
get_balance-unexpired_example = get_balance-unexpired listed coordinator 1000 1500 stored

-- The key expires between the two commands.
abbrev not_a_number : Option ℕ
not_a_number = none

get_balance_late : get_balance listed coordinator 1999 2000 stored ≡ not_a_number
get_balance_late = get_balance-unexpired listed coordinator 1999 2000 stored

made : new "jobs" 9 2000 ≡ ok coordinator
made = unfold new in refl

abbrev counted_four : Entry
counted_four = record { queue = "jobs"; uuid = "c"; value = "||||"; expires_at = 1000 + 2000 }

increment-expires_example :
    let (r, d) = increment listed coordinator 1000 "c" 4 stored in
    (0 < 2000
      → (r ≡ ok tt) × (d ≡ counted_four ∷ filter (λ x. not (same_key counted_four x)) stored))
    × (coordinator.interval ≡ 0
        → (r ≡ err "ERR invalid expire time in 'setex' command") × (d ≡ stored))
increment-expires_example =
    increment-expires listed "jobs" 9 2000 coordinator 1000 4 "c" stored made

-- The entry is there; with an interval of 0 nothing is stored.
increment_tested :
    (increment listed coordinator 1000 "c" 4 stored ≡ (ok tt, counted_four ∷ stored))
    × (increment listed (record coordinator { interval = 0 }) 1000 "c" 4 stored
        ≡ (err "ERR invalid expire time in 'setex' command", stored))
unfolding increment
increment_tested = (refl, refl)

ping_tested :
    (test {E = String} (ok "PONG") ≡ ok tt)
    × (test {E = String} (err "refused") ≡ err (coordinator_test_failed "refused"))
ping_tested = (refl, refl)
