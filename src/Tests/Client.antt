-- ===== src/Tests/Client.antt =====
-- The client of the coordination server at concrete histories, with an encryption that hides nothing.
use Prim.Native.Char.{code}
use Prim.Native.String.{[] as no_text, ◌∷◌ as ◌∷ᵗ◌}
use rabbitmqtobucketqueue.Common.{
  not, ◌||◌, ℕ, zero, suc, ◌≡◌, refl, ap, Bool, true, if◌then◌else◌, ◌==◌, List, [], ◌∷◌, ◌++◌,
  length, some, String, str_eq, ok, err,
}
use rabbitmqtobucketqueue.Common.Int.{pos}
use rabbitmqtobucketqueue.Coordinator.Memory
use rabbitmqtobucketqueue.Coordinator.Memory.{Memory}
use rabbitmqtobucketqueue.Server as S
use rabbitmqtobucketqueue.Server.{Value, undefined, number, text, object}
use rabbitmqtobucketqueue.Client.{
  Client, live, happen, new, Happening, connects, increments, resets, tests, receives, resumes,
  times_out, is_settled, test_result, test_failed, receive,
}
use rabbitmqtobucketqueue.Client.Listeners.{length-listeners, calls}
use rabbitmqtobucketqueue.Client.Balance.{live-balance_told, balance_told}
use rabbitmqtobucketqueue.Client.Settles.{is_confirming}
use rabbitmqtobucketqueue.Client.Arrivals.{Sealing, arrivals, now}
use rabbitmqtobucketqueue.Client.Broadcasts.{next_broadcast, next_broadcast-settles}

abbrev unary : ℕ → String
unary zero = no_text
unary (suc n) = "x" ∷ᵗ unary n

abbrev marks : String → ℕ
marks no_text = 0
marks (c ∷ᵗ s) = suc (marks s)

marks-unary : (n : ℕ) → marks (unary n) ≡ n
marks-unary zero = refl
marks-unary (suc n) = ap suc (marks-unary n)

-- A text begins with `t`, a number with `n`.
abbrev marked : Value → String → String
marked (text t) purpose = "t" ∷ᵗ t
marked (number (pos n)) purpose = "n" ∷ᵗ unary n
marked _ purpose = ""

abbrev unmarked : String → Value → Value
unmarked no_text purpose = undefined
unmarked (c ∷ᵗ s) purpose =
    if code c == 116 then text s else if code c == 110 then number (pos (marks s)) else undefined

abbrev plain : Sealing
plain = record {
  seal = marked;
  decrypt = unmarked;
  decrypt-text = λ t purpose. refl;
  decrypt-number = λ n purpose. ap (λ m. number (pos m)) (marks-unary n);
  decrypt-error = refl;
}

-- A server that knows the queue `orders` and one socket.
abbrev orders_object : String → Value
orders_object key =
    if str_eq key "queue"
    then text "orders"
    else if str_eq key "maxBatch"
    then number (pos 5)
    else number (pos 1000)

abbrev opened : String → String → Value
opened event purpose = if str_eq purpose "event" then text event else object orders_object

abbrev anyone : String → Bool
anyone token = true

abbrev server_history : List S.Happening
server_history = S.connects "socket" "token" ∷ S.events "socket" "coordinate" (text "?" ∷ []) ∷ []

abbrev told_three : Happening
told_three = receives "tqueue:orders:balance" (text "nxxx" ∷ [])

abbrev told_else : Happening
told_else = receives "tqueue:other:balance" (text "nx" ∷ [])

abbrev history : List Happening
history = resets ∷ told_else ∷ resumes 1 ∷ told_three ∷ increments 2 ∷ connects ∷ []

abbrev after_history : Client
after_history = live unmarked history (new "orders" 5 1000)

-- The increment has ended, and its listener is still there.
history_tested :
    (length after_history.listeners ≡ 3)
    × (after_history.awaiting ≡ 2 ∷ [])
    × (after_history.settled ≡ (1, true) ∷ [])
    × (after_history.balance ≡ number (pos 3))
unfolding live happen new
history_tested = (refl, refl, refl, refl)

-- A test without a connection fails, and one that is answered late does not.
tests_tested :
    (test_result 1 (live unmarked (tests ∷ []) (new "orders" 5 1000)) ≡ some (err test_failed))
    × (test_result 1 (
          live unmarked
            (times_out 1 ∷ receives "tpong" [] ∷ tests ∷ connects ∷ [])
            (new "orders" 5 1000))
        ≡ some (ok tt))
    × (test_result 1 (
          live unmarked
            (receives "tpong" [] ∷ times_out 1 ∷ tests ∷ connects ∷ [])
            (new "orders" 5 1000))
        ≡ some (err test_failed))
unfolding live happen new test_result
tests_tested = (refl, refl, refl)

-- An argument that is no text throws.
object_argument :
    (receive unmarked "error" (object orders_object ∷ []) (new "orders" 5 1000)).0
    ≡ err "value.split is not a function"
unfolding receive new
object_argument = refl

length-listeners_example : length after_history.listeners ≡ suc (calls history)
length-listeners_example = length-listeners unmarked "orders" 5 1000 history

live-balance_told_example : after_history.balance ≡ balance_told unmarked "orders" 5 1000 history
live-balance_told_example = live-balance_told unmarked "orders" 5 1000 history

next_broadcast-settles_example :
    let h' =
      arrivals plain "socket" (next_broadcast (S.live anyone opened server_history S.new))
      ++ history in
    ((now plain "orders" 5 1000 h').balance
      ≡ number (pos (Memory.balance (Memory.new "orders" 5 1000))))
    × ((not (is_confirming 2 (now plain "orders" 5 1000 history).listeners)
          || is_settled 2 (now plain "orders" 5 1000 h').settled)
        ≡ true)
unfolding S.live S.happen S.dispatch S.new S.get S.is_in live happen new
next_broadcast-settles_example =
    next_broadcast-settles plain "orders" 5 1000 anyone opened "socket" server_history history 2
      refl refl
