-- ===== src/Coordinator/Mqtt/Ready.antt =====
-- When an instance of src/coordinators/mqtt.ts is ready: the promise `#connPromise`, which `ready`,
-- `increment`, `#getBalance`, `reset`, `shutdown` and `test` wait for.
use rabbitmqtobucketqueue.Common.{
  ℕ, ◌≡◌, refl, Bool, true, false, not, ◌||◌, if◌then◌else◌, List, [], ◌∷◌, Option, none, some,
  String, Result, ok, err, Unit₀, arith,
}
use rabbitmqtobucketqueue.Coordinator.Mqtt.{
  Topic, Mqtt, increment, reset, get_balance, on_connection, on_close, on_error, on_message,
}

-- The coordinator, and how its promise was settled.
pub record Instance : Type 0 where
  pub mqtt : Mqtt
  pub ready : Option (Result String Unit₀)

-- What happens to it: events of the client, which has its own flag for the connection, and the
-- calls that change its store.
pub data Event : Type 0 where
  connects closes resets : Event
  reads : ℕ → Event
  errors : String → Event
  receives : ℕ → Topic → Option (ℕ × ℕ) → Event
  increments : ℕ → String → ℕ → Event

-- The promise is settled by the first error or the first message.
abbrev pub settle : Result String Unit₀ → Instance → Option (Result String Unit₀)
settle r i = elim i.ready [ none ↦ some r | some r' ↦ some r' ]

abbrev pub is_resolved : Option (Result String Unit₀) → Bool
is_resolved (some (ok u)) = true
is_resolved _ = false

-- The race with the timer of a second is won if the promise has resolved by then.
unfoldable pub read_balance : ℕ → Instance → Result String ℕ × Mqtt
unfolding get_balance
read_balance now i = get_balance (is_resolved i.ready) now i.mqtt

abbrev pub lost : Option (Result String Unit₀) → String
lost none = "Timeout"
lost (some (err e)) = e
lost (some (ok u)) = ""

unfoldable pub test : Instance → Result String Unit₀
test i =
    if not (is_resolved i.ready)
    then err (lost i.ready)
    else if not i.mqtt.connected || not i.mqtt.client_connected
    then err "Not connected to MQTT Broker"
    else ok tt

-- The static `initialize` of the base class: it waits for `ready`, and gives the instance or rejects.
abbrev pub initialized : Option (Result String Unit₀) → Instance → Option (Result String Instance)
initialized none i = none
initialized (some (ok u)) i = some (ok i)
initialized (some (err e)) i = some (err e)

unfoldable pub initialize : Instance → Option (Result String Instance)
initialize i = initialized i.ready i

abbrev pub is_given : Option (Result String Instance) → Bool
is_given (some (ok i)) = true
is_given _ = false

abbrev pub with_client : Bool → Mqtt → Mqtt
with_client b c = record c { client_connected = b }

unfoldable pub happen : Event → Instance → Instance
unfolding on_connection on_close on_error on_message increment reset read_balance
happen connects i = record i { mqtt = on_connection (with_client true i.mqtt) }
happen closes i = record i { mqtt = on_close (with_client false i.mqtt) }
happen (errors e) i = record { mqtt = on_error i.mqtt; ready = settle (err e) i }
happen (receives now t m) i = record { mqtt = on_message now t m i.mqtt; ready = settle (ok tt) i }
happen (increments now uuid n) i = record i { mqtt = (increment now uuid n i.mqtt).1 }
happen resets i = record i { mqtt = reset i.mqtt }
happen (reads now) i = record i { mqtt = (read_balance now i).1 }

-- The events, the newest first.
unfoldable pub live : List Event → Instance → Instance
unfolding happen
live [] i = i
live (x ∷ h) i = happen x (live h i)

-- No message arrived.
abbrev pub is_silent : List Event → Bool
is_silent [] = true
is_silent (receives now t m ∷ h) = false
is_silent (_ ∷ h) = is_silent h

waits :
    (h : List Event) (i : Instance)
    → is_resolved i.ready ≡ false
    → is_silent h ≡ true
    → is_resolved (live h i).ready ≡ false
unfolding live happen
waits [] i w s = w
waits (connects ∷ h) i w s = waits h i w s
waits (closes ∷ h) i w s = waits h i w s
waits (resets ∷ h) i w s = waits h i w s
waits (reads n ∷ h) i w s = waits h i w s
waits (increments now uuid n ∷ h) i w s = waits h i w s
waits (errors e ∷ h) i w s = settled (live h i).ready (waits h i w s)
  where
    settled :
        (r : Option (Result String Unit₀))
        → is_resolved r ≡ false
        → is_resolved (elim r [ none ↦ some (err e) | some r' ↦ some r' ]) ≡ false
    settled none k = refl
    settled (some r) k = k
waits (receives now t m ∷ h) i w s = absurd (ground (arith, s))

initialized-waits :
    (r : Option (Result String Unit₀)) (i : Instance)
    → is_resolved r ≡ false
    → is_given (initialized r i) ≡ false
initialized-waits none i w = refl
initialized-waits (some (err e)) i w = refl
initialized-waits (some (ok u)) i w = absurd (ground (arith, w))

-- As long as no message arrives, whatever else happens to it, a connection to the broker included,
-- an instance whose promise has not resolved is not given by `initialize`, every read of its balance
-- gives 0 and deletes nothing, and every test of it fails.
pub live-waits :
    (h : List Event) (i : Instance) (now : ℕ)
    → is_resolved i.ready ≡ false
    → is_silent h ≡ true
    → (is_given (initialize (live h i)) ≡ false)
      × (read_balance now (live h i) ≡ (ok 0, (live h i).mqtt))
      × (test (live h i) ≡ err (lost (live h i).ready))
unfolding read_balance test get_balance initialize
live-waits h i now w s =
    let still = waits h i w s in
    (initialized-waits (live h i).ready (live h i) still, rw still refl, rw still refl)
