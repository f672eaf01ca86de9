-- ===== src/Coordinator/Mqtt/Timed.antt =====
-- The MQTT coordinator of one instance, while the broker sends it the messages of other instances
-- and its own, and the connection comes and goes.
use rabbitmqtobucketqueue.Common.{
  map, ◌++◌, ◌||◌, ◌&&◌, not, ℕ, Bool, false, if◌then◌else◌, List, [], ◌∷◌, filter, Option, none,
  some, String, str_eq, Result, Unit₀, ok, err,
}
use rabbitmqtobucketqueue.Coordinator.{Number}
use rabbitmqtobucketqueue.Coordinator.Shared.{Store}
use rabbitmqtobucketqueue.Coordinator.Mqtt.{
  key, Stored, Topic, Mqtt, topic, sum, increment, reset, shutdown,
}
use rabbitmqtobucketqueue.Coordinator.Mqtt.Ready.{
  Instance, connects, closes, errors, receives, read_balance, happen, settle,
}

-- An instance, and the uuids whose counts it has cleared with a reset: the broker may still send
-- their messages.
pub record Held : Type 0 where
  pub instance : Instance
  pub cleared : List String

abbrev pub is_in : String → List String → Bool
is_in u [] = false
is_in u (x ∷ xs) = str_eq x u || is_in u xs

-- A count that this instance has made and not cleared.
abbrev pub holds : (String → Bool) → List String → String → Bool
holds mine cleared u = mine u && not (is_in u cleared)

-- The events that come from outside: of the client; any message whose uuid this instance has not
-- drawn, or has cleared; and the message of a count that it holds, which the broker sends back as it
-- was stored. When its entry is gone because it has expired, its message has too, and only settles the
-- promise.
pub data Foreign : Type 0 where
  connected closed : Foreign
  failed : String → Foreign
  received : Topic → Option (ℕ × ℕ) → Foreign
  echoed : String → Foreign

abbrev pub find : String → List Stored → Option Stored
find u [] = none
find u (x ∷ xs) = let rest = find u xs in if str_eq x.uuid u then some x else rest

abbrev pub uuids : List Stored → List String
uuids xs = map (λ x. x.uuid) xs

abbrev pub echo : ℕ → Option Stored → Instance → Instance
echo now none i = record i { ready = settle (ok tt) i }
echo now (some x) i = happen (receives now (topic i.mqtt x.uuid) (some (x.count, x.expires))) i

module _ (mine : String → Bool) where
  abbrev pub deliver : ℕ → Foreign → Held → Instance
  deliver now connected h = happen connects h.instance
  deliver now closed h = happen closes h.instance
  deliver now (failed e) h = happen (errors e) h.instance
  deliver now (received t m) h =
      if holds mine h.cleared (key h.instance.mqtt.queue t)
      then h.instance
      else happen (receives now t m) h.instance
  deliver now (echoed u) h = echo now (find u h.instance.mqtt.store) h.instance

  unfoldable pub foreign : ℕ → Foreign → Held → Held
  foreign now x h = record h { instance = deliver now x h }

  abbrev pub with_mqtt : Mqtt → Held → Held
  with_mqtt c h = record h { instance = record h.instance { mqtt = c } }

  module _ {E : Type 0} (failure : String → E) where
    abbrev pub to_number : Result String ℕ → Result E Number
    to_number (ok n) = ok (some n)
    to_number (err e) = err (failure e)

    abbrev pub to_unit : Result String Unit₀ → Result E Unit₀
    to_unit (ok u) = ok u
    to_unit (err e) = err (failure e)

    -- Whether a call is answered depends on the connection alone.
    unfoldable pub mqtt_store : Store E Held Foreign
    mqtt_store = record {
      get_balance = λ now lasts answers h.
          let r = read_balance now h.instance in (to_number r.0, with_mqtt r.1 h);
      increment = λ now answers uuid n h.
          let r = increment now uuid n h.instance.mqtt in (to_unit r.0, with_mqtt r.1 h);
      reset = λ now answers h. (
        ok tt,
        record h {
          instance = record h.instance { mqtt = reset h.instance.mqtt };
          cleared = uuids h.instance.mqtt.store ++ h.cleared;
        },
      );
      shutdown = λ h. (ok tt, with_mqtt (shutdown h.instance.mqtt) h);
      foreign = foreign;
    }

  -- What this instance has counted, has not cleared and has not expired, and the quota.
  abbrev pub counted : ℕ → Held → ℕ
  counted now h = sum now (filter (λ x. holds mine h.cleared x.uuid) h.instance.mqtt.store)

  abbrev pub quota : Held → ℕ
  quota h = h.instance.mqtt.max_batch
