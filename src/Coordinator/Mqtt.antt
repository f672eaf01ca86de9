-- ===== src/Coordinator/Mqtt.antt =====
-- src/coordinators/mqtt.ts: each instance keeps the counts of all instances, which they publish to
-- a broker. The client (mqtt) is not under this repository: what it publishes is recorded, its
-- events are steps, and whether the race of the connection with the timeout was won is an argument.
pub mod Topics
pub mod Store
pub mod Counts
pub mod Ready
pub mod Timed
pub mod Own
use rabbitmqtobucketqueue.Common.{
  ℕ, ◌+◌, ◌%◌, Bool, true, false, not, ◌||◌, if◌then◌else◌, ltb, ◌==◌, List, [], ◌∷◌, ◌++◌, map,
  Option, none, some, String, ◌<>◌, str_eq, Result, ok, err, Unit₀,
}
use text.Mathlib.Text.{starts_with}
use rabbitmqtobucketqueue.Common.Int.{sub_ℕ, is_negative, pos_part}

-- A count in the store, under its uuid. Times are milliseconds.
pub record Stored : Type 0 where
  pub uuid : String
  pub count : ℕ
  pub expires : ℕ

-- A topic `rmqbq/<queue>/<uuid>`.
pub record Topic : Type 0 where
  pub queue : String
  pub uuid : String

-- The texts of the topics.
abbrev pub prefix : String → String
prefix queue = "rmqbq/" <> queue

abbrev pub text_of : Topic → String
text_of t = (prefix t.queue <> "/") <> t.uuid

unfoldable pub drop_text : String → String → String
drop_text String.[] s = s
drop_text (String.◌∷◌ c p) String.[] = String.[]
drop_text (String.◌∷◌ c p) (String.◌∷◌ d s) = drop_text p s

-- `replace` with the empty text: the first place where the text stands is cut out.
unfoldable pub remove_first : String → String → String
unfolding drop_text
remove_first p String.[] = String.[]
remove_first p (String.◌∷◌ c s) =
    let rest = remove_first p s in
    if starts_with (String.◌∷◌ c s) p then drop_text p (String.◌∷◌ c s) else String.◌∷◌ c rest

-- What `#onMessage` takes for the uuid: the whole topic, if the queue only begins like this one.
abbrev pub key : String → Topic → String
key queue t = remove_first (prefix queue <> "/") (text_of t)

-- What the client is asked to send; a message is a count with its expiry, or empty.
pub data Request : Type 0 where
  publish : Topic → Option (ℕ × ℕ) → Request
  subscribe unsubscribe : String → Request
  end : Request

-- A packet that the client keeps until it is acknowledged.
pub record Packet : Type 0 where
  pub id : ℕ
  pub is_volatile : Bool

-- `outgoing` is a map inside of the client. `client_connected` is the client's own `connected`. The newest request is first.
pub record Mqtt : Type 0 where
  pub queue : String
  pub max_batch : ℕ
  pub interval : ℕ
  pub store : List Stored
  pub connected : Bool
  pub client_connected : Bool
  pub outgoing : List Packet
  pub requests : List Request

-- The constructor, which refuses an interval that is not in whole seconds.
unfoldable pub new : String → ℕ → ℕ → Result String Mqtt
new queue max_batch interval =
    if not (interval % 1000 == 0)
    then err "MQTT requires intervals in round seconds represented as milliseconds."
    else ok (record {
      queue = queue;
      max_batch = max_batch;
      interval = interval;
      store = [];
      connected = false;
      client_connected = false;
      outgoing = [];
      requests = [];
    })

-- `Map.set`: a new value under an old key keeps its place.
unfoldable pub set : Stored → List Stored → List Stored
set x [] = x ∷ []
set x (y ∷ ys) = let rest = set x ys in if str_eq y.uuid x.uuid then x ∷ ys else y ∷ rest

abbrev pub ask : Request → Mqtt → Mqtt
ask r c = record c { requests = r ∷ c.requests }

abbrev pub stored : Mqtt → String → ℕ → ℕ → Stored
stored c uuid count now = record { uuid = uuid; count = count; expires = now + c.interval }

abbrev pub topic : Mqtt → String → Topic
topic c uuid = record { queue = c.queue; uuid = uuid }

-- The outcome of the race is not looked at, and the callback of `publish` resolves to undefined,
-- so a failure to publish is not seen.
unfoldable pub increment : ℕ → String → ℕ → Mqtt → Result String Unit₀ × Mqtt
increment now uuid count c =
    if not c.connected
    then (err "Not connected to MQTT Broker", c)
    else let sent = ask (publish (topic c uuid) (some (count, now + c.interval))) c in
      (ok tt, record sent { store = set (stored c uuid count now) c.store })

unfoldable pub empty_all : List Stored → Mqtt → Mqtt
empty_all [] c = c
empty_all (x ∷ xs) c = empty_all xs (ask (publish (topic c x.uuid) none) c)

unfoldable pub reset : Mqtt → Mqtt
unfolding empty_all
reset c = record (empty_all c.store c) { store = [] }

-- The loop over `outgoing`, which deletes what is volatile.
unfoldable pub drop_volatile : List Packet → List Packet
drop_volatile [] = []
drop_volatile (p ∷ ps) = let rest = drop_volatile ps in if p.is_volatile then rest else p ∷ rest

unfoldable pub shutdown : Mqtt → Mqtt
unfolding drop_volatile
shutdown c = ask end (ask (unsubscribe c.queue) (record c { outgoing = drop_volatile c.outgoing }))

-- `forEach` over the store: what has expired is deleted, and the rest is summed.
unfoldable pub kept : ℕ → List Stored → List Stored
kept now [] = []
kept now (x ∷ xs) = let rest = kept now xs in if ltb x.expires now then rest else x ∷ rest

unfoldable pub sum : ℕ → List Stored → ℕ
sum now [] = 0
sum now (x ∷ xs) = (if ltb x.expires now then 0 else x.count) + sum now xs

-- `won` says whether the connection was there before the timeout.
unfoldable pub get_balance : Bool → ℕ → Mqtt → Result String ℕ × Mqtt
unfolding kept sum
get_balance won now c =
    if not won
    then (ok 0, c)
    else if not c.connected || not c.client_connected
    then (err "Not connected to MQTT Broker", c)
    else let balance = sub_ℕ c.max_batch (sum now c.store) in
      (
        ok (if is_negative balance then 0 else pos_part balance),
        record c { store = kept now c.store },
      )

-- The test of the `CONNACK` packet compares it with the text `object`, so it always subscribes.
unfoldable pub on_connection : Mqtt → Mqtt
on_connection c = ask (subscribe c.queue) (record c { connected = true })

unfoldable pub on_close : Mqtt → Mqtt
on_close c = ask (unsubscribe c.queue) (record c { connected = false })

unfoldable pub on_error : Mqtt → Mqtt
on_error c = ask end c

-- An empty message is not JSON, and is ignored.
unfoldable pub on_message : ℕ → Topic → Option (ℕ × ℕ) → Mqtt → Mqtt
on_message now t none c = c
on_message now t (some (count, expires)) c =
    if starts_with (text_of t) (prefix c.queue)
    then if ltb now expires
      then record c {
        store = set (record { uuid = key c.queue t; count = count; expires = expires }) c.store;
      }
      else c
    else c
