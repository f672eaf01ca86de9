-- ===== src/Tests/Mqtt.antt =====
-- An MQTT coordinator with the count of another instance.
use rabbitmqtobucketqueue.Common.{◌≡◌, refl, true, false, List, [], ◌∷◌, some, none, ok, err}
use rabbitmqtobucketqueue.Coordinator.Mqtt.{
  remove_first, set, reset, end, unsubscribe, shutdown, drop_volatile, Mqtt, topic, sum, increment,
  get_balance, on_message,
}
use rabbitmqtobucketqueue.Coordinator.Mqtt.Ready
use rabbitmqtobucketqueue.Coordinator.Mqtt.Ready.{
  Instance, Event, connects, closes, reads, receives, increments, initialize, is_given,
  read_balance, lost, happen, live, live-waits,
}
use rabbitmqtobucketqueue.Coordinator.Mqtt.Counts.{on_message-increment}

abbrev coordinator : Mqtt
coordinator = record {
  queue = "jobs";
  max_batch = 9;
  interval = 2000;
  store = record { uuid = "a"; count = 2; expires = 1500 } ∷ [];
  connected = true;
  client_connected = true;
  outgoing = [];
  requests = [];
}

on_message-increment_example :
    let c = (increment 1000 "b" 4 coordinator).1 in
    let back : Mqtt → Mqtt = on_message 1200 (topic coordinator "b") (some (4, 3000)) in
    (back c ≡ c)
    × ((reset c).store ≡ [])
    × ((back (reset c)).store ≡ record { uuid = "b"; count = 4; expires = 3000 } ∷ [])
on_message-increment_example = on_message-increment 1000 1200 "b" 4 coordinator refl

-- A queue whose name only begins like this one: the whole topic is taken for the uuid.
longer_queue_tested :
    (on_message 1200 (record { queue = "jobs2"; uuid = "b" }) (some (4, 3000)) coordinator).store
    ≡ record { uuid = "a"; count = 2; expires = 1500 }
      ∷ record { uuid = "rmqbq/jobs2/b"; count = 4; expires = 3000 }
      ∷ []
unfolding on_message remove_first set
longer_queue_tested = refl

-- Connected, asked and reset, and nothing has arrived.
abbrev unready : Instance
unready = record { mqtt = coordinator; ready = none }

abbrev quiet : List Event
quiet = increments 1100 "c" 2 ∷ reads 1000 ∷ connects ∷ closes ∷ connects ∷ []

-- A message makes it ready.
ready_tested :
    ((read_balance 1000 (live (receives 900 (topic coordinator "d") none ∷ []) unready)).0 ≡ ok 7)
    × (Ready.test (live (receives 900 (topic coordinator "d") none ∷ []) unready) ≡ ok tt)
unfolding read_balance get_balance sum live happen on_message Ready.test
ready_tested = (refl, refl)

live-waits_example :
    (is_given (initialize (live quiet unready)) ≡ false)
    × (read_balance 5000 (live quiet unready) ≡ (ok 0, (live quiet unready).mqtt))
    × (Ready.test (live quiet unready) ≡ err (lost (live quiet unready).ready))
live-waits_example = live-waits quiet unready 5000 refl refl

-- A packet that is not volatile stays.
shutdown_tested :
    let c : Mqtt = record coordinator {
      outgoing =
          record { id = 1; is_volatile = true } ∷ record { id = 2; is_volatile = false } ∷ [];
    } in
    shutdown c ≡ record coordinator {
      outgoing = record { id = 2; is_volatile = false } ∷ [];
      requests = end ∷ unsubscribe "jobs" ∷ [];
    }
unfolding shutdown drop_volatile
shutdown_tested = refl
