-- ===== src/Tests/Rates.antt =====
-- The consumer with each of the coordinators whose instances share their counts.
use rabbitmqtobucketqueue.Common.{
  Bool, ◌||◌, String, str_eq, refl, ℕ, ◌≤◌, ◌≡◌, true, false, if◌then◌else◌, Option, none, some,
  List, [], ◌∷◌, ◌++◌, not, filter, Result, ok, arith,
}
use rabbitmqtobucketqueue.Coordinator.Shared.{Timed, Visit, shared_driver}
use rabbitmqtobucketqueue.Coordinator.Database.{
  Database, Row, sum as sum_rows, number, as_number, Sql,
}
use rabbitmqtobucketqueue.Coordinator.Database.Timed as DatabaseTimed
use rabbitmqtobucketqueue.Coordinator.Redis.{Entry}
use rabbitmqtobucketqueue.Coordinator.Redis.Timed as RedisTimed
use rabbitmqtobucketqueue.Coordinator.Mqtt.{Mqtt, sum}
use rabbitmqtobucketqueue.Coordinator.Mqtt.Timed as MqttTimed
use rabbitmqtobucketqueue.Bucket.Defs.{Failure, plain, Message, Channel, Options, Env, Bucket}
use rabbitmqtobucketqueue.Bucket.Tick.{rounds}
use rabbitmqtobucketqueue.Bucket.Rate.Database.{rounds-database}
use rabbitmqtobucketqueue.Bucket.Rate.Redis.{rounds-redis}
use rabbitmqtobucketqueue.Bucket.Rate.Mqtt.{rounds-mqtt}
use rabbitmqtobucketqueue.Tests.Redis.{listed, coordinator, stored}

abbrev pub table_sql : Sql (List Row)
table_sql = record {
  rows = λ d. d;
  insert = λ r d. r ∷ d;
  del_where = λ p d. filter (λ r. not (p r)) d;
  sum_where = λ p d. number (sum_rows (filter p d));
  parse_int = λ s. 0;
  rows-insert = λ r d. refl;
  rows-del_where = λ p d. refl;
  sum_where_lem = λ p d. as_number;
}

-- This instance draws the uuids `b` and `c`.
abbrev pub is_mine : String → Bool
is_mine uuid = str_eq uuid "b" || str_eq uuid "c"

abbrev pub first : List Message → Result Failure (Option Message) × List Message
first [] = (ok none, [])
first (m ∷ ms) = (ok (some m), ms)

abbrev pub mailbox : Channel (List Message)
mailbox = record {
  get = λ q. first;
  ack = λ m w. (ok tt, w);
  nack = λ m requeue w. (ok tt, if requeue then w ++ m ∷ [] else w);
  close = λ w. (ok tt, w);
  meanwhile = λ w. ([], w);
}

abbrev pub settings : Options (List Message) ℕ
settings = record {
  queue = "jobs";
  max_batch = 4;
  chunk_size = 3;
  discard_on_deserialize_error = true;
  discard_on_validation_error = true;
  discard_on_invalid = true;
  on_spill = some (λ ds w. (ok tt, w));
  on_item = none;
  validate_item = none;
  deserialize_item = none;
}

abbrev pub unreachable : Failure
unreachable = plain "The database does not answer"

abbrev pub letter : ℕ → Message
letter n = record { delivery_tag = n; content = n ∷ [] }

abbrev pub waiting : {C : Type 0} → C → Bucket (List Message) C ℕ
waiting c = record {
  booted = false;
  corked = false;
  immediate = true;
  has_connection = true;
  coordinator = c;
  world = letter 1 ∷ letter 2 ∷ [];
  trace = [];
}

-- A call a while after the one before.
abbrev called : {X : Type 0} → ℕ → List X → Bool → Visit is_mine X
called passed others answers = record {
  passed = passed;
  others = others;
  answers = answers;
  lasts = 1;
  uuid = "b";
  drawn = refl;
}

abbrev pub database_env :
    Env
      (List Message)
      (Timed is_mine (DatabaseTimed.Held (List Row)) (DatabaseTimed.Foreign is_mine))
      ℕ
database_env = record {
  channel = mailbox;
  driver = shared_driver (DatabaseTimed.database_store is_mine table_sql unreachable);
  options = settings;
}

abbrev pub jobs_database : Database
jobs_database = record { queue = "jobs"; max_batch = 4; interval = 100 }

-- A row of another instance is there already, and another is inserted while this one counts. The
-- third call fails.
abbrev shared : Timed is_mine (DatabaseTimed.Held (List Row)) (DatabaseTimed.Foreign is_mine)
shared = record {
  store = record {
    database = jobs_database;
    table = record { uuid = "a"; queue = "jobs"; count = 3; expires_at = 50 } ∷ [];
  };
  now = 20;
  visits =
      called 10 [] true
      ∷ called 30
          (DatabaseTimed.increments jobs_database 35 "d" 2 refl ∷ DatabaseTimed.declutters 60 ∷ [])
          true
      ∷ called 5 [] false
      ∷ [];
  idle = called 0 [] true;
}

rounds-database_example :
    let c = (rounds database_env 3 (waiting shared)).coordinator in
    (DatabaseTimed.counted is_mine table_sql c.now c.store
      ≤ DatabaseTimed.quota is_mine table_sql c.store)
    × (DatabaseTimed.quota is_mine table_sql c.store
        ≡ DatabaseTimed.quota is_mine table_sql shared.store)
rounds-database_example =
    rounds-database is_mine table_sql unreachable database_env refl (omega arith) 3 (waiting shared)
      (omega arith)

abbrev redis_env :
    Env (List Message) (Timed is_mine (RedisTimed.Held (List Entry)) (RedisTimed.Foreign is_mine)) ℕ
redis_env = record {
  channel = mailbox;
  driver = shared_driver (RedisTimed.redis_store is_mine listed unreachable plain);
  options = settings;
}

-- The key of another instance expires while the balance is read.
abbrev expiring : Timed is_mine (RedisTimed.Held (List Entry)) (RedisTimed.Foreign is_mine)
expiring = record {
  store = record { coordinator = coordinator; keys = stored };
  now = 1989;
  visits =
      called 10 [] true ∷ called 30 (RedisTimed.increments coordinator "d" 2 refl ∷ []) true ∷ [];
  idle = called 0 [] true;
}

rounds-redis_example :
    let c = (rounds redis_env 3 (waiting expiring)).coordinator in
    (RedisTimed.counted is_mine listed c.now c.store ≤ RedisTimed.quota is_mine listed c.store)
    × (RedisTimed.quota is_mine listed c.store ≡ RedisTimed.quota is_mine listed expiring.store)
rounds-redis_example =
    rounds-redis is_mine listed unreachable plain redis_env refl (omega arith) 3 (waiting expiring)
      (omega arith)

abbrev mqtt_env : Env (List Message) (Timed is_mine MqttTimed.Held MqttTimed.Foreign) ℕ
mqtt_env = record {
  channel = mailbox;
  driver = shared_driver (MqttTimed.mqtt_store is_mine plain);
  options = settings;
}

abbrev jobs_mqtt : Mqtt
jobs_mqtt = record {
  queue = "jobs";
  max_batch = 4;
  interval = 1000;
  store = record { uuid = "a"; count = 1; expires = 700 } ∷ [];
  connected = true;
  client_connected = true;
  outgoing = [];
  requests = [];
}

-- The connection is lost for a while, and two messages of this instance come back, of which one had
-- been cleared.
abbrev flaky : Timed is_mine MqttTimed.Held MqttTimed.Foreign
flaky = record {
  store = record {
    instance = record { mqtt = jobs_mqtt; ready = some (ok tt) };
    cleared = "c" ∷ [];
  };
  now = 100;
  visits =
      called 10 [] true
      ∷ called 30 [] true
      ∷ called 5
          (MqttTimed.echoed "b"
            ∷ MqttTimed.received (record { queue = "jobs"; uuid = "c" }) (some (9, 900))
            ∷ MqttTimed.received (record { queue = "jobs"; uuid = "d" }) (some (2, 800))
            ∷ MqttTimed.closed
            ∷ MqttTimed.connected
            ∷ [])
          true
      ∷ [];
  idle = called 0 [] true;
}

rounds-mqtt_example :
    let c = (rounds mqtt_env 3 (waiting flaky)).coordinator in
    (MqttTimed.counted is_mine c.now c.store ≤ MqttTimed.quota is_mine c.store)
    × (MqttTimed.quota is_mine c.store ≡ MqttTimed.quota is_mine flaky.store)
unfolding sum
rounds-mqtt_example =
    rounds-mqtt is_mine plain mqtt_env refl (omega arith) 3 (waiting flaky) (omega arith)
