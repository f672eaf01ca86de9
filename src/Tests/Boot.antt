-- ===== src/Tests/Boot.antt =====
-- The boot of the consumer of `Consumer`.
use rabbitmqtobucketqueue.Common.{ℕ, ◌≡◌, refl, true, false, none, some, [], ◌∷◌, ok, length}
use rabbitmqtobucketqueue.Coordinator.Memory
use rabbitmqtobucketqueue.Coordinator.Memory.{Memory}
use rabbitmqtobucketqueue.Coordinator.Memory.Timed.{Timed, memory_driver}
use rabbitmqtobucketqueue.Bucket.Defs.{Failure, raw, DeserializedMessage, Env, Bucket}
use rabbitmqtobucketqueue.Bucket.Items.{deserialize, validate}
use rabbitmqtobucketqueue.Bucket.Rate.Memory.{max_batch}
use rabbitmqtobucketqueue.Bucket.Life.{uncorks, turns, live, balance}
use rabbitmqtobucketqueue.Bucket.Life.Idle.{ticked}
use rabbitmqtobucketqueue.Bucket.Boot.{
  Amqp, Config, named, Initialize, configure, start, do_boot, create, finish, take_channel,
  get_rabbit_mq_queue, take_coordinator, boot_with, memory,
}
use rabbitmqtobucketqueue.Bucket.Boot.Started.{do_boot-never_ticks, do_boot-drops}
use rabbitmqtobucketqueue.Tests.Consumer.{Queue, rabbit, picky, bucket, message}

-- amqplib over the same queue: connections and channels are made without a trace in it.
abbrev pub amqp : Amqp Queue
amqp = record {
  connect = λ w. (ok tt, w);
  create_channel = λ w. (ok rabbit, w);
  create_confirm_channel = λ w. (ok rabbit, w);
  assert_queue = λ q channel w. (ok tt, w);
}

abbrev pub initialize : Initialize Queue Timed
initialize kind queue max_batch interval w = (
  ok (memory_driver Failure, record { memory = Memory.new queue max_batch interval; passed = [] }),
  w,
)

abbrev config : Config Queue Timed ℕ
config = record {
  queue = "jobs";
  rmq_channel = none;
  rmq_queue_type = "queue";
  coordinator = named memory;
  interval = 1000;
  max_batch = 3;
  chunk_size = 2;
  autostart = true;
  on_spill = some picky;
  on_item = none;
  validate_item = some (λ item w. (ok false, w));
  deserialize_item = some (λ content w. (ok (length content), w));
  discard_on_deserialize_error = true;
  discard_on_validation_error = true;
  discard_on_invalid = true;
}

abbrev booted_env : Env Queue Timed ℕ
booted_env = record { channel = rabbit; driver = memory_driver Failure; options = configure config }

abbrev made_bucket : Queue → Bucket Queue Timed ℕ
made_bucket = start config (record { memory = Memory.new "jobs" 3 1000; passed = [] })

boots : do_boot amqp initialize config bucket.world ≡ (ok (booted_env, made_bucket), bucket.world)
unfolding do_boot take_channel get_rabbit_mq_queue create take_coordinator boot_with finish
boots = refl

do_boot-never_ticks_example :
    let s = live booted_env (turns ∷ uncorks ∷ []) (made_bucket bucket.world) in
    (ticked s.trace ≡ 0) × (s.immediate ≡ false) × ((balance booted_env s).0 ≡ ok (some 0))
do_boot-never_ticks_example =
    do_boot-never_ticks amqp initialize config bucket.world bucket.world booted_env made_bucket
      boots (turns ∷ uncorks ∷ [])

do_boot-drops_example :
    (deserialize booted_env (message 1) bucket
      ≡ (some (record { message = message 1; item = raw (1 ∷ []) }), bucket))
    × ((d : DeserializedMessage ℕ) → validate booted_env d bucket ≡ (some d, bucket))
do_boot-drops_example =
    do_boot-drops amqp initialize config bucket.world bucket.world booted_env made_bucket boots
      (message 1) bucket
