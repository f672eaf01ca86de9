-- ===== src/Tests/Configured.antt =====
-- A configuration that is read, a consumer that boots from it, and its rounds.
use rabbitmqtobucketqueue.Common.{ℕ, ◌≡◌, refl, true, length, [], ok, err}
use rabbitmqtobucketqueue.Common.Int.{pos}
use rabbitmqtobucketqueue.Validation.{Value, null, integer}
use rabbitmqtobucketqueue.Validation.Registry.{types}
use rabbitmqtobucketqueue.Validation.Consumer.{read_options, missing}
use rabbitmqtobucketqueue.Coordinator.Memory.Timed.{Timed, memory_driver}
use rabbitmqtobucketqueue.Coordinator.Memory as Memory
use rabbitmqtobucketqueue.Coordinator.{Driver}
use rabbitmqtobucketqueue.Bucket.Defs.{Failure, plain, Env, Bucket}
use rabbitmqtobucketqueue.Bucket.Tick.{rounds}
use rabbitmqtobucketqueue.Bucket.Boot.{
  configure, start, do_boot, take_channel, take_coordinator, boot_with, finish,
}
use rabbitmqtobucketqueue.Bucket.Boot.Configured.{
  Supplied, chosen, configured, initialize, invalid, null_chunk-never,
}
use rabbitmqtobucketqueue.Bucket.Settle.Never.{handled}
use rabbitmqtobucketqueue.Tests.Consumer.{Queue, rabbit, picky, bucket}
use rabbitmqtobucketqueue.Tests.Boot.{amqp, initialize as initialize_driver}
use rabbitmqtobucketqueue.Tests.Validation.{checker, third, configuration, good}

abbrev unused : Timed
unused = record { memory = Memory.new "other" 1 1000; passed = [] }

-- To read a property of undefined throws.
abbrev absent : Driver Failure Timed
absent = record {
  balance = λ c. (err (plain "undefined"), c);
  increment = λ n c. (err (plain "undefined"), c);
  reset = λ c. (err (plain "undefined"), c);
  shutdown = λ c. (err (plain "undefined"), c);
}

abbrev supplied : Supplied Queue Timed ℕ
supplied = record {
  channel = rabbit;
  coordinator = (memory_driver Failure, unused);
  no_coordinator = (absent, unused);
  on_spill = picky;
  on_item = λ item w. (ok tt, w);
  validate_item = λ item w. (ok true, w);
  deserialize_item = λ content w. (ok (length content), w);
}

-- What the boot makes of a value.
abbrev env_of : Value → Env Queue Timed ℕ
env_of w = record {
  channel = rabbit;
  driver = memory_driver Failure;
  options = configure (configured supplied w);
}

abbrev made_of : Value → Queue → Bucket Queue Timed ℕ
made_of w =
    start (configured supplied w) (record { memory = Memory.new "orders" 50 1000; passed = [] })

good_boots :
    initialize checker third amqp initialize_driver supplied good bucket.world
    ≡ (ok (env_of good, made_of good), bucket.world)
unfolding initialize read_options types do_boot take_channel take_coordinator boot_with finish
    configured chosen
good_boots = refl

abbrev pieceless : Value
pieceless = configuration "memory" (integer (pos 1000)) (integer (pos 50)) null

pieceless_boots :
    initialize checker third amqp initialize_driver supplied pieceless bucket.world
    ≡ (ok (env_of pieceless, made_of pieceless), bucket.world)
unfolding initialize read_options types do_boot take_channel take_coordinator boot_with finish
    configured chosen
pieceless_boots = refl

null_chunk-never_example : handled (rounds (env_of pieceless) 5 bucket).trace ≡ 0
null_chunk-never_example =
    null_chunk-never checker third amqp initialize_driver supplied pieceless bucket.world
      bucket.world (env_of pieceless) (made_of pieceless) pieceless_boots refl 5 bucket

-- What is no object is refused before anything is called.
refused_tested :
    initialize checker third amqp initialize_driver supplied null bucket.world
    ≡ (err (invalid missing), bucket.world)
unfolding initialize read_options types
refused_tested = refl
