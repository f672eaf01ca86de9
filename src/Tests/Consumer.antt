-- ===== src/Tests/Consumer.antt =====
-- The consumer over a queue of RabbitMQ that is a list of messages, with the memory coordinator.
use rabbitmqtobucketqueue.Common.{
  ℕ, ◌*◌, ◌<◌, ◌≤◌, ◌≡◌, ◌≢◌, refl, true, false, if◌then◌else◌, Option, none, some, List, [], ◌∷◌,
  ◌++◌, ◌==◌, Result, ok, err, Unit₀, inl, arith, length,
}
use rabbitmqtobucketqueue.Coordinator.Memory
use rabbitmqtobucketqueue.Coordinator.Memory.{Memory}
use rabbitmqtobucketqueue.Coordinator.Memory.Timed.{Timed, arrive, memory_driver}
use rabbitmqtobucketqueue.Bucket.Defs.{
  Failure, reenqueue, counts_toward_balance, re_enquable, plain, Message, DeserializedMessage,
  Interrupt, corking, purging, ending, Channel, Options, Env, Bucket, died_event, got, acked,
  nacked, incremented, tick_event, spill_event, error_event, drain_event,
}
use rabbitmqtobucketqueue.Bucket.Calls.{
  get_single_message, get_messages, do_ack, do_nack, do_ack_all, do_nack_all, increment,
  interrupted, interrupt_all, interrupt, handle_fatal_error, cork, close_all, close_ignoring,
  disconnect, close_connection,
}
use rabbitmqtobucketqueue.Bucket.Items.{
  deserialize, deserialize_all, validate, validate_defined, validate_all,
}
use rabbitmqtobucketqueue.Bucket.Chunk.{
  chunk, chunk_loop, chunk_partition, chunk-ends, concat, AllFit,
}
use rabbitmqtobucketqueue.Bucket.Tick.{
  do_spill, do_item, count_or_die, charge_failed, spill_failed, spill_chunk, item_failed, item_one,
  item_all, spill_chunks, item_chunks, consume, spill, report, schedule, end_tick, spill_balance,
  tick_with, tick, fire, rounds,
}
use rabbitmqtobucketqueue.Bucket.Settle.Counts.{Responds}
use rabbitmqtobucketqueue.Bucket.Settle.Rounds.{IsSettled, rounds-IsSettled}
use rabbitmqtobucketqueue.Bucket.Rate.Limit.{IsWithin, rounds_limit}
use rabbitmqtobucketqueue.Bucket.Rate.Memory.{total, max_batch, memory-Meters, rounds-memory}
use rabbitmqtobucketqueue.Bucket.Life.{Happening, corks, turns, happen, live}
use rabbitmqtobucketqueue.Bucket.Life.Corked.{rounds_corked, handle_fatal_error-stops, newest}

abbrev pub Queue : Type 0
Queue = List Message

abbrev front : Queue → Result Failure (Option Message) × Queue
front [] = (ok none, [])
front (m ∷ ms) = (ok (some m), ms)

abbrev pub rabbit : Channel Queue
rabbit = record {
  get = λ q. front;
  ack = λ m w. (ok tt, w);
  nack = λ m requeue w. (ok tt, if requeue then w ++ m ∷ [] else w);
  close = λ w. (ok tt, w);
  meanwhile = λ w. ([], w);
}

abbrev pub message : ℕ → Message
message n = record { delivery_tag = n; content = n ∷ [] }

-- The callback refuses a chunk that begins with message 3, and asks for it to be re-enqueued.
abbrev pub picky : List (DeserializedMessage ℕ) → Queue → Result Failure Unit₀ × Queue
picky [] w = (ok tt, w)
picky (d ∷ ds) w =
    (if d.message.delivery_tag == 3 then err (re_enquable "later" true false) else ok tt, w)

abbrev options : Options Queue ℕ
options = record {
  queue = "jobs";
  max_batch = 3;
  chunk_size = 2;
  discard_on_deserialize_error = true;
  discard_on_validation_error = true;
  discard_on_invalid = true;
  on_spill = some picky;
  on_item = none;
  validate_item = none;
  deserialize_item = none;
}

abbrev env : Env Queue Timed ℕ
env = record { channel = rabbit; driver = memory_driver Failure; options = options }

abbrev stored : Memory
stored = record { queue = "jobs"; max_batch = 3; interval = 1000; total = 0 }

-- The timer fires before the fourth call of the coordinator.
abbrev timed : Timed
timed = record { memory = stored; passed = false ∷ false ∷ false ∷ true ∷ [] }

abbrev pub bucket : Bucket Queue Timed ℕ
bucket = record {
  booted = false;
  corked = false;
  immediate = true;
  has_connection = true;
  coordinator = timed;
  world = message 1 ∷ message 2 ∷ message 3 ∷ message 4 ∷ [];
  trace = [];
}

-- Everything that a run of rounds over a channel computes with.
run_with : Channel Queue → ℕ → Bucket Queue Timed ℕ
unfolding rounds fire tick tick_with spill_balance end_tick schedule report spill consume
    spill_chunks item_chunks item_all spill_chunk item_one item_failed spill_failed charge_failed
    count_or_die do_spill do_item get_messages get_single_message do_ack do_nack do_ack_all
    do_nack_all increment handle_fatal_error deserialize_all deserialize validate_all
    validate_defined validate chunk chunk_loop reenqueue counts_toward_balance memory_driver arrive
    Memory.balance Memory.increment Memory.timer interrupted interrupt_all interrupt cork close_all
    close_ignoring disconnect close_connection
run_with channel n = rounds (record env { channel = channel }) n bucket

-- The first round takes three messages: one chunk is acked and counted, the message that the
-- callback refuses goes back to the queue.
run_one :
    let s = run_with rabbit 1 in
    (s.world ≡ message 4 ∷ message 3 ∷ [])
    × (total s.coordinator ≡ 2)
    × (s.immediate ≡ true)
    × (s.trace
        ≡ drain_event
          ∷ nacked (message 3) true
          ∷ error_event (re_enquable "later" true false)
          ∷ incremented 2
          ∷ acked (message 2)
          ∷ acked (message 1)
          ∷ got (message 3)
          ∷ got (message 2)
          ∷ got (message 1)
          ∷ spill_event 3
          ∷ tick_event (some 3)
          ∷ [])
unfolding run_with
run_one = (refl, refl, refl, refl)

-- When message 4 is the next of the queue, other code corks the consumer: the round goes on and
-- settles what it has taken, but no other follows.
abbrev corked_when : Queue → List Interrupt × Queue
corked_when [] = ([], [])
corked_when (m ∷ ms) = (if m.delivery_tag == 4 then corking ∷ [] else [], m ∷ ms)

corked_midway :
    let s = run_with (record rabbit { meanwhile = corked_when }) 2 in
    (s.world ≡ message 4 ∷ message 3 ∷ []) × (s.corked ≡ true) × (s.immediate ≡ false)
unfolding run_with
corked_midway = (refl, refl, refl)

-- When message 4 is the next of the queue, the consumer is shut down with a purge: the round that
-- has begun settles what it has taken, and no other follows.
abbrev shut_down_when : Queue → List Interrupt × Queue
shut_down_when [] = ([], [])
shut_down_when (m ∷ ms) =
    (if m.delivery_tag == 4 then corking ∷ purging ∷ ending ∷ [] else [], m ∷ ms)

shut_down_midway :
    let s = run_with (record rabbit { meanwhile = shut_down_when }) 2 in
    (s.world ≡ message 4 ∷ message 3 ∷ []) × (s.corked ≡ true) × (s.immediate ≡ false)
unfolding run_with
shut_down_midway = (refl, refl, refl)

-- RabbitMQ and the memory coordinator answer each call.
answers_get : (w : Queue) → (r : Option Message) × ((front w).0 ≡ ok r)
answers_get [] = (none, refl)
answers_get (m ∷ ms) = (some m, refl)

answers : Responds env
unfolding memory_driver
answers = record {
  get_ok = λ q w. answers_get w;
  ack_ok = λ m w. refl;
  nack_ok = λ m requeue w. refl;
  increment_ok = λ n c. refl;
}

on_spill_given : env.options.on_spill ≢ none
on_spill_given e = cc

-- Message 3, which is refused and re-enqueued, over five rounds.
rounds-IsSettled_example : IsSettled env 3 bucket (rounds env 5 bucket)
rounds-IsSettled_example =
    rounds-IsSettled env 3 answers (inl on_spill_given) (omega arith) 5 bucket

rounds_limit_example :
    IsWithin env total max_batch memory-Meters (omega arith) bucket (rounds env 5 bucket)
rounds_limit_example =
    rounds_limit env total max_batch memory-Meters (omega arith) 5 bucket (omega arith)

rounds-memory_example :
    let s = rounds env 5 bucket in
    (total s.coordinator ≤ max_batch s.coordinator)
    × (max_batch s.coordinator ≡ max_batch bucket.coordinator)
rounds-memory_example = rounds-memory env refl (omega arith) 5 bucket (omega arith)

-- A round, and then the consumer is corked.
abbrev closing : List Happening
closing = corks ∷ turns ∷ []

closing_corks : (live env closing bucket).corked ≡ true
unfolding live happen cork
closing_corks = refl

rounds_corked_example : rounds env 7 (live env closing bucket) ≡ live env closing bucket
rounds_corked_example = rounds_corked env closing bucket 7 (λ c. cc) closing_corks

handle_fatal_error-stops_example :
    let s = handle_fatal_error env (plain "gone") bucket in
    (newest s.trace ≡ some (died_event (plain "gone")))
    × (s.corked ≡ true)
    × ((n : ℕ) → rounds env n s ≡ s)
handle_fatal_error-stops_example = handle_fatal_error-stops env (plain "gone") bucket

abbrev three : List ℕ
three = 1 ∷ 2 ∷ 3 ∷ []

chunk_partition_example : (concat (chunk three 2) ≡ three) × AllFit 2 (chunk three 2)
chunk_partition_example = chunk_partition three 2 (omega arith)

chunk-ends_example :
    (chunk_loop 9 three 2 0 ≡ chunk three 2)
    × (3 ≤ 2 * length (chunk three 2))
    × (2 * length (chunk three 2) < 5)
chunk-ends_example = chunk-ends three 2 9 (omega arith) (omega arith)
