-- ===== src/Tests/Together.antt =====
-- Two consumers over one table: rounds that do not overlap, and rounds that do.
use rabbitmqtobucketqueue.Common.{ℕ, ◌≤◌, ◌≡◌, refl, true, String, List, [], ◌∷◌, arith}
use rabbitmqtobucketqueue.Coordinator.Shared.{Timed, Visit, shared_driver, arrive, all_foreign}
use rabbitmqtobucketqueue.Coordinator.Database
use rabbitmqtobucketqueue.Coordinator.Database.{Row, Database, sum}
use rabbitmqtobucketqueue.Coordinator.Database.Timed.{
  Held, Foreign, declutters, increments, database_store,
}
use rabbitmqtobucketqueue.Coordinator.Database.Timed as DatabaseTimed
use rabbitmqtobucketqueue.Bucket.Defs.{Message, Env, Bucket}
use rabbitmqtobucketqueue.Bucket.Chunk.{chunk, chunk_loop}
use rabbitmqtobucketqueue.Bucket.Items.{
  deserialize_all, deserialize, validate_all, validate_defined, validate,
}
use rabbitmqtobucketqueue.Bucket.Calls.{
  get_messages, get_single_message, do_ack, do_ack_all, increment, interrupted, interrupt_all,
}
use rabbitmqtobucketqueue.Bucket.Tick.{
  rounds, fire, tick, tick_with, spill_balance, end_tick, schedule, report, spill, consume,
  spill_chunks, spill_chunk, count_or_die, do_spill,
}
use rabbitmqtobucketqueue.Bucket.Rate.Together.{Member, turns, anyone, all_counted, turns-together}
use rabbitmqtobucketqueue.Tests.Rates.{
  table_sql, mailbox, settings, unreachable, jobs_database, waiting, is_mine, database_env, letter,
}

abbrev Shared : Type 0
Shared = Timed anyone (Held (List Row)) (Foreign anyone)

abbrev env : Env (List Message) Shared ℕ
env = record {
  channel = mailbox;
  driver = shared_driver (database_store anyone table_sql unreachable);
  options = settings;
}

abbrev call : ℕ → String → List (Foreign anyone) → Visit anyone (Foreign anyone)
call passed uuid others = record {
  passed = passed;
  others = others;
  answers = true;
  lasts = 2;
  uuid = uuid;
  drawn = refl;
}

abbrev start : Shared
start = record {
  store = record { database = jobs_database; table = [] };
  now = 0;
  visits = call 5 "a" [] ∷ call 1 "b" (declutters 5 ∷ []) ∷ call 3 "c" [] ∷ [];
  idle = call 10 "d" [];
}

abbrev member : Member (List Message) Shared ℕ
member = record { env = env; bucket = waiting start }

abbrev two : List (Member (List Message) Shared ℕ)
two = member ∷ member ∷ []

turns-together_example :
    let c = (turns (0 ∷ 1 ∷ 1 ∷ 0 ∷ 1 ∷ []) start two).0 in
    (all_counted table_sql unreachable c ≤ c.store.database.max_batch)
    × (c.store.database.max_batch ≡ 4)
turns-together_example =
    turns-together table_sql unreachable (0 ∷ 1 ∷ 1 ∷ 0 ∷ 1 ∷ []) start two
      ((refl, omega arith), ((refl, omega arith), tt)) (omega arith)

-- Another instance counts 4 between the read of the balance and the count of a round that takes 4:
-- together they have counted twice the quota, and this one has counted 4.
abbrev overlapping : Timed is_mine (Held (List Row)) (Foreign is_mine)
overlapping = record {
  store = record { database = jobs_database; table = [] };
  now = 0;
  visits =
      record { passed = 1; others = []; answers = true; lasts = 1; uuid = "b"; drawn = refl }
      ∷ record {
        passed = 1;
        others = increments jobs_database 2 "d" 4 refl ∷ [];
        answers = true;
        lasts = 1;
        uuid = "b";
        drawn = refl;
      }
      ∷ [];
  idle = record { passed = 1; others = []; answers = true; lasts = 1; uuid = "c"; drawn = refl };
}

abbrev crowded : Bucket (List Message) (Timed is_mine (Held (List Row)) (Foreign is_mine)) ℕ
crowded = record (waiting overlapping) { world = letter 1 ∷ letter 2 ∷ letter 3 ∷ letter 4 ∷ [] }

after_round : Bucket (List Message) (Timed is_mine (Held (List Row)) (Foreign is_mine)) ℕ
unfolding rounds fire tick tick_with spill_balance end_tick schedule report spill consume
    spill_chunks spill_chunk count_or_die do_spill get_messages get_single_message do_ack do_ack_all
    increment deserialize_all deserialize validate_all validate_defined validate chunk chunk_loop
    shared_driver interrupted interrupt_all arrive all_foreign database_store Database.increment
    Database.get_balance Database.difference
after_round = rounds database_env 1 crowded

overlap :
    let c = after_round.coordinator in
    (sum c.store.table ≡ 8) × (DatabaseTimed.counted is_mine table_sql c.now c.store ≡ 4)
unfolding after_round
overlap = (refl, refl)
