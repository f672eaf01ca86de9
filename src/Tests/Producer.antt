-- ===== src/Tests/Producer.antt =====
-- The producer over a supply of ids, with a queue that refuses the content 3.
use rabbitmqtobucketqueue.Common.{
  ℕ, ◌==◌, true, false, if◌then◌else◌, ◌≡◌, refl, Option, none, some, List, [], ◌∷◌, String, ok,
  err,
}
use rabbitmqtobucketqueue.Promise.{Call}
use rabbitmqtobucketqueue.Bucket.Defs.{Failure, plain}
use rabbitmqtobucketqueue.Producer.{
  Outlet, Env, Producer, item, array, not_booted, serialize, correlate, deliver, enqueue_and_await,
  in_order, enqueue_items, enqueue, shutdown,
}
use rabbitmqtobucketqueue.Producer.Answers.{ids}
use rabbitmqtobucketqueue.Producer.Stops.{enqueue_items-stops}
use rabbitmqtobucketqueue.Producer.Boot.{
  Broker, Config, create, get_rabbit_mq_queue, take_channel, finish, do_boot, enqueues, fails, live,
  do_boot-never_sends,
}

abbrev Supply : Type 0
Supply = List String

abbrev next_id : Call Supply String
next_id [] = (ok "last", [])
next_id (c ∷ w) = (ok c, w)

abbrev refuses : List ℕ → Option Failure
refuses [] = none
refuses (n ∷ ns) = if n == 3 then some (plain "refused") else none

abbrev outlet : Outlet Supply
outlet = record {
  confirms = true;
  send = λ q b c w. (ok tt, w);
  send_confirmed = λ q b c w. (ok (refuses b), w);
  close = λ w. (ok tt, w);
}

abbrev json : ℕ → Call Supply (List ℕ)
json n w = (ok (n ∷ []), w)

abbrev env : Env Supply ℕ
env = record {
  queue = "jobs";
  outlet = outlet;
  serialize_item = none;
  default_serializer = json;
  uuid = next_id;
}

abbrev producer : Producer Supply
producer = record {
  booted = false;
  has_connection = true;
  world = "a" ∷ "b" ∷ "c" ∷ [];
  trace = [];
}

-- Before it one message is sent, after it none.
enqueue_items-stops_example : enqueue_items env (array (1 ∷ 3 ∷ 2 ∷ [])) true true producer ≡ (
  err (plain "refused"),
  (enqueue_and_await env 3 true none (in_order env (1 ∷ []) true producer).1).1,
)
unfolding in_order enqueue_and_await serialize correlate deliver
enqueue_items-stops_example = enqueue_items-stops env (1 ∷ []) (2 ∷ []) 3 true producer refl refl

abbrev broker : Broker Supply
broker = record {
  connect = λ w. (ok tt, w);
  create_channel = λ w. (ok outlet, w);
  create_confirm_channel = λ w. (ok outlet, w);
  assert_queue = λ q c w. (ok tt, w);
}

abbrev config : Config Supply ℕ
config = record {
  queue = "jobs";
  rmq_channel = none;
  rmq_queue_type = "queue";
  serialize_item = some (λ n w. (ok (n ∷ n ∷ []), w));
}

abbrev made : Supply → Producer Supply
made w = record { booted = false; has_connection = true; world = w; trace = [] }

boots : do_boot broker json next_id config [] ≡ (ok (env, made), [])
unfolding do_boot take_channel get_rabbit_mq_queue create finish
boots = refl

do_boot-never_sends_example :
    let s = live env (fails (plain "gone") ∷ enqueues (item 1) false false ∷ []) (made []) in
    (enqueue env (item 2) true true s ≡ (err not_booted, s))
    × (shutdown env s ≡ (err not_booted, s))
    × (ids s.trace ≡ [])
    × (env.serialize_item ≡ none)
do_boot-never_sends_example =
    do_boot-never_sends broker json next_id config [] [] env made boots
      (fails (plain "gone") ∷ enqueues (item 1) false false ∷ []) (item 2) true true
