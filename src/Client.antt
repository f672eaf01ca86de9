-- ===== src/Client.antt =====
-- src/CoordinationClient.ts and src/coordinators/lite.ts: a coordination driver that keeps its count
-- at a coordination server. The messages are what the client hands to its encryption; jsonwebtoken,
-- the connection (socket.io-client) and the decryption are outside.
pub mod Frame
pub mod Leaks
pub mod Listeners
pub mod Balance
pub mod Keys
pub mod Settles
pub mod Arrivals
pub mod Broadcasts
use rabbitmqtobucketqueue.Common.{
  ℕ, zero, suc, ◌+◌, ◌≡◌, Bool, true, false, not, ◌&&◌, ◌||◌, if◌then◌else◌, ◌==◌, Option, none,
  some, List, [], ◌∷◌, ◌++◌, String, str_eq, ◌<>◌, Result, ok, err, Unit₀,
}
use rabbitmqtobucketqueue.Common.Int.{pos}
use rabbitmqtobucketqueue.Server.{Value, undefined, number, text, object, at}

-- A function object: one that an expression of the code makes, or what its `bind` gives, which is
-- another function.
pub data Function : Type 0 where
  literal bound : ℕ → Function

abbrev pub same_function : Function → Function → Bool
same_function (literal n) (literal m) = n == m
same_function (bound n) (bound m) = n == m
same_function _ _ = false

-- What a listener for any event does: update the balance, or also resolve a promise; or resolve a
-- promise when a pong comes.
pub data Listener : Type 0 where
  updates : Listener
  confirms : ℕ → Listener
  pongs : ℕ → Listener

-- `functions` counts the calls that made a function and a promise, which have the same number.
-- `ready` is the promise of that name, `settled` the other promises with their values, `awaiting` the
-- calls that wait for theirs, and `emitted` the messages, the newest first.
pub record Client : Type 0 where
  pub queue : String
  pub max_batch : ℕ
  pub interval : ℕ
  pub connected : Bool
  pub balance : Value
  pub ready : Option (Result String Unit₀)
  pub listeners : List (Function × Listener)
  pub functions : ℕ
  pub settled : List (ℕ × Bool)
  pub awaiting : List ℕ
  pub emitted : List (String × List Value)

-- `['queue', queue, 'balance'].join(':')`
abbrev pub balance_key : String → String
balance_key queue = "queue:" <> (queue <> ":balance")

abbrev pub emit : String → List Value → Client → Client
emit event args c = record c { emitted = (event, args) ∷ c.emitted }

-- `onAny` and `offAny` of the socket: the listeners are called in the order of their registration,
-- and the first that is the given function is removed.
abbrev pub on_any : Function → Listener → Client → Client
on_any f l c = record c { listeners = c.listeners ++ (f, l) ∷ [] }

unfoldable pub remove : Function → List (Function × Listener) → List (Function × Listener)
remove f [] = []
remove f ((g, l) ∷ ls) = let rest = remove f ls in if same_function g f then ls else (g, l) ∷ rest

unfoldable pub off_any : Function → Client → Client
unfolding remove
off_any f c = record c { listeners = remove f c.listeners }

-- A promise is settled once.
abbrev pub is_settled : ℕ → List (ℕ × Bool) → Bool
is_settled p [] = false
is_settled p ((r, b) ∷ rs) = (r == p) || is_settled p rs

abbrev pub resolve : ℕ → Bool → Client → Client
resolve p b c = if is_settled p c.settled then c else record c { settled = (p, b) ∷ c.settled }

abbrev pub settle_ready :
    Result String Unit₀ → Option (Result String Unit₀) → Option (Result String Unit₀)
settle_ready r none = some r
settle_ready r (some r') = some r'

-- The constructor; the number of its listener is 0.
unfoldable pub new : String → ℕ → ℕ → Client
new queue max_batch interval = record {
  queue = queue;
  max_batch = max_batch;
  interval = interval;
  connected = false;
  balance = number (pos 0);
  ready = none;
  listeners = (literal 0, updates) ∷ [];
  functions = 1;
  settled = [];
  awaiting = [];
  emitted = [];
}

abbrev pub configuration_of : Client → String → Value
configuration_of c key =
    if str_eq key "queue"
    then text c.queue
    else if str_eq key "maxBatch"
    then number (pos c.max_batch)
    else if str_eq key "interval"
    then number (pos c.interval)
    else undefined

unfoldable pub on_connect : Client → Client
on_connect c =
    emit "coordinate" (object (configuration_of c) ∷ [])
      (record c { connected = true; ready = settle_ready (ok tt) c.ready })

unfoldable pub on_disconnect : String → Client → Client
on_disconnect reason c = record c { connected = false; ready = settle_ready (err reason) c.ready }

-- The arguments of a message; the decryption splits a text, and throws at anything else.
abbrev pub decrypt_args : (String → Value → Value) → Value → List Value → Option (List Value)
decrypt_args decrypt event [] = some []
decrypt_args decrypt event (text a ∷ args) =
    let rest = decrypt_args decrypt event args in
    elim rest [ none ↦ none | some vs ↦ some (decrypt a event ∷ vs) ]
decrypt_args decrypt event (_ ∷ args) = none

abbrev pub is_event : String → Value → Bool
is_event e (text t) = str_eq t e
is_event e _ = false

-- A listener at a message that is decrypted.
abbrev pub hears : Value → List Value → Listener → Client → Client
hears event args updates c =
    if is_event (balance_key c.queue) event then record c { balance = at 0 args } else c
hears event args (confirms p) c =
    if is_event (balance_key c.queue) event
    then resolve p true (record c { balance = at 0 args })
    else c
hears event args (pongs p) c = if is_event "pong" event then resolve p true c else c

abbrev pub hear :
    Value → Option (List Value) → List (Function × Listener) → Client → Result String Unit₀ × Client
hear event args [] c = (ok tt, c)
hear event none (l ∷ ls) c = (err "value.split is not a function", c)
hear event (some args) ((f, l) ∷ ls) c = hear event (some args) ls (hears event args l c)

-- A message reaches the listeners that there are.
unfoldable pub receive :
    (String → Value → Value) → String → List Value → Client → Result String Unit₀ × Client
receive decrypt event args c =
    let e = decrypt event (text "event") in hear e (decrypt_args decrypt e args) c.listeners c

-- The listener of a call is registered by what its `bind` gives; the call waits for its promise.
abbrev pub start : (ℕ → Listener) → String → List Value → Client → Client
start listener event args c = emit event args (
    on_any (bound c.functions) (listener c.functions)
      (record c { functions = suc c.functions; awaiting = c.functions ∷ c.awaiting }))

unfoldable pub increment : ℕ → Client → Client
increment count c = start confirms "increment" (text c.queue ∷ number (pos count) ∷ []) c

unfoldable pub reset : Client → Client
reset c = start confirms "reset" (text c.queue ∷ []) c

-- Without a connection the test is false at once.
unfoldable pub test : Client → Client
test c =
    if not c.connected
    then record c { functions = suc c.functions; settled = (c.functions, false) ∷ c.settled }
    else start pongs "ping" [] c

-- The timer of a test that has begun.
unfoldable pub time_out : ℕ → Client → Client
time_out p c = resolve p false c

-- What follows the `await` of a call: `offAny` is given the function itself.
abbrev pub without : ℕ → List ℕ → List ℕ
without p [] = []
without p (r ∷ rs) = let rest = without p rs in if r == p then rs else r ∷ rest

abbrev pub is_awaiting : ℕ → List ℕ → Bool
is_awaiting p [] = false
is_awaiting p (r ∷ rs) = (r == p) || is_awaiting p rs

unfoldable pub resume : ℕ → Client → Client
unfolding off_any
resume p c =
    if is_awaiting p c.awaiting && is_settled p c.settled
    then off_any (literal p) (record c { awaiting = without p c.awaiting })
    else c

unfoldable pub shutdown : Client → Client
unfolding on_disconnect
shutdown c = if c.connected then on_disconnect "io client disconnect" c else c

-- lite.ts: the driver's test rejects if the client's is false.
abbrev pub value_of : ℕ → List (ℕ × Bool) → Option Bool
value_of p [] = none
value_of p ((r, b) ∷ rs) = let rest = value_of p rs in if r == p then some b else rest

abbrev pub test_failed : String
test_failed = "Did not get response from coordinator withing 10 seconds"

unfoldable pub test_result : ℕ → Client → Option (Result String Unit₀)
test_result p c = elim (value_of p c.settled) [
  | none ↦ none
  | some b ↦ some (if b then ok tt else err test_failed)
]

-- What can happen to a client.
pub data Happening : Type 0 where
  connects resets tests shuts_down : Happening
  disconnects : String → Happening
  receives : String → List Value → Happening
  increments : ℕ → Happening
  times_out resumes : ℕ → Happening

module _ (decrypt : String → Value → Value) where
  unfoldable pub happen : Happening → Client → Client
  unfolding on_connect on_disconnect receive increment reset test time_out resume shutdown
  happen connects c = on_connect c
  happen (disconnects reason) c = on_disconnect reason c
  happen (receives event args) c = (receive decrypt event args c).1
  happen (increments n) c = increment n c
  happen resets c = reset c
  happen tests c = test c
  happen (times_out p) c = time_out p c
  happen (resumes p) c = resume p c
  happen shuts_down c = shutdown c

  -- The happenings, the newest first.
  unfoldable pub live : List Happening → Client → Client
  live [] c = c
  live (x ∷ h) c = happen x (live h c)
