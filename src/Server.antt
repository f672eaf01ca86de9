-- ===== src/Server.antt =====
-- src/CoordinationServer.ts: the memory coordinators of many queues, kept for clients that connect
-- over sockets. The messages are what the server hands to its encryption; jsonwebtoken and the
-- encryption are parameters of the handlers.
pub mod Accounts
pub mod Changes
pub mod Refines
pub mod Silent
pub mod Schedule
pub mod Connect
pub mod Newest
pub mod Unique
use rabbitmqtobucketqueue.Common.{
  ℕ, zero, suc, Bool, true, false, not, ◌||◌, if◌then◌else◌, Option, none, some, List, [], ◌∷◌,
  ◌++◌, map, String, str_eq, Result, ok, err, Unit₀,
}
use rabbitmqtobucketqueue.Common.Int.{ℤ, is_at_most_zero, pos_part}
use rabbitmqtobucketqueue.Coordinator.Memory
use rabbitmqtobucketqueue.Coordinator.Memory.{Memory}

-- A value that a client sends: numbers without a fraction, an object by its properties, which
-- are undefined where it has none.
pub data Value : Type 0 where
  undefined null : Value
  boolean : Bool → Value
  number : ℤ → Value
  text : String → Value
  object : (String → Value) → Value

-- What the server sends to a socket, by the socket's id.
pub data Sent : Type 0 where
  balance_sent : String → String → ℕ → Sent
  pong_sent : String → Sent
  error_sent : String → String → Sent
  disconnected : String → Sent

-- `on_next_tick` says whether `#onNextTick` is set, `scheduled` whether the immediate that set it
-- is still to run. The newest message is first.
pub record Server : Type 0 where
  pub coordinators : List (String × Memory)
  pub sockets : List String
  pub on_next_tick : Bool
  pub scheduled : Bool
  pub sent : List Sent

abbrev pub Coordinators : Type 0
Coordinators = List (String × Memory)

-- `Map.get`, and a change of the object that the map holds under a key.
unfoldable pub get : String → Coordinators → Option Memory
get queue [] = none
get queue ((q, c) ∷ cs) = let rest = get queue cs in if str_eq q queue then some c else rest

unfoldable pub update : String → (Memory → Memory) → Coordinators → Coordinators
update queue f [] = []
update queue f ((q, c) ∷ cs) =
    let rest = update queue f cs in if str_eq q queue then (q, f c) ∷ cs else (q, c) ∷ rest

unfoldable pub is_in : String → List String → Bool
is_in socket [] = false
is_in socket (x ∷ xs) = str_eq x socket || is_in socket xs

abbrev pub add : String → List String → List String
add socket sockets = if is_in socket sockets then sockets else sockets ++ socket ∷ []

unfoldable pub balances : Server → List (String × ℕ)
balances s = map (λ p. (p.0, Memory.balance p.1)) s.coordinators

-- One message to one socket, to all sockets, and the balances of all coordinators to one socket.
abbrev pub send : Sent → Server → Server
send m s = record s { sent = m ∷ s.sent }

unfoldable pub broadcast : String → ℕ → List String → Server → Server
broadcast queue balance [] s = s
broadcast queue balance (x ∷ xs) s =
    broadcast queue balance xs (send (balance_sent x queue balance) s)

unfoldable pub broadcast_all : Coordinators → Server → Server
broadcast_all [] s = s
broadcast_all ((q, c) ∷ cs) s = broadcast_all cs (broadcast q (Memory.balance c) s.sockets s)

unfoldable pub on_interval : Server → Server
unfolding broadcast_all
on_interval s = broadcast_all s.coordinators s

unfoldable pub send_balances : String → Coordinators → Server → Server
send_balances socket [] s = s
send_balances socket ((q, c) ∷ cs) s =
    send_balances socket cs (send (balance_sent socket q (Memory.balance c)) s)

-- The `catch` of a token that is not verified.
abbrev pub refuse : Bool → String → Server → Server
refuse true socket s = s
refuse false socket s =
    send (disconnected socket) (send (error_sent socket "Authentication Failed") s)

-- A token that is not verified is answered, and the handler goes on.
unfoldable pub on_socket_connect : (String → Bool) → String → String → Server → Server
unfolding send_balances
on_socket_connect verify token socket s =
    let s' = refuse (verify token) socket s in
    send_balances socket s'.coordinators (record s' { sockets = add socket s'.sockets })

-- `Map.delete`.
unfoldable pub delete : String → List String → List String
delete socket [] = []
delete socket (x ∷ xs) = let rest = delete socket xs in if str_eq x socket then rest else x ∷ rest

unfoldable pub on_socket_disconnect : String → Server → Server
unfolding delete
on_socket_disconnect socket s = record s { sockets = delete socket s.sockets }

-- A string that is not empty; a number that is at least 1.
abbrev pub name : Value → Option String
name (text q) = if str_eq q "" then none else some q
name _ = none

abbrev pub at_least_one : Value → Option ℕ
at_least_one (number n) = if is_at_most_zero n then none else some (pos_part n)
at_least_one _ = none

-- `Map.set`, unless the map has the queue.
abbrev pub set_new : Option Memory → String → ℕ → ℕ → Server → Result String Unit₀ × Server
set_new (some c) q m i s = (ok tt, s)
set_new none q m i s =
    (ok tt, record s { coordinators = s.coordinators ++ (q, Memory.new q m i) ∷ [] })

abbrev pub new_coordinator :
    Option String → Option ℕ → Option ℕ → Server → Result String Unit₀ × Server
new_coordinator (some q) (some m) (some i) s = set_new (get q s.coordinators) q m i s
new_coordinator none _ _ s = (err "Invalid coordinator configuration", s)
new_coordinator (some q) none _ s = (err "Invalid coordinator configuration", s)
new_coordinator (some q) (some m) none s = (err "Invalid coordinator configuration", s)

unfoldable pub initialize_new_coordinator : Value → Server → Result String Unit₀ × Server
initialize_new_coordinator (object f) s =
    new_coordinator (name (f "queue")) (at_least_one (f "maxBatch")) (at_least_one (f "interval")) s
initialize_new_coordinator _ s = (err "Invalid coordinator configuration", s)

-- `#onNextTick` is set to an immediate if it is not set; nothing unsets it.
abbrev pub schedule : Server → Server
schedule s = if s.on_next_tick then s else record s { on_next_tick = true; scheduled = true }

-- A change of the coordinator of a queue, and the broadcast that it schedules.
abbrev pub change :
    Option Memory → String → (Memory → Memory) → Server → Result String Unit₀ × Server
change none q f s = (err "Invalid coordinator", s)
change (some c) q f s = (ok tt, schedule (record s { coordinators = update q f s.coordinators }))

abbrev pub increment_with : Option String → Option ℕ → Server → Result String Unit₀ × Server
increment_with none amount s = (err "Invalid coordinator", s)
increment_with (some q) none s = (err "Invalid amount", s)
increment_with (some q) (some n) s = change (get q s.coordinators) q (Memory.increment n) s

-- The element of an array at an index.
abbrev pub at : ℕ → List Value → Value
at n [] = undefined
at zero (x ∷ xs) = x
at (suc n) (x ∷ xs) = at n xs

unfoldable pub increment_balance : List Value → Server → Result String Unit₀ × Server
increment_balance args s = increment_with (name (at 0 args)) (at_least_one (at 1 args)) s

abbrev pub reset_with : Option String → Server → Result String Unit₀ × Server
reset_with none s = (err "Invalid coordinator", s)
reset_with (some q) s = change (get q s.coordinators) q Memory.reset s

unfoldable pub reset_balance : List Value → Server → Result String Unit₀ × Server
reset_balance args s = reset_with (name (at 0 args)) s

-- The `try` of an event, which answers an error with its message.
abbrev pub answer : String → Result String Unit₀ × Server → Server
answer socket (ok u, s) = s
answer socket (err message, s) = send (error_sent socket message) s

-- The `switch` on the name of the event.
unfoldable pub handle : String → String → List Value → Server → Server
unfolding initialize_new_coordinator increment_balance reset_balance
handle socket event args s =
    if str_eq event "coordinate"
    then answer socket (initialize_new_coordinator (at 0 args) s)
    else if str_eq event "increment"
    then answer socket (increment_balance args s)
    else if str_eq event "reset"
    then answer socket (reset_balance args s)
    else if str_eq event "ping"
    then send (pong_sent socket) s
    else s

-- The arguments that are strings, decrypted for the event.
unfoldable pub decrypt_all : (String → String → Value) → String → List Value → List Value
decrypt_all decrypt event [] = []
decrypt_all decrypt event (text a ∷ args) = decrypt a event ∷ decrypt_all decrypt event args
decrypt_all decrypt event (_ ∷ args) = decrypt_all decrypt event args

-- The event after its decryption: no case of the `switch` is a value that is not a string.
unfoldable pub dispatch : (String → String → Value) → String → Value → List Value → Server → Server
unfolding handle decrypt_all
dispatch decrypt socket undefined args s = send (error_sent socket "Invalid Event") s
dispatch decrypt socket (text e) args s = handle socket e (decrypt_all decrypt e args) s
dispatch decrypt socket _ args s = s

unfoldable pub on_socket_event :
    (String → String → Value) → String → String → List Value → Server → Server
on_socket_event decrypt socket event args s = dispatch decrypt socket (decrypt event "event") args s

-- The event loop runs the immediate that was scheduled.
unfoldable pub turn : Server → Server
turn s = if s.scheduled then on_interval (record s { scheduled = false }) else s

-- What can happen to a server: a connection with its token, a disconnection, an event with its
-- arguments, the timer of 100 ms, the timer of a coordinator, and a turn of the event loop.
pub data Happening : Type 0 where
  connects : String → String → Happening
  disconnects : String → Happening
  events : String → String → List Value → Happening
  ticks turns : Happening
  fires : String → Happening

module _ (verify : String → Bool) (decrypt : String → String → Value) where
  unfoldable pub happen : Happening → Server → Server
  unfolding on_socket_connect on_socket_disconnect on_socket_event on_interval turn
  happen (connects socket token) s = on_socket_connect verify token socket s
  happen (disconnects socket) s = on_socket_disconnect socket s
  happen (events socket event args) s = on_socket_event decrypt socket event args s
  happen ticks s = on_interval s
  happen turns s = turn s
  happen (fires q) s = record s { coordinators = update q Memory.timer s.coordinators }

  -- The happenings, the newest first.
  unfoldable pub live : List Happening → Server → Server
  live [] s = s
  live (x ∷ h) s = happen x (live h s)

-- The constructor; its first broadcast has no coordinator to report.
unfoldable pub new : Server
new = record { coordinators = []; sockets = []; on_next_tick = false; scheduled = false; sent = [] }
