-- ===== src/Server/Changes.antt =====
-- What the handlers of the server's events change in the account of a queue.
use rabbitmqtobucketqueue.Common.{
  ℕ, suc, if◌then◌else◌, ◌≡◌, refl, Option, none, some, [], ◌∷◌, ◌++◌, String, str_eq, eq_iff,
  Result, Unit₀, ok, err, arith,
}
use rabbitmqtobucketqueue.Common.Int.{pos}
use rabbitmqtobucketqueue.Coordinator.Memory
use rabbitmqtobucketqueue.Coordinator.Memory.{Memory}
use rabbitmqtobucketqueue.Server.{
  Value, number, text, object, Server, Coordinators, get, update, name, at_least_one, set_new,
  new_coordinator, initialize_new_coordinator, change, increment_with, reset_with, answer,
}
use rabbitmqtobucketqueue.Server.Accounts.{
  Account, coordinates, increments, resets, coordinates_of, object_of, increments_of, resets_of,
  served,
}

-- The account that the server's coordinator of a queue amounts to.
abbrev pub account_of : Option Memory → Option Account
account_of none = none
account_of (some c) = some (record { quota = c.max_batch; spent = c.total })

abbrev pub applied : (Memory → Memory) → Option Memory → Option Memory
applied f none = none
applied f (some c) = some (f c)

pub get-update :
    (q p : String) (f : Memory → Memory) (cs : Coordinators)
    → get q (update p f cs) ≡ (if str_eq p q then applied f (get q cs) else get q cs)
unfolding get update
get-update q p f [] = ground arith
get-update q p f ((x, c) ∷ cs) =
    ground (arith, get-update q p f cs, eq_iff x p, eq_iff x q, eq_iff p q)

pub get-append :
    (q p : String) (c : Memory) (cs : Coordinators)
    → get p cs ≡ none
    → get q (cs ++ (p, c) ∷ []) ≡ (if str_eq p q then some c else get q cs)
unfolding get
get-append q p c [] h = refl
get-append q p c ((x, d) ∷ cs) h =
    ground (arith, h, get-append q p c cs, eq_iff x p, eq_iff x q, eq_iff p q)

abbrev pub account : String → Server → Option Account
account q s = account_of (get q s.coordinators)

pub change-account :
    (q p : String) (f : Memory → Memory) (s : Server) (o : Option Memory)
    → get p s.coordinators ≡ o
    → get q (change o p f s).1.coordinators
      ≡ (if str_eq p q then applied f (get q s.coordinators) else get q s.coordinators)
change-account q p f s none h = ground (arith, h, eq_iff p q)
change-account q p f s (some c) h = ground (arith, get-update q p f s.coordinators)

pub increment-account :
    (q p : String) (n : ℕ) (s : Server)
    → account q (change (get p s.coordinators) p (Memory.increment n) s).1
      ≡ served q (increments p n) (account q s)
unfolding Memory.increment
increment-account q p n s =
    ground (arith, change-account q p (Memory.increment n) s (get p s.coordinators) refl)

pub reset-account :
    (q p : String) (s : Server)
    → account q (change (get p s.coordinators) p Memory.reset s).1
      ≡ served q (resets p) (account q s)
unfolding Memory.reset
reset-account q p s = ground (arith, change-account q p Memory.reset s (get p s.coordinators) refl)

pub set_new-account :
    (q p : String) (m i : ℕ) (s : Server) (o : Option Memory)
    → get p s.coordinators ≡ o
    → account q (set_new o p m i s).1 ≡ served q (coordinates p m) (account q s)
unfolding Memory.new
set_new-account q p m i s none h =
    ground (arith, h, eq_iff p q, get-append q p (Memory.new p m i) s.coordinators h)
set_new-account q p m i s (some c) h = ground (arith, h, eq_iff p q)

pub answer-account :
    (q x : String) (r : Result String Unit₀ × Server) → account q (answer x r) ≡ account q r.1
answer-account q x (ok u, s) = refl
answer-account q x (err e, s) = refl

pub increment_with-account :
    (q : String) (v w : Value) (s : Server)
    → account q (increment_with (name v) (at_least_one w) s).1
      ≡ served q (increments_of v w) (account q s)
increment_with-account q (text p) (number (pos (suc n))) s =
    ground (arith, increment-account q p (suc n) s)
increment_with-account q (text p) _ s = ground arith
increment_with-account q _ _ s = refl

pub reset_with-account :
    (q : String) (v : Value) (s : Server)
    → account q (reset_with (name v) s).1 ≡ served q (resets_of v) (account q s)
reset_with-account q (text p) s = ground (arith, reset-account q p s)
reset_with-account q _ s = refl

pub new_coordinator-account :
    (q : String) (v w u : Value) (s : Server)
    → account q (new_coordinator (name v) (at_least_one w) (at_least_one u) s).1
      ≡ served q (coordinates_of v w u) (account q s)
new_coordinator-account q (text p) (number (pos (suc m))) (number (pos (suc i))) s =
    ground (arith, set_new-account q p (suc m) (suc i) s (get p s.coordinators) refl)
new_coordinator-account q (text p) (number (pos (suc m))) _ s = ground arith
new_coordinator-account q (text p) _ _ s = ground arith
new_coordinator-account q _ _ _ s = refl

pub object-account :
    (q : String) (v : Value) (s : Server)
    → account q (initialize_new_coordinator v s).1 ≡ served q (object_of v) (account q s)
unfolding initialize_new_coordinator
object-account q (object f) s =
    new_coordinator-account q (f "queue") (f "maxBatch") (f "interval") s
object-account q _ s = refl
