-- ===== src/Server/Silent.antt =====
-- The events that clients send: answering one sends no balance.
use rabbitmqtobucketqueue.Common.{
  ℕ, ◌≡◌, refl, List, [], ◌∷◌, String, Option, some, none, arith, Result, Unit₀, ok, err,
}
use rabbitmqtobucketqueue.Coordinator.Memory.{Memory, increment, reset}
use rabbitmqtobucketqueue.Server.{
  Sent, balance_sent, undefined, Value, text, object, Server, get, name, at_least_one, at, set_new,
  new_coordinator, reset_with, dispatch, initialize_new_coordinator, change, increment_with,
  increment_balance, reset_balance, answer, handle, decrypt_all,
}

-- The balances among the messages sent, with the sockets and queues.
abbrev pub reports : List Sent → List (String × String × ℕ)
reports [] = []
reports (balance_sent x q n ∷ ms) = (x, q, n) ∷ reports ms
reports (_ ∷ ms) = reports ms

-- No balance is sent from `s` to `s'`.
abbrev pub Silent : Server → Server → Type 0
Silent s s' = reports s'.sent ≡ reports s.sent

change-Silent :
    (o : Option Memory) (q : String) (f : Memory → Memory) (s : Server)
    → Silent s (change o q f s).1
change-Silent none q f s = refl
change-Silent (some c) q f s = ground arith

set_new-Silent :
    (o : Option Memory) (q : String) (m i : ℕ) (s : Server) → Silent s (set_new o q m i s).1
set_new-Silent none q m i s = refl
set_new-Silent (some c) q m i s = refl

new_coordinator-Silent :
    (q : Option String) (m i : Option ℕ) (s : Server) → Silent s (new_coordinator q m i s).1
new_coordinator-Silent none m i s = refl
new_coordinator-Silent (some q) none i s = refl
new_coordinator-Silent (some q) (some m) none s = refl
new_coordinator-Silent (some q) (some m) (some i) s = set_new-Silent (get q s.coordinators) q m i s

initialize_new_coordinator-Silent :
    (v : Value) (s : Server) → Silent s (initialize_new_coordinator v s).1
unfolding initialize_new_coordinator
initialize_new_coordinator-Silent (object f) s =
    new_coordinator-Silent (name (f "queue")) (at_least_one (f "maxBatch"))
      (at_least_one (f "interval")) s
initialize_new_coordinator-Silent _ s = refl

increment_with-Silent :
    (q : Option String) (n : Option ℕ) (s : Server) → Silent s (increment_with q n s).1
increment_with-Silent none n s = refl
increment_with-Silent (some q) none s = refl
increment_with-Silent (some q) (some n) s = change-Silent (get q s.coordinators) q (increment n) s

reset_with-Silent : (q : Option String) (s : Server) → Silent s (reset_with q s).1
reset_with-Silent none s = refl
reset_with-Silent (some q) s = change-Silent (get q s.coordinators) q reset s

answer-Silent :
    (x : String) (s : Server) (r : Result String Unit₀ × Server)
    → Silent s r.1
    → Silent s (answer x r)
answer-Silent x s (ok u, t) h = h
answer-Silent x s (err e, t) h = h

handle-Silent : (x e : String) (args : List Value) (s : Server) → Silent s (handle x e args s)
unfolding handle increment_balance reset_balance
handle-Silent x e args s =
    let made =
      answer-Silent x s (initialize_new_coordinator (at 0 args) s)
        (initialize_new_coordinator-Silent (at 0 args) s) in
    let grown =
      answer-Silent x s (increment_balance args s)
        (increment_with-Silent (name (at 0 args)) (at_least_one (at 1 args)) s) in
    let emptied =
      answer-Silent x s (reset_balance args s) (reset_with-Silent (name (at 0 args)) s) in
    ground (arith, made, grown, emptied)

module _ (decrypt : String → String → Value) where
  pub dispatch-Silent :
      (x : String) (v : Value) (args : List Value) (s : Server)
      → Silent s (dispatch decrypt x v args s)
  unfolding dispatch
  dispatch-Silent x (text n) args s = handle-Silent x n (decrypt_all decrypt n args) s
  dispatch-Silent x undefined args s = refl
  dispatch-Silent x _ args s = refl
