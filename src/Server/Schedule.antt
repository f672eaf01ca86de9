-- ===== src/Server/Schedule.antt =====
-- The immediate broadcast after an event, `#onNextTick`.
use rabbitmqtobucketqueue.Common.{
  ℕ, Bool, true, false, ◌≡◌, refl, List, [], ◌∷◌, String, Option, some, none, arith, ◌∙◌, Result,
  Unit₀, ok, err,
}
use rabbitmqtobucketqueue.Coordinator.Memory.{Memory, balance, increment, reset}
use rabbitmqtobucketqueue.Server.{
  Value, text, object, Server, Coordinators, get, broadcast, broadcast_all, on_interval,
  send_balances, on_socket_connect, on_socket_disconnect, name, at_least_one, at, set_new,
  new_coordinator, reset_with, dispatch, refuse, add, initialize_new_coordinator, change,
  increment_with, increment_balance, reset_balance, answer, handle, decrypt_all, on_socket_event,
  turn, Happening, connects, disconnects, events, ticks, turns, fires, happen, live,
}
use rabbitmqtobucketqueue.Server.Silent.{reports, Silent, dispatch-Silent}

-- The timer of 100 ms, and a new connection.
abbrev pub is_report : Happening → Bool
is_report ticks = true
is_report (connects x t) = true
is_report _ = false

-- `#onNextTick` is set, and its immediate has run.
abbrev pub IsSpent : Server → Type 0
IsSpent s = (s.on_next_tick ≡ true) × (s.scheduled ≡ false)

-- The fields that a broadcast leaves as they are.
abbrev pub Same : Server → Server → Type 0
Same s s' =
    (s'.coordinators ≡ s.coordinators)
    × (s'.on_next_tick ≡ s.on_next_tick)
    × (s'.scheduled ≡ s.scheduled)

Same-trans : (s t u : Server) → Same s t → Same t u → Same s u
Same-trans s t u p q = (q.0 ∙ p.0, q.1 ∙ p.1, q.2 ∙ p.2)

pub broadcast-Same :
    (q : String) (n : ℕ) (xs : List String) (s : Server) → Same s (broadcast q n xs s)
unfolding broadcast
broadcast-Same q n [] s = (refl, refl, refl)
broadcast-Same q n (x ∷ xs) s = broadcast-Same q n xs _

pub broadcast_all-Same : (cs : Coordinators) (s : Server) → Same s (broadcast_all cs s)
unfolding broadcast_all
broadcast_all-Same [] s = (refl, refl, refl)
broadcast_all-Same ((q, c) ∷ cs) s =
    Same-trans s (broadcast q (balance c) s.sockets s) (broadcast_all ((q, c) ∷ cs) s)
      (broadcast-Same q (balance c) s.sockets s)
      (broadcast_all-Same cs (broadcast q (balance c) s.sockets s))

pub send_balances-Same :
    (x : String) (cs : Coordinators) (s : Server) → Same s (send_balances x cs s)
unfolding send_balances
send_balances-Same x [] s = (refl, refl, refl)
send_balances-Same x ((q, c) ∷ cs) s = send_balances-Same x cs _

change-IsSpent :
    (o : Option Memory) (q : String) (f : Memory → Memory) (s : Server)
    → IsSpent s
    → IsSpent (change o q f s).1
change-IsSpent none q f s h = h
change-IsSpent (some c) q f s h = ground arith

set_new-IsSpent :
    (o : Option Memory) (q : String) (m i : ℕ) (s : Server)
    → IsSpent s
    → IsSpent (set_new o q m i s).1
set_new-IsSpent none q m i s h = h
set_new-IsSpent (some c) q m i s h = h

new_coordinator-IsSpent :
    (q : Option String) (m i : Option ℕ) (s : Server)
    → IsSpent s
    → IsSpent (new_coordinator q m i s).1
new_coordinator-IsSpent none m i s h = h
new_coordinator-IsSpent (some q) none i s h = h
new_coordinator-IsSpent (some q) (some m) none s h = h
new_coordinator-IsSpent (some q) (some m) (some i) s h =
    set_new-IsSpent (get q s.coordinators) q m i s h

initialize_new_coordinator-IsSpent :
    (v : Value) (s : Server) → IsSpent s → IsSpent (initialize_new_coordinator v s).1
unfolding initialize_new_coordinator
initialize_new_coordinator-IsSpent (object f) s h =
    new_coordinator-IsSpent (name (f "queue")) (at_least_one (f "maxBatch"))
      (at_least_one (f "interval")) s h
initialize_new_coordinator-IsSpent _ s h = h

increment_with-IsSpent :
    (q : Option String) (n : Option ℕ) (s : Server) → IsSpent s → IsSpent (increment_with q n s).1
increment_with-IsSpent none n s h = h
increment_with-IsSpent (some q) none s h = h
increment_with-IsSpent (some q) (some n) s h =
    change-IsSpent (get q s.coordinators) q (increment n) s h

reset_with-IsSpent : (q : Option String) (s : Server) → IsSpent s → IsSpent (reset_with q s).1
reset_with-IsSpent none s h = h
reset_with-IsSpent (some q) s h = change-IsSpent (get q s.coordinators) q reset s h

answer-IsSpent :
    (x : String) (r : Result String Unit₀ × Server) → IsSpent r.1 → IsSpent (answer x r)
answer-IsSpent x (ok u, s) h = h
answer-IsSpent x (err e, s) h = h

handle-IsSpent :
    (x e : String) (args : List Value) (s : Server) → IsSpent s → IsSpent (handle x e args s)
unfolding handle increment_balance reset_balance
handle-IsSpent x e args s h =
    let made =
      answer-IsSpent x (initialize_new_coordinator (at 0 args) s)
        (initialize_new_coordinator-IsSpent (at 0 args) s h) in
    let grown =
      answer-IsSpent x (increment_balance args s)
        (increment_with-IsSpent (name (at 0 args)) (at_least_one (at 1 args)) s h) in
    let emptied =
      answer-IsSpent x (reset_balance args s) (reset_with-IsSpent (name (at 0 args)) s h) in
    ground (arith, made, grown, emptied)

module _ (verify : String → Bool) (decrypt : String → String → Value) where
  dispatch-IsSpent :
      (x : String) (v : Value) (args : List Value) (s : Server)
      → IsSpent s
      → IsSpent (dispatch decrypt x v args s)
  unfolding dispatch
  dispatch-IsSpent x (text n) args s h = handle-IsSpent x n (decrypt_all decrypt n args) s h
  dispatch-IsSpent x _ args s h = h

  refuse-IsSpent : (b : Bool) (x : String) (s : Server) → IsSpent s → IsSpent (refuse b x s)
  refuse-IsSpent true x s h = h
  refuse-IsSpent false x s h = h

  connect-IsSpent :
      (x t : String) (s : Server) → IsSpent s → IsSpent (on_socket_connect verify t x s)
  unfolding on_socket_connect
  connect-IsSpent x t s h =
      let s' : Server = refuse (verify t) x s in
      let s'' : Server = record s' { sockets = add x s'.sockets } in
      ground (arith, send_balances-Same x s'.coordinators s'', refuse-IsSpent (verify t) x s h)

  happen-IsSpent : (x : Happening) (s : Server) → IsSpent s → IsSpent (happen verify decrypt x s)
  unfolding happen on_socket_disconnect on_socket_event on_interval turn
  happen-IsSpent (connects x t) s h = connect-IsSpent x t s h
  happen-IsSpent (disconnects x) s h = h
  happen-IsSpent (events x e args) s h = dispatch-IsSpent x (decrypt e "event") args s h
  happen-IsSpent ticks s h = let same = broadcast_all-Same s.coordinators s in ground (arith, same)
  happen-IsSpent turns s h = ground arith
  happen-IsSpent (fires q) s h = h

  spent : (h : List Happening) (s : Server) → IsSpent s → IsSpent (live verify decrypt h s)
  unfolding live
  spent [] s e = e
  spent (x ∷ h) s e = happen-IsSpent x (live verify decrypt h s) (spent h s e)

  turn_still : (t : Server) → IsSpent t → turn t ≡ t
  unfolding turn
  turn_still t e = ground arith

  happen-Silent :
      (x : Happening) (s : Server)
      → IsSpent s
      → is_report x ≡ false
      → Silent s (happen verify decrypt x s)
  unfolding happen on_socket_disconnect on_socket_event
  happen-Silent (connects x t) s h e = absurd (ground (arith, e))
  happen-Silent (disconnects x) s h e = refl
  happen-Silent (events x n args) s h e = dispatch-Silent decrypt x (decrypt n "event") args s
  happen-Silent ticks s h e = absurd (ground (arith, e))
  happen-Silent turns s h e = rw (turn_still s h) refl
  happen-Silent (fires q) s h e = refl

  -- Once the first broadcast that an event scheduled has run, no event schedules another: whatever
  -- happens from then on, a turn of the event loop does nothing, and a balance is sent only when the
  -- timer of 100 ms fires or a socket connects.
  pub live-IsSpent :
      (h : List Happening) (s : Server)
      → IsSpent s
      → let s' = live verify decrypt h s in
        (turn s' ≡ s')
        × ((x : Happening)
            → is_report x ≡ false
            → reports (happen verify decrypt x s').sent ≡ reports s'.sent)
  live-IsSpent h s e =
      let still = spent h s e in
      (
        turn_still (live verify decrypt h s) still,
        λ x r. happen-Silent x (live verify decrypt h s) still r,
      )
