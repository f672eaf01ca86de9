-- ===== src/Server/Unique.antt =====
-- What a happening does to the coordinators of the server, and that no queue has two.
use rabbitmqtobucketqueue.Common.{
  ℕ, Bool, true, false, ◌≡◌, refl, sym, ◌∙◌, if◌then◌else◌, List, [], ◌∷◌, ◌++◌, String, str_eq,
  eq_iff, Option, some, none, arith, Result, Unit₀, ok, err, Bool-cases, inl, inr, and-parts,
}
use rabbitmqtobucketqueue.Coordinator.Memory
use rabbitmqtobucketqueue.Coordinator.Memory.{Memory}
use rabbitmqtobucketqueue.Server.{
  Value, text, object, Server, Coordinators, get, update, send_balances, on_socket_connect,
  on_socket_disconnect, name, at_least_one, at, set_new, new_coordinator, reset_with, dispatch,
  refuse, add, initialize_new_coordinator, change, increment_with, increment_balance, reset_balance,
  answer, handle, decrypt_all, on_socket_event, on_interval, turn, Happening, connects, disconnects,
  events, ticks, turns, fires, happen, live, new,
}
use rabbitmqtobucketqueue.Server.Schedule.{broadcast_all-Same, send_balances-Same}
use rabbitmqtobucketqueue.Server.Newest.{unique, is_none}

-- The coordinators stay, one is added for a queue that has none, or that of a queue changes.
pub data Step (cs : Coordinators) : Coordinators → Type 0 where
  stays : Step cs cs
  opens : (q : String) (c : Memory) → get q cs ≡ none → Step cs (cs ++ (q, c) ∷ [])
  changes : (q : String) (f : Memory → Memory) → Step cs (update q f cs)

change-Step :
    (o : Option Memory) (q : String) (f : Memory → Memory) (s : Server)
    → Step s.coordinators (change o q f s).1.coordinators
change-Step none q f s = stays
change-Step (some c) q f s = elim (Bool-cases s.on_next_tick) [
  | inl e ↦ rw (e) (changes q f)
  | inr e ↦ rw (e) (changes q f)
]

set_new-Step :
    (o : Option Memory) (q : String) (m i : ℕ) (s : Server)
    → get q s.coordinators ≡ o
    → Step s.coordinators (set_new o q m i s).1.coordinators
set_new-Step none q m i s h = opens q (Memory.new q m i) h
set_new-Step (some c) q m i s h = stays

new_coordinator-Step :
    (q : Option String) (m i : Option ℕ) (s : Server)
    → Step s.coordinators (new_coordinator q m i s).1.coordinators
new_coordinator-Step none m i s = stays
new_coordinator-Step (some q) none i s = stays
new_coordinator-Step (some q) (some m) none s = stays
new_coordinator-Step (some q) (some m) (some i) s = set_new-Step (get q s.coordinators) q m i s refl

initialize_new_coordinator-Step :
    (v : Value) (s : Server) → Step s.coordinators (initialize_new_coordinator v s).1.coordinators
unfolding initialize_new_coordinator
initialize_new_coordinator-Step (object f) s =
    new_coordinator-Step (name (f "queue")) (at_least_one (f "maxBatch"))
      (at_least_one (f "interval")) s
initialize_new_coordinator-Step _ s = stays

increment_with-Step :
    (q : Option String) (n : Option ℕ) (s : Server)
    → Step s.coordinators (increment_with q n s).1.coordinators
increment_with-Step none n s = stays
increment_with-Step (some q) none s = stays
increment_with-Step (some q) (some n) s =
    change-Step (get q s.coordinators) q (Memory.increment n) s

reset_with-Step :
    (q : Option String) (s : Server) → Step s.coordinators (reset_with q s).1.coordinators
reset_with-Step none s = stays
reset_with-Step (some q) s = change-Step (get q s.coordinators) q Memory.reset s

answer-Step :
    (cs : Coordinators) (x : String) (r : Result String Unit₀ × Server)
    → Step cs r.1.coordinators
    → Step cs (answer x r).coordinators
answer-Step cs x (ok u, s) h = h
answer-Step cs x (err e, s) h = h

-- What holds of both branches.
either-Step :
    (cs : Coordinators) (b : Bool) (s t : Server)
    → Step cs s.coordinators
    → Step cs t.coordinators
    → Step cs (if b then s else t).coordinators
either-Step cs true s t h k = h
either-Step cs false s t h k = k

handle-Step :
    (x e : String) (args : List Value) (s : Server)
    → Step s.coordinators (handle x e args s).coordinators
unfolding handle increment_balance reset_balance
handle-Step x e args s =
    let cs = s.coordinators in
    let made =
      answer-Step cs x (initialize_new_coordinator (at 0 args) s)
        (initialize_new_coordinator-Step (at 0 args) s) in
    let grown =
      answer-Step cs x (increment_balance args s)
        (increment_with-Step (name (at 0 args)) (at_least_one (at 1 args)) s) in
    let emptied = answer-Step cs x (reset_balance args s) (reset_with-Step (name (at 0 args)) s) in
    either-Step cs (str_eq e "coordinate") _ _ made (
      either-Step cs (str_eq e "increment") _ _ grown (
        either-Step cs (str_eq e "reset") _ _ emptied
          (either-Step cs (str_eq e "ping") _ _ stays stays)))

module _ (verify : String → Bool) (decrypt : String → String → Value) where
  dispatch-Step :
      (x : String) (v : Value) (args : List Value) (s : Server)
      → Step s.coordinators (dispatch decrypt x v args s).coordinators
  unfolding dispatch
  dispatch-Step x (text n) args s = handle-Step x n (decrypt_all decrypt n args) s
  dispatch-Step x _ args s = stays

  refused : (b : Bool) (x : String) (s : Server) → (refuse b x s).coordinators ≡ s.coordinators
  refused true x s = refl
  refused false x s = refl

  -- The same coordinators.
  same-Step : (cs ds : Coordinators) → ds ≡ cs → Step cs ds
  same-Step cs ds e = rw (e) stays

  connect-Step :
      (x t : String) (s : Server)
      → Step s.coordinators (on_socket_connect verify t x s).coordinators
  unfolding on_socket_connect
  connect-Step x t s =
      let s' : Server = refuse (verify t) x s in
      let s'' : Server = record s' { sockets = add x s'.sockets } in
      same-Step s.coordinators (send_balances x s'.coordinators s'').coordinators
        ((send_balances-Same x s'.coordinators s'').0 ∙ refused (verify t) x s)

  happen-Step :
      (x : Happening) (s : Server) → Step s.coordinators (happen verify decrypt x s).coordinators
  unfolding happen on_socket_disconnect on_socket_event on_interval turn
  happen-Step (connects x t) s = connect-Step x t s
  happen-Step (disconnects x) s = stays
  happen-Step (events x e args) s = dispatch-Step x (decrypt e "event") args s
  happen-Step ticks s =
      same-Step s.coordinators (on_interval s).coordinators (broadcast_all-Same s.coordinators s).0
  happen-Step turns s =
      let s' : Server = record s { scheduled = false } in
      either-Step s.coordinators s.scheduled _ _
        (same-Step s.coordinators (on_interval s').coordinators
          (broadcast_all-Same s.coordinators s').0)
        stays
  happen-Step (fires q) s = changes q Memory.timer

str_eq-sym : (p q : String) → str_eq p q ≡ false → str_eq q p ≡ false
str_eq-sym p q h = elim (Bool-cases (str_eq q p)) [
  | inr e ↦ e
  | inl e ↦ let same = (eq_iff p q).1 (sym ((eq_iff q p).0 e)) in absurd (ground (arith, h, same))
]

-- A queue without a coordinator still has none when another gets one.
get-append :
    (p q : String) (c : Memory) (cs : Coordinators)
    → str_eq q p ≡ false
    → get p (cs ++ (q, c) ∷ []) ≡ get p cs
unfolding get
get-append p q c [] other = ground (arith, other)
get-append p q c ((r, d) ∷ cs) other = let rest = get-append p q c cs other in ground (arith, rest)

unique-opens :
    (q : String) (c : Memory) (cs : Coordinators)
    → get q cs ≡ none
    → unique cs ≡ true
    → unique (cs ++ (q, c) ∷ []) ≡ true
unfolding get
unique-opens q c [] g u = refl
unique-opens q c ((p, d) ∷ cs) g u =
    let (free, rest) = and-parts (is_none (get p cs)) (unique cs) u in
    elim (Bool-cases (str_eq p q)) [
      | inl e ↦ absurd (ground (arith, g, e))
      | inr e ↦
          let g' : get q cs ≡ none = ground (arith, g, e) in
          let later = unique-opens q c cs g' rest in
          let there = get-append p q c cs (str_eq-sym p q e) in ground (arith, there, free, later)
    ]

is_none-update :
    (p q : String) (f : Memory → Memory) (cs : Coordinators)
    → is_none (get p (update q f cs)) ≡ is_none (get p cs)
unfolding get update
is_none-update p q f [] = refl
is_none-update p q f ((r, d) ∷ cs) = let rest = is_none-update p q f cs in ground (arith, rest)

unique-changes :
    (q : String) (f : Memory → Memory) (cs : Coordinators)
    → unique cs ≡ true
    → unique (update q f cs) ≡ true
unfolding update
unique-changes q f [] u = refl
unique-changes q f ((p, d) ∷ cs) u =
    let (free, rest) = and-parts (is_none (get p cs)) (unique cs) u in
    let later = unique-changes q f cs rest in
    let there = is_none-update p q f cs in ground (arith, free, rest, later, there)

unique-Step : (cs ds : Coordinators) → Step cs ds → unique cs ≡ true → unique ds ≡ true
unique-Step cs _ stays u = u
unique-Step cs _ (opens q c g) u = unique-opens q c cs g u
unique-Step cs _ (changes q f) u = unique-changes q f cs u

module _ (verify : String → Bool) (decrypt : String → String → Value) where
  -- A server never has two coordinators for one queue.
  pub live-unique : (h : List Happening) → unique (live verify decrypt h new).coordinators ≡ true
  unfolding live new
  live-unique [] = refl
  live-unique (x ∷ h) =
      unique-Step (live verify decrypt h new).coordinators _
        (happen-Step verify decrypt x (live verify decrypt h new)) (live-unique h)
