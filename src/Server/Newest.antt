-- ===== src/Server/Newest.antt =====
-- The newest balance of a queue that the server has sent to a socket.
use rabbitmqtobucketqueue.Common.{
  ℕ, ◌≡◌, refl, ◌∙◌, ap, Bool, true, false, ◌&&◌, if◌then◌else◌, Option, none, some, List, [], ◌∷◌,
  String, str_eq, eq_iff, Bool-cases, and-parts, inl, inr, arith,
}
use rabbitmqtobucketqueue.Coordinator.Memory
use rabbitmqtobucketqueue.Coordinator.Memory.{Memory}
use rabbitmqtobucketqueue.Server.{
  Sent, balance_sent, Server, Coordinators, get, is_in, send, broadcast, broadcast_all, on_interval,
}

abbrev pub newest : String → String → List Sent → Option ℕ
newest x q [] = none
newest x q (balance_sent y p n ∷ ms) =
    let rest = newest x q ms in if str_eq y x && str_eq p q then some n else rest
newest x q (_ ∷ ms) = newest x q ms

-- No queue has two coordinators.
abbrev pub is_none {ℓ} : {A : Type ℓ} → Option A → Bool
is_none none = true
is_none (some a) = false

abbrev pub unique : Coordinators → Bool
unique [] = true
unique ((q, c) ∷ cs) = is_none (get q cs) && unique cs

broadcast-sockets :
    (q : String) (n : ℕ) (xs : List String) (s : Server) → (broadcast q n xs s).sockets ≡ s.sockets
unfolding broadcast
broadcast-sockets q n [] s = refl
broadcast-sockets q n (x ∷ xs) s = broadcast-sockets q n xs _

broadcast-newest :
    (x q p : String) (n : ℕ) (xs : List String) (s : Server)
    → newest x q (broadcast p n xs s).sent
      ≡ (if is_in x xs && str_eq p q then some n else newest x q s.sent)
unfolding broadcast is_in
broadcast-newest x q p n [] s = refl
broadcast-newest x q p n (y ∷ xs) s =
    let later = broadcast-newest x q p n xs (send (balance_sent y p n) s) in ground (arith, later)

abbrev told_of : Option Memory → Option ℕ → Option ℕ
told_of none old = old
told_of (some c) old = some (Memory.balance c)

none-of :
    (p q : String) (cs : Coordinators)
    → str_eq p q ≡ true
    → is_none (get p cs) ≡ true
    → get q cs ≡ none
none-of p q cs same h = rw (← (eq_iff p q).0 same) (of (get p cs) h)
  where
    of : (o : Option Memory) → is_none o ≡ true → o ≡ none
    of none h = refl
    of (some c) h = absurd (ground (arith, h))

-- A broadcast of all balances tells a socket that is connected that of every queue.
broadcast_all-newest :
    (x q : String) (cs : Coordinators) (s : Server)
    → is_in x s.sockets ≡ true
    → unique cs ≡ true
    → newest x q (broadcast_all cs s).sent ≡ told_of (get q cs) (newest x q s.sent)
unfolding broadcast_all get
broadcast_all-newest x q [] s i u = refl
broadcast_all-newest x q ((p, d) ∷ cs) s i u =
    let s' = broadcast p (Memory.balance d) s.sockets s in
    let here = broadcast-newest x q p (Memory.balance d) s.sockets s in
    let i' = ap (is_in x) (broadcast-sockets p (Memory.balance d) s.sockets s) ∙ i in
    let later =
      broadcast_all-newest x q cs s' i' (and-parts (is_none (get p cs)) (unique cs) u).1 in
    elim (Bool-cases (str_eq p q)) [
      | inl e ↦
          let g = none-of p q cs e (and-parts (is_none (get p cs)) (unique cs) u).0 in
          ground (arith, later, here, g, e, i)
      | inr e ↦ ground (arith, later, here, e, i)
    ]

pub on_interval-newest :
    (x q : String) (s : Server) {c : Memory}
    → is_in x s.sockets ≡ true
    → unique s.coordinators ≡ true
    → get q s.coordinators ≡ some c
    → newest x q (on_interval s).sent ≡ some (Memory.balance c)
unfolding on_interval
on_interval-newest x q s i u g =
    broadcast_all-newest x q s.coordinators s i u ∙ ap (λ o. told_of o (newest x q s.sent)) g
