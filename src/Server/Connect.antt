-- ===== src/Server/Connect.antt =====
-- Sockets whose token is not verified.
use rabbitmqtobucketqueue.Common.{
  ℕ, Bool, true, false, ◌≡◌, refl, List, [], ◌∷◌, ◌++◌, String, str_eq, if◌then◌else◌, eq_iff, map,
  sym, ap, ◌∙◌, append-nil, append_assoc, arith,
}
use rabbitmqtobucketqueue.Coordinator.Memory.{balance}
use rabbitmqtobucketqueue.Server.{
  Server, Sent, balance_sent, Coordinators, is_in, add, refuse, send_balances, on_socket_connect,
}

-- The balances sent to a socket, with their queues, the oldest first.
abbrev pub told : String → List Sent → List (String × ℕ)
told x [] = []
told x (balance_sent y q n ∷ ms) =
    let earlier = told x ms in if str_eq x y then earlier ++ (q, n) ∷ [] else earlier
told x (_ ∷ ms) = told x ms

-- The queues of coordinators, with their balances.
abbrev pub balances_of : Coordinators → List (String × ℕ)
balances_of cs = map (λ p. (p.0, balance p.1)) cs

is_in-append : (x : String) (xs : List String) → is_in x (xs ++ x ∷ []) ≡ true
unfolding is_in
is_in-append x [] = ground (arith, eq_iff x x)
is_in-append x (y ∷ xs) = ground (arith, is_in-append x xs)

is_in-add : (x : String) (xs : List String) → is_in x (add x xs) ≡ true
is_in-add x xs = ground (arith, is_in-append x xs)

send_balances-told :
    (x : String) (cs : Coordinators) (s : Server)
    → (told x (send_balances x cs s).sent ≡ told x s.sent ++ balances_of cs)
      × ((send_balances x cs s).sockets ≡ s.sockets)
unfolding send_balances
send_balances-told x [] s = (sym (append-nil (told x s.sent)), refl)
send_balances-told x ((q, c) ∷ cs) s =
    let s' : Server = record s { sent = balance_sent x q (balance c) ∷ s.sent } in
    let (rest, kept) = send_balances-told x cs s' in
    let first : told x s'.sent ≡ told x s.sent ++ (q, balance c) ∷ [] =
      ground (arith, eq_iff x x) in
    (
      rest
          ∙ ap (λ ns. ns ++ balances_of cs) first
          ∙ append_assoc (told x s.sent) ((q, balance c) ∷ []) (balances_of cs),
      kept,
    )

refuse-told :
    (b : Bool) (x : String) (s : Server)
    → (told x (refuse b x s).sent ≡ told x s.sent) × ((refuse b x s).coordinators ≡ s.coordinators)
refuse-told true x s = (refl, refl)
refuse-told false x s = (refl, refl)

-- Whether or not its token is verified, a socket that connects is registered for the broadcasts and
-- is sent the name and the balance of each queue, in the order of the coordinators, and no other
-- balance.
pub on_socket_connect-told :
    (verify : String → Bool) (token x : String) (s : Server)
    → let s' = on_socket_connect verify token x s in
      (is_in x s'.sockets ≡ true) × (told x s'.sent ≡ told x s.sent ++ balances_of s.coordinators)
unfolding on_socket_connect
on_socket_connect-told verify token x s =
    let t : Server = refuse (verify token) x s in
    let t' : Server = record t { sockets = add x t.sockets } in
    ground (
      arith,
      is_in-add x t.sockets,
      send_balances-told x t.coordinators t',
      refuse-told (verify token) x s,
    )
