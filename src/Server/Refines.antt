-- ===== src/Server/Refines.antt =====
-- The server against an account for each queue: what clients have asked for, whatever else they
-- send.
use rabbitmqtobucketqueue.Common.{
  ℕ, ◌-◌, Bool, true, false, ◌≡◌, refl, ap, ◌∙◌, Option, none, some, List, [], ◌∷◌, String, str_eq,
  Bool-cases, inl, inr, arith,
}
use rabbitmqtobucketqueue.Coordinator.Memory
use rabbitmqtobucketqueue.Coordinator.Memory.{Memory}
use rabbitmqtobucketqueue.Server.{
  Value, text, Server, get, update, on_interval, refuse, add, on_socket_connect,
  on_socket_disconnect, at, initialize_new_coordinator, increment_balance, reset_balance, answer,
  handle, decrypt_all, dispatch, on_socket_event, turn, Happening, connects, disconnects, events,
  ticks, turns, fires, happen, live, new,
}
use rabbitmqtobucketqueue.Server.Schedule.{broadcast_all-Same, send_balances-Same}
use rabbitmqtobucketqueue.Server.Accounts.{
  Account, Request, resets, nothing, object_of, increments_of, resets_of, request, served,
}
use rabbitmqtobucketqueue.Server.Changes.{
  account_of, account, get-update, answer-account, increment_with-account, reset_with-account,
  object-account,
}

handle-account :
    (q x e : String) (args : List Value) (s : Server)
    → account q (handle x e args s) ≡ served q (request e args) (account q s)
unfolding handle increment_balance reset_balance
handle-account q x e args s =
    let made : account q (answer x (initialize_new_coordinator (at 0 args) s))
        ≡ served q (object_of (at 0 args)) (account q s) =
      answer-account q x (initialize_new_coordinator (at 0 args) s)
      ∙ object-account q (at 0 args) s in
    let grown : account q (answer x (increment_balance args s))
        ≡ served q (increments_of (at 0 args) (at 1 args)) (account q s) =
      answer-account q x (increment_balance args s)
      ∙ increment_with-account q (at 0 args) (at 1 args) s in
    let emptied : account q (answer x (reset_balance args s))
        ≡ served q (resets_of (at 0 args)) (account q s) =
      answer-account q x (reset_balance args s) ∙ reset_with-account q (at 0 args) s in
    elim (Bool-cases (str_eq e "coordinate")) [
      | inl k ↦ rw k made
      | inr k ↦ elim (Bool-cases (str_eq e "increment")) [
        | inl k' ↦ rw (k, k') grown
        | inr k' ↦ elim (Bool-cases (str_eq e "reset")) [
          | inl k'' ↦ rw (k, k', k'') emptied
          | inr k'' ↦
              rw (k, k', k'')
                (elim (Bool-cases (str_eq e "ping")) [
                  | inl ping ↦ rw ping refl
                  | inr other ↦ rw other refl
                ])
        ]
      ]
    ]

module _ (verify : String → Bool) (decrypt : String → String → Value) where
  -- What an event asks for, once decrypted.
  abbrev pub received : Value → List Value → Request
  received (text e) args = request e (decrypt_all decrypt e args)
  received _ args = nothing

  -- The account of a queue after the happenings, from what the clients asked for and the timer of
  -- its coordinator alone.
  abbrev pub account_after : String → List Happening → Option Account
  account_after q [] = none
  account_after q (events x e args ∷ h) =
      served q (received (decrypt e "event") args) (account_after q h)
  account_after q (fires p ∷ h) = served q (resets p) (account_after q h)
  account_after q (_ ∷ h) = account_after q h

  dispatch-account :
      (q x : String) (v : Value) (args : List Value) (s : Server)
      → account q (dispatch decrypt x v args s) ≡ served q (received v args) (account q s)
  unfolding dispatch
  dispatch-account q x (text e) args s = handle-account q x e (decrypt_all decrypt e args) s
  dispatch-account q x _ args s = refl

  refuse-coordinators :
      (b : Bool) (x : String) (s : Server) → (refuse b x s).coordinators ≡ s.coordinators
  refuse-coordinators true x s = refl
  refuse-coordinators false x s = refl

  connect-coordinators :
      (x t : String) (s : Server) → (on_socket_connect verify t x s).coordinators ≡ s.coordinators
  unfolding on_socket_connect
  connect-coordinators x t s =
      let s' : Server = refuse (verify t) x s in
      let s'' : Server = record s' { sockets = add x s'.sockets } in
      (send_balances-Same x s'.coordinators s'').0 ∙ refuse-coordinators (verify t) x s

  interval-coordinators : (s : Server) → (on_interval s).coordinators ≡ s.coordinators
  unfolding on_interval
  interval-coordinators s = (broadcast_all-Same s.coordinators s).0

  turn-coordinators : (s : Server) → (turn s).coordinators ≡ s.coordinators
  unfolding turn
  turn-coordinators s = ground (arith, interval-coordinators (record s { scheduled = false }))

  fires-account :
      (q p : String) (s : Server)
      → account_of (get q (update p Memory.timer s.coordinators))
        ≡ served q (resets p) (account q s)
  unfolding Memory.timer
  fires-account q p s = ground (arith, get-update q p Memory.timer s.coordinators)

  live-account :
      (q : String) (h : List Happening) → account q (live verify decrypt h new) ≡ account_after q h
  unfolding live happen new on_socket_disconnect on_socket_event
  live-account q [] = unfold get in refl
  live-account q (connects x t ∷ h) =
      rw (connect-coordinators x t (live verify decrypt h new)) (live-account q h)
  live-account q (disconnects x ∷ h) = live-account q h
  live-account q (events x e args ∷ h) =
      dispatch-account q x (decrypt e "event") args (live verify decrypt h new)
      ∙ ap (served q (received (decrypt e "event") args)) (live-account q h)
  live-account q (ticks ∷ h) =
      rw (interval-coordinators (live verify decrypt h new)) (live-account q h)
  live-account q (turns ∷ h) = rw (turn-coordinators (live verify decrypt h new)) (live-account q h)
  live-account q (fires p ∷ h) =
      fires-account q p (live verify decrypt h new) ∙ ap (served q (resets p)) (live-account q h)

  -- What the server reports for a queue, if it has it, and what is left of an account.
  abbrev pub reported : Option Memory → Option ℕ
  reported none = none
  reported (some c) = some (Memory.balance c)

  abbrev pub left : Option Account → Option ℕ
  left none = none
  left (some a) = some (a.quota - a.spent)

  reported-account : (o : Option Memory) → reported o ≡ left (account_of o)
  unfolding Memory.balance
  reported-account none = refl
  reported-account (some c) = ground arith

  -- The balance that a server keeps for a queue is the one of its account: the quota of the first
  -- request that opened the queue, less the counts of the requests for that queue since it was last
  -- reset, and 0 once these reach the quota; there is none before a request opens the queue. Nothing
  -- else matters: not requests for other queues, nor events that do not decrypt or whose arguments
  -- are not understood, nor who connects or disconnects.
  pub balance-account_after :
      (q : String) (h : List Happening)
      → reported (get q (live verify decrypt h new).coordinators) ≡ left (account_after q h)
  balance-account_after q h =
      reported-account (get q (live verify decrypt h new).coordinators) ∙ ap left (live-account q h)
