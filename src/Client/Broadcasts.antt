-- ===== src/Client/Broadcasts.antt =====
-- A client and the server: what a broadcast does to a client that is connected.
use rabbitmqtobucketqueue.Common.{
  not, ◌||◌, refl, ℕ, ◌≡◌, ap, ◌∙◌, Bool, true, false, ◌&&◌, some, List, [], ◌∷◌, ◌++◌, str_eq,
  String, arith, Bool-cases, and-parts, inl, inr,
}
use rabbitmqtobucketqueue.Common.Int.{pos}
use rabbitmqtobucketqueue.Coordinator.Memory
use rabbitmqtobucketqueue.Coordinator.Memory.{Memory}
use rabbitmqtobucketqueue.Server as S
use rabbitmqtobucketqueue.Server.{
  Value, undefined, number, text, object, Sent, balance_sent, pong_sent, error_sent, disconnected,
  Server, get, is_in, on_interval, at,
}
use rabbitmqtobucketqueue.Server.Newest.{newest, on_interval-newest}
use rabbitmqtobucketqueue.Server.Unique.{live-unique}
use rabbitmqtobucketqueue.Client.{
  Client, balance_key, is_event, is_settled, on_disconnect, Happening, receives, happen, live,
}
use rabbitmqtobucketqueue.Client.Settles.{is_confirming, receive-settled, receive-confirms}
use rabbitmqtobucketqueue.Client.Balance.{live-queue, live-balance_told}
use rabbitmqtobucketqueue.Client.Arrivals.{
  balance_message, Sealing, when, arrivals, now, balance_read, arrivals-listeners, told-arrivals,
}

-- What the next broadcast of a server sends, before anything else.
abbrev pub next_broadcast : Server → List Sent
next_broadcast s = (on_interval (record s { sent = [] })).sent

module _ (k : Sealing) (q : String) (max_batch interval : ℕ) where
  open k use {seal, decrypt}

  when-settled :
      (p : ℕ) (b : Bool) (y : Happening) (ys h : List Happening)
      → ((c : Client)
          → is_settled p c.settled ≡ true
          → is_settled p (happen decrypt y c).settled ≡ true)
      → is_settled p (now k q max_batch interval (ys ++ h)).settled ≡ true
      → is_settled p (now k q max_batch interval (when b y ys ++ h)).settled ≡ true
  unfolding live
  when-settled p true y ys h keeps e = keeps (now k q max_batch interval (ys ++ h)) e
  when-settled p false y ys h keeps e = e

  when-confirmed :
      (p : ℕ) (b : Bool) (event : String) (args : List Value) (ys h : List Happening)
      → is_settled p (now k q max_batch interval (ys ++ h)).settled ≡ true
      → is_settled p (now k q max_batch interval (when b (receives event args) ys ++ h)).settled
        ≡ true
  unfolding happen
  when-confirmed p b event args ys h e =
      when-settled p b (receives event args) ys h (receive-settled decrypt p event args) e

  balance-settles :
      (p : ℕ) (r : String) (n : ℕ) (h : List Happening)
      → str_eq r q ≡ true
      → is_confirming p (now k q max_batch interval h).listeners ≡ true
      → is_settled p
          (now k q max_batch interval (
            receives
              (seal (text (balance_key r)) "event")
              (text (seal (number (pos n)) (balance_key r)) ∷ [])
            ∷ h)).settled
        ≡ true
  unfolding live happen
  balance-settles p r n h same w =
      let (named, read) = balance_read k q max_batch interval r n in
      receive-confirms decrypt p (seal (text (balance_key r)) "event")
        (text (seal (number (pos n)) (balance_key r)) ∷ []) (now k q max_batch interval h)
        (ap
            (λ t.
              is_event (balance_key t)
                (decrypt (seal (text (balance_key r)) "event") (text "event")))
            (live-queue decrypt q max_batch interval h)
          ∙ named
          ∙ same)
        read w

  arrivals-settle :
      (p : ℕ) (x : String) (ms : List Sent) (h : List Happening) {n : ℕ}
      → newest x q ms ≡ some n
      → is_confirming p (now k q max_batch interval h).listeners ≡ true
      → is_settled p (now k q max_batch interval (arrivals k x ms ++ h)).settled ≡ true
  unfolding happen on_disconnect
  arrivals-settle p x [] h e w = absurd (ground (arith, e))
  arrivals-settle p x (pong_sent y ∷ ms) h e w =
      when-confirmed p (str_eq y x) _ _ (arrivals k x ms) h (arrivals-settle p x ms h e w)
  arrivals-settle p x (error_sent y m ∷ ms) h e w =
      when-confirmed p (str_eq y x) _ _ (arrivals k x ms) h (arrivals-settle p x ms h e w)
  arrivals-settle p x (disconnected y ∷ ms) h e w =
      when-settled p (str_eq y x) _ (arrivals k x ms) h (λ c e'. e') (arrivals-settle p x ms h e w)
  arrivals-settle p x (balance_sent y r n' ∷ ms) h {n} e w =
      let later = arrivals-settle p x ms h {n = n} in
      elim (Bool-cases (str_eq y x && str_eq r q)) [
        | inr other ↦
            when-confirmed p (str_eq y x) _ _ (arrivals k x ms) h
              (later (ground (arith, e, other)) w)
        | inl this ↦
            let (here, same) = and-parts (str_eq y x) (str_eq r q) this in
            ap
              (λ b.
                is_settled p
                  (now k q max_batch interval
                    (when b (balance_message k r n') (arrivals k x ms) ++ h)).settled)
              here
            ∙ balance-settles p r n' (arrivals k x ms ++ h) same
                (ap (is_confirming p) (arrivals-listeners k q max_batch interval x ms h) ∙ w)
      ]

  arrivals-either :
      (p : ℕ) (x : String) (ms : List Sent) (h : List Happening) {n : ℕ}
      → newest x q ms ≡ some n
      → (not (is_confirming p (now k q max_batch interval h).listeners)
          || is_settled p (now k q max_batch interval (arrivals k x ms ++ h)).settled)
        ≡ true
  arrivals-either p x ms h e =
      elim (Bool-cases (is_confirming p (now k q max_batch interval h).listeners)) [
        | inl w ↦ let done = arrivals-settle p x ms h e w in rw (w, done) refl
        | inr w ↦ rw w refl
      ]

  -- When a socket that the server knows has what the next broadcast sends it, its client's balance
  -- is that of the server's coordinator for the queue, if there is one; and every increment or reset
  -- of the client that waits for its confirmation has it: after any history of the server and any of
  -- the client.
  pub next_broadcast-settles :
      (verify : String → Bool) (open_event : String → String → Value) (x : String)
      (hs : List S.Happening) (h : List Happening) (p : ℕ) {c : Memory}
      → is_in x (S.live verify open_event hs S.new).sockets ≡ true
      → get q (S.live verify open_event hs S.new).coordinators ≡ some c
      → let h' = arrivals k x (next_broadcast (S.live verify open_event hs S.new)) ++ h in
        ((now k q max_batch interval h').balance ≡ number (pos (Memory.balance c)))
        × ((not (is_confirming p (now k q max_batch interval h).listeners)
              || is_settled p (now k q max_batch interval h').settled)
            ≡ true)
  next_broadcast-settles verify open_event x hs h p i g =
      let s = S.live verify open_event hs S.new in
      let e =
        on_interval-newest x q (record s { sent = [] }) i (live-unique verify open_event hs) g in
      (
        live-balance_told decrypt q max_batch interval (arrivals k x (next_broadcast s) ++ h)
            ∙ told-arrivals k q max_batch interval x (next_broadcast s) h e,
        arrivals-either p x (next_broadcast s) h e,
      )
