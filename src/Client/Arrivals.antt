-- ===== src/Client/Arrivals.antt =====
-- What the coordination server sends, as it arrives at a client, and the balance that it tells.
use rabbitmqtobucketqueue.Common.{
  ℕ, ◌≡◌, refl, ap, ◌∙◌, Bool, true, false, if◌then◌else◌, Option, none, some, List, [], ◌∷◌, ◌++◌,
  str_eq, String, arith, Bool-cases, inl, inr,
}
use rabbitmqtobucketqueue.Common.Int.{pos}
use rabbitmqtobucketqueue.Server.{
  Value, undefined, number, text, object, Sent, balance_sent, pong_sent, error_sent, disconnected,
}
use rabbitmqtobucketqueue.Server.Newest.{newest}
use rabbitmqtobucketqueue.Client.{
  Client, balance_key, is_event, decrypt_args, on_disconnect, Happening, disconnects, receives,
  happen, live,
}
use rabbitmqtobucketqueue.Client.Frame.{receive-Same}
use rabbitmqtobucketqueue.Client.Keys.{str_eq-balance_key, pong-other}
use rabbitmqtobucketqueue.Client.Balance.{after, told, balance_told}

-- The encryption at both ends: a text or a count that is sealed for a purpose is read for it, and
-- a text that was not sealed is nothing.
pub record Sealing : Type 0 where
  pub seal : Value → String → String
  pub decrypt : String → Value → Value
  pub decrypt-text : (t purpose : String) → decrypt (seal (text t) purpose) (text purpose) ≡ text t
  pub decrypt-number :
      (n : ℕ) (purpose : String)
      → decrypt (seal (number (pos n)) purpose) (text purpose) ≡ number (pos n)
  pub decrypt-error : decrypt "error" (text "event") ≡ undefined

-- An error that is an object arrives as an object without properties.
abbrev pub error_argument : String → Value
error_argument m = if str_eq m "Authentication Failed" then object (λ key. undefined) else text m

abbrev pub when : Bool → Happening → List Happening → List Happening
when true x h = x ∷ h
when false x h = h

-- The message with the balance of a queue, as it arrives.
abbrev pub balance_message : Sealing → String → ℕ → Happening
balance_message k p n =
    receives (k.seal (text (balance_key p)) "event")
      (text (k.seal (number (pos n)) (balance_key p)) ∷ [])

-- What a socket gets of what the server sends.
abbrev pub arrivals : Sealing → String → List Sent → List Happening
arrivals k x [] = []
arrivals k x (balance_sent y p n ∷ ms) = when (str_eq y x) (balance_message k p n) (arrivals k x ms)
arrivals k x (pong_sent y ∷ ms) =
    when (str_eq y x) (receives (k.seal (text "pong") "event") []) (arrivals k x ms)
arrivals k x (error_sent y m ∷ ms) =
    when (str_eq y x) (receives "error" (error_argument m ∷ [])) (arrivals k x ms)
arrivals k x (disconnected y ∷ ms) =
    when (str_eq y x) (disconnects "io server disconnect") (arrivals k x ms)

module _ (k : Sealing) (q : String) (max_batch interval : ℕ) where
  open k use {seal, decrypt}

  abbrev pub now : List Happening → Client
  now h = after decrypt q max_batch interval h

  -- The balance from the messages alone.
  abbrev heard : List Happening → Value
  heard h = balance_told decrypt q max_batch interval h

  -- A message with a balance for a queue, read by a client.
  pub balance_read :
      (p : String) (n : ℕ)
      → (is_event (balance_key q) (decrypt (seal (text (balance_key p)) "event") (text "event"))
          ≡ str_eq p q)
        × (decrypt_args decrypt
              (decrypt (seal (text (balance_key p)) "event") (text "event"))
              (text (seal (number (pos n)) (balance_key p)) ∷ [])
            ≡ some (number (pos n) ∷ []))
  balance_read p n =
      let named = k.decrypt-text (balance_key p) "event" in
      let read = k.decrypt-number n (balance_key p) in
      (
        ap (is_event (balance_key q)) named ∙ str_eq-balance_key p q,
        ap (λ e. decrypt_args decrypt e (text (seal (number (pos n)) (balance_key p)) ∷ [])) named
            ∙ ap (λ v. some (v ∷ [])) read,
      )

  pub when-listeners :
      (b : Bool) (y : Happening) (ys h : List Happening)
      → ((c : Client) → (happen decrypt y c).listeners ≡ c.listeners)
      → (now (ys ++ h)).listeners ≡ (now h).listeners
      → (now (when b y ys ++ h)).listeners ≡ (now h).listeners
  unfolding live
  when-listeners true y ys h keeps e = keeps (now (ys ++ h)) ∙ e
  when-listeners false y ys h keeps e = e

  when-received :
      (b : Bool) (event : String) (args : List Value) (ys h : List Happening)
      → (now (ys ++ h)).listeners ≡ (now h).listeners
      → (now (when b (receives event args) ys ++ h)).listeners ≡ (now h).listeners
  unfolding happen
  when-received b event args ys h e =
      when-listeners b (receives event args) ys h (λ c. (receive-Same decrypt event args c).0) e

  -- What arrives leaves the listeners.
  pub arrivals-listeners :
      (x : String) (ms : List Sent) (h : List Happening)
      → (now (arrivals k x ms ++ h)).listeners ≡ (now h).listeners
  unfolding happen on_disconnect
  arrivals-listeners x [] h = refl
  arrivals-listeners x (balance_sent y p n ∷ ms) h =
      when-received (str_eq y x) _ _ (arrivals k x ms) h (arrivals-listeners x ms h)
  arrivals-listeners x (pong_sent y ∷ ms) h =
      when-received (str_eq y x) _ _ (arrivals k x ms) h (arrivals-listeners x ms h)
  arrivals-listeners x (error_sent y m ∷ ms) h =
      when-received (str_eq y x) _ _ (arrivals k x ms) h (arrivals-listeners x ms h)
  arrivals-listeners x (disconnected y ∷ ms) h =
      when-listeners (str_eq y x) _ (arrivals k x ms) h (λ c. refl) (arrivals-listeners x ms h)

  when-told :
      (b : Bool) (y : Happening) (ys h : List Happening) {v : Value}
      → heard (y ∷ ys ++ h) ≡ heard (ys ++ h)
      → heard (ys ++ h) ≡ v
      → heard (when b y ys ++ h) ≡ v
  when-told true y ys h same e = same ∙ e
  when-told false y ys h same e = e

  told-other :
      (b : Bool) (args : Option (List Value)) (old : Value) → b ≡ false → told b args old ≡ old
  told-other b none old e = ground (arith, e)
  told-other b (some args) old e = ground (arith, e)

  told-some : (b : Bool) (v old : Value) → told b (some (v ∷ [])) old ≡ (if b then v else old)
  told-some true v old = refl
  told-some false v old = refl

  -- A message that is not for the balance of the queue.
  other-told :
      (event : String) (args : List Value) (h : List Happening)
      → is_event (balance_key q) (decrypt event (text "event")) ≡ false
      → heard (receives event args ∷ h) ≡ heard h
  other-told event args h e =
      told-other (is_event (balance_key q) (decrypt event (text "event")))
        (decrypt_args decrypt (decrypt event (text "event")) args) (heard h) e

  balance-told :
      (p : String) (n : ℕ) (h : List Happening)
      → heard (
          receives
            (seal (text (balance_key p)) "event")
            (text (seal (number (pos n)) (balance_key p)) ∷ [])
          ∷ h)
        ≡ (if str_eq p q then number (pos n) else heard h)
  balance-told p n h =
      let (named, read) = balance_read p n in
      ap
        (λ b.
          told b
            (decrypt_args decrypt (decrypt (seal (text (balance_key p)) "event") (text "event"))
              (text (seal (number (pos n)) (balance_key p)) ∷ []))
            (heard h))
        named
      ∙ ap (λ o. told (str_eq p q) o (heard h)) read
      ∙ told-some (str_eq p q) (number (pos n)) (heard h)

  pub told-arrivals :
      (x : String) (ms : List Sent) (h : List Happening) {n : ℕ}
      → newest x q ms ≡ some n
      → heard (arrivals k x ms ++ h) ≡ number (pos n)
  told-arrivals x [] h e = absurd (ground (arith, e))
  told-arrivals x (pong_sent y ∷ ms) h e =
      when-told (str_eq y x) _ (arrivals k x ms) h
        (other-told (seal (text "pong") "event") [] (arrivals k x ms ++ h)
          (ap (is_event (balance_key q)) (k.decrypt-text "pong" "event") ∙ pong-other q))
        (told-arrivals x ms h e)
  told-arrivals x (error_sent y m ∷ ms) h e =
      when-told (str_eq y x) _ (arrivals k x ms) h
        (other-told "error" (error_argument m ∷ []) (arrivals k x ms ++ h)
          (ap (is_event (balance_key q)) k.decrypt-error))
        (told-arrivals x ms h e)
  told-arrivals x (disconnected y ∷ ms) h e =
      when-told (str_eq y x) _ (arrivals k x ms) h refl (told-arrivals x ms h e)
  told-arrivals x (balance_sent y p n' ∷ ms) h {n} e =
      let later = told-arrivals x ms h {n = n} in
      elim (Bool-cases (str_eq y x)) [
        | inr away ↦
            ap (λ b. heard (when b (balance_message k p n') (arrivals k x ms) ++ h)) away
            ∙ later (ground (arith, e, away))
        | inl here ↦
            ap (λ b. heard (when b (balance_message k p n') (arrivals k x ms) ++ h)) here
            ∙ balance-told p n' (arrivals k x ms ++ h)
            ∙ elim (Bool-cases (str_eq p q)) [
              | inl same ↦
                  let equal : n' ≡ n = ground (arith, e, here, same) in ground (arith, same, equal)
              | inr other ↦
                  let older = later (ground (arith, e, here, other)) in ground (arith, other, older)
            ]
      ]
