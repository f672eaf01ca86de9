-- ===== src/Client/Settles.antt =====
-- The promises of a client's calls, and the messages that resolve them.
use rabbitmqtobucketqueue.Common.{
  ℕ, ◌≡◌, refl, ap, ◌∙◌, sym, Bool, true, false, ◌||◌, ◌==◌, Option, none, some, List, [], ◌∷◌,
  String, arith, Bool-cases, inl, inr,
}
use rabbitmqtobucketqueue.Server.{Value, text, at}
use rabbitmqtobucketqueue.Client.{
  Function, Listener, updates, confirms, pongs, Client, balance_key, is_event, decrypt_args,
  is_settled, resolve, hears, hear, receive,
}
use rabbitmqtobucketqueue.Client.Frame.{hears-Same, if-either}

-- A promise that a listener resolves when a balance comes.
abbrev pub is_confirming : ℕ → List (Function × Listener) → Bool
is_confirming p [] = false
is_confirming p ((f, confirms r) ∷ ls) = (r == p) || is_confirming p ls
is_confirming p ((f, updates) ∷ ls) = is_confirming p ls
is_confirming p ((f, pongs r) ∷ ls) = is_confirming p ls

resolve-settled :
    (p r : ℕ) (b : Bool) (c : Client)
    → is_settled p c.settled ≡ true
    → is_settled p (resolve r b c).settled ≡ true
resolve-settled p r b c h =
    if-either (λ d. is_settled p d.settled ≡ true) (is_settled r c.settled) c _ (λ e. h)
      (λ e. ground (arith, h))

resolve-done : (r : ℕ) (b : Bool) (c : Client) → is_settled r (resolve r b c).settled ≡ true
resolve-done r b c =
    if-either (λ d. is_settled r d.settled ≡ true) (is_settled r c.settled) c _ (λ e. e)
      (λ e. ground arith)

hears-settled :
    (p : ℕ) (e : Value) (args : List Value) (l : Listener) (c : Client)
    → is_settled p c.settled ≡ true
    → is_settled p (hears e args l c).settled ≡ true
hears-settled p e args updates c h =
    if-either (λ d. is_settled p d.settled ≡ true) (is_event (balance_key c.queue) e) _ c (λ e'. h)
      (λ e'. h)
hears-settled p e args (confirms r) c h =
    if-either (λ d. is_settled p d.settled ≡ true) (is_event (balance_key c.queue) e) _ c
      (λ e'. resolve-settled p r true (record c { balance = at 0 args }) h) (λ e'. h)
hears-settled p e args (pongs r) c h =
    if-either (λ d. is_settled p d.settled ≡ true) (is_event "pong" e) _ c
      (λ e'. resolve-settled p r true c h) (λ e'. h)

hear-settled :
    (p : ℕ) (e : Value) (args : Option (List Value)) (ls : List (Function × Listener)) (c : Client)
    → is_settled p c.settled ≡ true
    → is_settled p (hear e args ls c).1.settled ≡ true
hear-settled p e args [] c h = h
hear-settled p e none (l ∷ ls) c h = h
hear-settled p e (some args) ((f, l) ∷ ls) c h =
    hear-settled p e (some args) ls (hears e args l c) (hears-settled p e args l c h)

confirmed :
    (p : ℕ) (e : Value) (args : List Value) (c : Client) (k : String)
    → c.queue ≡ k
    → is_event (balance_key k) e ≡ true
    → is_settled p (hears e args (confirms p) c).settled ≡ true
confirmed p e args c k q h =
    if-either (λ d. is_settled p d.settled ≡ true) (is_event (balance_key c.queue) e) _ c
      (λ e'. resolve-done p true (record c { balance = at 0 args }))
      (λ e'.
        let no : true ≡ false = sym h ∙ ap (λ x. is_event (balance_key x) e) (sym q) ∙ e' in
        absurd (ground (arith, no)))

-- A message with the balance ends what waits for it.
hear-confirms :
    (p : ℕ) (e : Value) (args : List Value) (ls : List (Function × Listener)) (c : Client)
    (k : String)
    → c.queue ≡ k
    → is_event (balance_key k) e ≡ true
    → is_confirming p ls ≡ true
    → is_settled p (hear e (some args) ls c).1.settled ≡ true
hear-confirms p e args [] c k q h w = absurd (ground (arith, w))
hear-confirms p e args ((f, updates) ∷ ls) c k q h w =
    hear-confirms p e args ls (hears e args updates c) k ((hears-Same e args updates c).4 ∙ q) h w
hear-confirms p e args ((f, pongs r) ∷ ls) c k q h w =
    hear-confirms p e args ls (hears e args (pongs r) c) k ((hears-Same e args (pongs r) c).4 ∙ q) h
      w
hear-confirms p e args ((f, confirms r) ∷ ls) c k q h w = elim (Bool-cases (r == p)) [
  | inl same ↦
      let equal : r ≡ p = ground (arith, same) in
      hear-settled p e (some args) ls (hears e args (confirms r) c) (
        ap (λ n. is_settled p (hears e args (confirms n) c).settled) equal
        ∙ confirmed p e args c k q h)
  | inr other ↦
      hear-confirms p e args ls (hears e args (confirms r) c) k
        ((hears-Same e args (confirms r) c).4 ∙ q) h (ground (arith, w, other))
]

module _ (decrypt : String → Value → Value) where
  pub receive-settled :
      (p : ℕ) (event : String) (args : List Value) (c : Client)
      → is_settled p c.settled ≡ true
      → is_settled p (receive decrypt event args c).1.settled ≡ true
  unfolding receive
  receive-settled p event args c h =
      hear-settled p (decrypt event (text "event"))
        (decrypt_args decrypt (decrypt event (text "event")) args) c.listeners c h

  pub receive-confirms :
      (p : ℕ) (event : String) (args : List Value) (c : Client) {vs : List Value}
      → is_event (balance_key c.queue) (decrypt event (text "event")) ≡ true
      → decrypt_args decrypt (decrypt event (text "event")) args ≡ some vs
      → is_confirming p c.listeners ≡ true
      → is_settled p (receive decrypt event args c).1.settled ≡ true
  unfolding receive
  receive-confirms p event args c {vs} e d w =
      ap (λ o. is_settled p (hear (decrypt event (text "event")) o c.listeners c).1.settled) d
      ∙ hear-confirms p (decrypt event (text "event")) vs c.listeners c c.queue refl e w
