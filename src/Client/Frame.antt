-- ===== src/Client/Frame.antt =====
-- The fields of a client that its messages leave as they are.
use rabbitmqtobucketqueue.Common.{
  ℕ, if◌then◌else◌, ◌≡◌, refl, ◌∙◌, Bool, true, false, Bool-cases, inl, inr, Option, none, some,
  List, [], ◌∷◌, String, arith,
}
use rabbitmqtobucketqueue.Server.{Value, text, at}
use rabbitmqtobucketqueue.Client.{
  Function, Listener, updates, confirms, pongs, Client, is_settled, resolve, balance_key, is_event,
  hears, hear, decrypt_args, receive,
}

-- What holds of both branches.
pub if-either :
    (P : Client → Type 0) (t : Bool) (x y : Client)
    → (t ≡ true → P x)
    → (t ≡ false → P y)
    → P (if t then x else y)
if-either P true x y f g = f refl
if-either P false x y f g = g refl

abbrev pub Same : Client → Client → Type 0
Same c c' =
    (c'.listeners ≡ c.listeners)
    × (c'.connected ≡ c.connected)
    × (c'.awaiting ≡ c.awaiting)
    × (c'.functions ≡ c.functions)
    × (c'.queue ≡ c.queue)

pub Same-refl : (c : Client) → Same c c
Same-refl c = (refl, refl, refl, refl, refl)

Same-trans : (a b c : Client) → Same a b → Same b c → Same a c
Same-trans a b c p q = (q.0 ∙ p.0, q.1 ∙ p.1, q.2 ∙ p.2, q.3 ∙ p.3, q.4 ∙ p.4)

pub resolve-Same : (p : ℕ) (b : Bool) (c : Client) → Same c (resolve p b c)
resolve-Same p b c = elim (Bool-cases (is_settled p c.settled)) [
  | inl e ↦ ground (arith, e)
  | inr e ↦ ground (arith, e)
]

-- The same for a promise that is resolved or not.
when-Same : (t : Bool) (c d : Client) → Same c d → Same c (if t then d else c)
when-Same true c d h = h
when-Same false c d h = Same-refl c

pub hears-Same :
    (e : Value) (args : List Value) (l : Listener) (c : Client) → Same c (hears e args l c)
hears-Same e args updates c =
    when-Same (is_event (balance_key c.queue) e) c (record c { balance = at 0 args }) (Same-refl c)
hears-Same e args (confirms p) c =
    when-Same (is_event (balance_key c.queue) e) c
      (resolve p true (record c { balance = at 0 args }))
      (resolve-Same p true (record c { balance = at 0 args }))
hears-Same e args (pongs p) c =
    when-Same (is_event "pong" e) c (resolve p true c) (resolve-Same p true c)

hear-Same :
    (e : Value) (args : Option (List Value)) (ls : List (Function × Listener)) (c : Client)
    → Same c (hear e args ls c).1
hear-Same e args [] c = Same-refl c
hear-Same e none (l ∷ ls) c = Same-refl c
hear-Same e (some args) ((f, l) ∷ ls) c =
    Same-trans c (hears e args l c) (hear e (some args) ls (hears e args l c)).1
      (hears-Same e args l c) (hear-Same e (some args) ls (hears e args l c))

pub receive-Same :
    (decrypt : String → Value → Value) (event : String) (args : List Value) (c : Client)
    → Same c (receive decrypt event args c).1
unfolding receive
receive-Same decrypt event args c =
    hear-Same (decrypt event (text "event"))
      (decrypt_args decrypt (decrypt event (text "event")) args) c.listeners c
