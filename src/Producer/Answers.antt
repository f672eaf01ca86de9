-- ===== src/Producer/Answers.antt =====
-- What `enqueue` resolves with, and what it sends.
use rabbitmqtobucketqueue.Common.{
  ℕ, Bool, false, ◌≡◌, Option, none, some, List, [], ◌∷◌, ◌++◌, String, Result, ok, ◌∙◌, length,
}
use rabbitmqtobucketqueue.Promise.{>>=-resolved, Call, ◌>>=◌, pure}
use rabbitmqtobucketqueue.Bucket.Defs.{Failure}
use rabbitmqtobucketqueue.Producer.{
  Env, Entry, sent, Producer, Answer, id, refused, enqueue_and_await, in_order,
}

-- The ids of the messages sent, the oldest first.
abbrev pub ids : List Entry → List String
ids [] = []
ids (sent c ∷ es) = ids es ++ c ∷ []
ids (_ ∷ es) = ids es

-- An answer for a message: its id, unless the message was refused.
abbrev pub Fits : Answer → String → Type 0
Fits (id c) d = c ≡ d
Fits (refused e) d = Unit {0}

-- The answers are for the messages, one for each and in their order.
abbrev pub AllMatch : List Answer → List String → Type 0
AllMatch [] [] = Unit {0}
AllMatch (a ∷ answers) (c ∷ cs) = Fits a c × AllMatch answers cs
AllMatch _ _ = ⊥

-- RabbitMQ takes each message, though it may refuse it later, and the items can be serialized.
pub record Delivers {W T : Type 0} (env : Env W T) : Type 0 where
  pub send_ok : (q : String) (b : List ℕ) (c : String) (w : W) → (env.outlet.send q b c w).0 ≡ ok tt
  pub send_confirmed_ok :
      (q : String) (b : List ℕ) (c : String) (w : W)
      → (r : Option Failure) × ((env.outlet.send_confirmed q b c w).0 ≡ ok r)
  pub uuid_ok : (w : W) → (c : String) × ((env.uuid w).0 ≡ ok c)
  pub default_ok : (x : T) (w : W) → (b : List ℕ) × ((env.default_serializer x w).0 ≡ ok b)
  pub item_ok :
      (f : T → Call W (List ℕ))
      → env.serialize_item ≡ some f
      → (x : T) (w : W) → (b : List ℕ) × ((f x w).0 ≡ ok b)

module _ {W T : Type 0} (env : Env W T) where
  pub in_order-resolved :
      (x : T) (xs : List T) (reject : Bool) (s : Producer W) {a : Answer} {answers : List Answer}
      → (enqueue_and_await env x reject none s).0 ≡ ok a
      → let s' = (enqueue_and_await env x reject none s).1 in
        (in_order env xs reject s').0 ≡ ok answers
        → in_order env (x ∷ xs) reject s ≡ (ok (a ∷ answers), (in_order env xs reject s').1)
  unfolding in_order
  in_order-resolved x xs reject s {a} e e' =
      >>=-resolved (enqueue_and_await env x reject none)
        (λ a. in_order env xs reject >>= λ answers. pure (a ∷ answers)) s e
      ∙ >>=-resolved (in_order env xs reject) (λ answers. pure (a ∷ answers))
          (enqueue_and_await env x reject none s).1 e'

module _ {W T : Type 0} (env : Env W T) (h : Delivers env) where
  -- What a list of items sends and resolves with.
  abbrev Sends : List T → Bool → Producer W → Result Failure (List Answer) × Producer W → Type 0
  Sends xs reject s (r, s') =
      (cs : List String) × (ids s'.trace ≡ ids s.trace ++ cs)
      × (length cs ≡ length xs)
      × (reject ≡ false → (answers : List Answer) × (r ≡ ok answers) × AllMatch answers cs)
