-- ===== src/Producer/Stops.antt =====
-- With `keepOrder`, the first error ends `enqueue`.
use rabbitmqtobucketqueue.Common.{
  Bool, true, ◌≡◌, none, List, [], ◌∷◌, ◌++◌, Result, ok, err, Result-cases, inl, inr, sym, ap, ◌∙◌,
  arith,
}
use rabbitmqtobucketqueue.Promise.{>>=-resolved, >>=-rejected, ◌>>=◌, pure}
use rabbitmqtobucketqueue.Bucket.Defs.{Failure}
use rabbitmqtobucketqueue.Producer.{
  Env, Producer, Answer, array, results, enqueue_and_await, in_order, enqueue_all, enqueue_items,
}
use rabbitmqtobucketqueue.Producer.Answers.{in_order-resolved}

err≢ok : {A : Type 0} {r : Result Failure A} {e : Failure} {a : A} → r ≡ err e → r ≡ ok a → ⊥
err≢ok h k = ground (arith, h, k)

module _ {W T : Type 0} (env : Env W T) where
  -- The list before has resolved, so its first item and the others have.
  in_order-split :
      (x : T) (xs : List T) (reject : Bool) (s : Producer W) {answers : List Answer}
      → (in_order env (x ∷ xs) reject s).0 ≡ ok answers
      → let s' = (enqueue_and_await env x reject none s).1 in
        ((a : Answer) × ((enqueue_and_await env x reject none s).0 ≡ ok a))
        × ((rest : List Answer) × ((in_order env xs reject s').0 ≡ ok rest))
  unfolding in_order
  in_order-split x xs reject s h =
      let s' : Producer W = (enqueue_and_await env x reject none s).1 in
      elim (Result-cases (enqueue_and_await env x reject none s).0) [
        | inr (z, e) ↦ absurd (
            err≢ok
              (ap (λ p. p.0)
                (>>=-rejected (enqueue_and_await env x reject none)
                  (λ a. in_order env xs reject >>= λ rest. pure (a ∷ rest)) s e))
              h)
        | inl (a, e) ↦ elim (Result-cases (in_order env xs reject s').0) [
          | inl (rest, e') ↦ ((a, e), (rest, e'))
          | inr (z, e') ↦ absurd (
              err≢ok
                (ap (λ p. p.0)
                  (>>=-resolved (enqueue_and_await env x reject none)
                      (λ a. in_order env xs reject >>= λ rest. pure (a ∷ rest)) s e
                    ∙ >>=-rejected (in_order env xs reject) (λ rest. pure (a ∷ rest)) s' e'))
                h)
        ]
      ]

  in_order-stops :
      (xs ys : List T) (y : T) (reject : Bool) (s : Producer W) {answers : List Answer}
      {e : Failure}
      → (in_order env xs reject s).0 ≡ ok answers
      → let s' = (in_order env xs reject s).1 in
        (enqueue_and_await env y reject none s').0 ≡ err e
        → in_order env (xs ++ y ∷ ys) reject s ≡ (err e, (enqueue_and_await env y reject none s').1)
  unfolding in_order
  in_order-stops [] ys y reject s h k =
      >>=-rejected (enqueue_and_await env y reject none)
        (λ a. in_order env ys reject >>= λ answers. pure (a ∷ answers)) s k
  in_order-stops (x ∷ xs) ys y reject s {answers} {e} h k =
      let s' : Producer W = (enqueue_and_await env x reject none s).1 in
      let ((a, u), (rest, v)) = in_order-split x xs reject s h in
      let whole = in_order-resolved env x xs reject s u v in
      let last : (enqueue_and_await env y reject none (in_order env xs reject s').1).0 ≡ err e =
        ap (λ p. (enqueue_and_await env y reject none p.1).0) (sym whole) ∙ k in
      let stopped = in_order-stops xs ys y reject s' v last in
      >>=-resolved (enqueue_and_await env x reject none)
        (λ a. in_order env (xs ++ y ∷ ys) reject >>= λ answers. pure (a ∷ answers)) s u
      ∙ >>=-rejected (in_order env (xs ++ y ∷ ys) reject) (λ answers. pure (a ∷ answers)) s'
          (ap (λ p. p.0) stopped)
      ∙ ap (λ p. (err e, p.1)) stopped
      ∙ ap (λ p. (err e, (enqueue_and_await env y reject none p.1).1)) (sym whole)

  -- What `enqueue` does after its test of `#booted`, whether or not a producer passes that: with
  -- `keepOrder`, an item whose promise rejects, after items whose promises resolve, ends the call. It
  -- rejects with the same error, and the producer is as that item left it, so nothing is sent for the
  -- items after it.
  pub enqueue_items-stops :
      (xs ys : List T) (y : T) (reject : Bool) (s : Producer W) {answers : List Answer}
      {e : Failure}
      → (in_order env xs reject s).0 ≡ ok answers
      → let s' = (in_order env xs reject s).1 in
        (enqueue_and_await env y reject none s').0 ≡ err e
        → enqueue_items env (array (xs ++ y ∷ ys)) true reject s
          ≡ (err e, (enqueue_and_await env y reject none s').1)
  unfolding enqueue_all
  enqueue_items-stops xs ys y reject s {answers} {e} h k =
      let stopped = in_order-stops xs ys y reject s h k in
      >>=-rejected (in_order env (xs ++ y ∷ ys) reject) (λ answers. pure (results answers)) s
        (ap (λ p. p.0) stopped)
      ∙ ap (λ p. (err e, p.1)) stopped
