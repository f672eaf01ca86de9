-- ===== src/Promise.antt =====
-- Asynchronous code as a chain of calls: a promise resolves with a value or rejects with an error.
use rabbitmqtobucketqueue.Common.{Result, ok, err, Unit₀, ◌≡◌, refl, ap, ok_injective, arith}
use rabbitmqtobucketqueue.Bucket.Defs.{Failure}

-- An asynchronous call that may change the world and may fail.
abbrev pub Call : Type 0 → Type 0 → Type 0
Call W A = W → Result Failure A × W

infixl 5 ◌>>=◌ ◌>>◌
abbrev pub ◌>>=◌ : {W A B : Type 0} → Call W A → (A → Call W B) → Call W B
◌>>=◌ m f w = let (r, w') = m w in elim r [ ok a ↦ f a w' | err e ↦ (err e, w') ]

abbrev pub ◌>>◌ : {W B : Type 0} → Call W Unit₀ → Call W B → Call W B
m >> k = m >>= λ _. k

abbrev pub pure : {W A : Type 0} → A → Call W A
pure a w = (ok a, w)

-- A call after one that resolves goes on with its value.
pub >>=-resolved :
    {W A B : Type 0} (m : Call W A) (f : A → Call W B) (w : W) {a : A}
    → (m w).0 ≡ ok a
    → (m >>= f) w ≡ f a (m w).1
>>=-resolved {B} m f w {a} e = of (m w) e
  where
    of : (p : Result Failure _ × _) → p.0 ≡ ok a → ((λ (w : _). p) >>= f) w ≡ f a p.1
    of (ok b, w') e = ap (λ x. f x w') (ok_injective e)
    of (err x, w') e = ground arith

-- A call after one that rejects is not made.
pub >>=-rejected :
    {W A B : Type 0} (m : Call W A) (f : A → Call W B) (w : W) {e : Failure}
    → (m w).0 ≡ err e
    → (m >>= f) w ≡ (err e, (m w).1)
>>=-rejected m f w {e} h = of (m w) h
  where
    of : (p : Result Failure _ × _) → p.0 ≡ err e → ((λ (w : _). p) >>= f) w ≡ (err e, p.1)
    of (ok b, w') h = ground arith
    of (err x, w') h = ground arith

-- The parts of a chain of calls that ended without an error.
pub >>=-ok :
    {W A B : Type 0} (m : Call W A) (f : A → Call W B) (w : W) {b : B} {w' : W}
    → (m >>= f) w ≡ (ok b, w')
    → (a : A) × (w₁ : W) × (m w ≡ (ok a, w₁)) × (f a w₁ ≡ (ok b, w'))
>>=-ok {A} m f w {b} {w'} h = go (m w) refl
  where
    go :
        (p : Result Failure A × _)
        → m w ≡ p
        → (a : A) × (w₁ : _) × (m w ≡ (ok a, w₁)) × (f a w₁ ≡ (ok b, w'))
    go (ok a, w₁) e = (a, w₁, e, ground arith)
    go (err x, w₁) e = ground arith
