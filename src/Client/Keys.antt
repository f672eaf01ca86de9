-- ===== src/Client/Keys.antt =====
-- The names of the messages of the coordination server.
use Prim.Native.Char.{code}
use text.Mathlib.TextLemmas.{
  append_cancel_left, append_cancel_right, cons-append, head-eq_of_cons-eq,
}
use rabbitmqtobucketqueue.Common.{
  ◌≡◌, ap, ◌∙◌, sym, false, str_eq, eq_iff, ◌<>◌, String, arith, Bool-cases, inl, inr,
}
use rabbitmqtobucketqueue.Client.{balance_key}

pub balance_key_injective : (p q : String) → balance_key p ≡ balance_key q → p ≡ q
balance_key_injective p q h =
    append_cancel_right p q ":balance"
      (append_cancel_left "queue:" (p <> ":balance") (q <> ":balance") h)

pub str_eq-balance_key : (p q : String) → str_eq (balance_key p) (balance_key q) ≡ str_eq p q
str_eq-balance_key p q = elim (Bool-cases (str_eq p q)) [
  | inl e ↦
      let same = (eq_iff p q).0 e in
      (eq_iff (balance_key p) (balance_key q)).1 (ap balance_key same) ∙ sym e
  | inr e ↦ elim (Bool-cases (str_eq (balance_key p) (balance_key q))) [
    | inr e' ↦ e' ∙ sym e
    | inl e' ↦
        let same = balance_key_injective p q ((eq_iff (balance_key p) (balance_key q)).0 e') in
        let e₂ = (eq_iff p q).1 same in absurd (ground (arith, e, e₂))
  ]
]

pub pong-other : (q : String) → str_eq "pong" (balance_key q) ≡ false
pong-other q = elim (Bool-cases (str_eq "pong" (balance_key q))) [
  | inr e ↦ e
  | inl e ↦
      let c = ap code (
        head-eq_of_cons-eq {x = "p"} {y = "q"} {xs = "ong"} {ys = "ueue:" <> (q <> ":balance")}
          ((eq_iff "pong" (balance_key q)).0 e ∙ cons-append "q" "ueue:" (q <> ":balance"))) in
      absurd (omega (arith, c))
]
