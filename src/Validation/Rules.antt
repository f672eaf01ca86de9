-- ===== src/Validation/Rules.antt =====
-- What an attribute that passes its rules is.
use rabbitmqtobucketqueue.Common.{
  and-parts, ℕ, ◌≡◌, refl, ◌⊎◌, inl, inr, Bool, true, false, ◌&&◌, if◌then◌else◌, Option, none,
  some, List, [], ◌∷◌, String, str_eq, eq_iff, arith,
}
use rabbitmqtobucketqueue.Common.Int.{pos, negsuc}
use rabbitmqtobucketqueue.Validation.{
  Value, null, integer, text, prop, Range, Rule, exists, presence, type_is, numericality, custom,
  Constraints, Registered, passes_rule, passes_rules, passes, no_errors, ValidateJs, holds,
  in_range, is_absent,
}

-- The rules of an attribute.
abbrev pub rules_of : String → Constraints → Option (List Rule)
rules_of key [] = none
rules_of key ((k, rs) ∷ cs) = let rest = rules_of key cs in if str_eq k key then some rs else rest

pub passes-rules_of :
    (types : Registered) (key : String) (cs : Constraints) (v : Value) {rs : List Rule}
    → rules_of key cs ≡ some rs
    → passes types cs v ≡ true
    → passes_rules types rs (prop key v) ≡ true
passes-rules_of types key [] v e h = absurd (ground (arith, e))
passes-rules_of types key ((k, qs) ∷ cs) v {rs} e h =
    of (str_eq k key) refl (and-parts (passes_rules types qs (prop k v)) (passes types cs v) h)
      (λ e' h'. passes-rules_of types key cs v e' h')
  where
    of :
        (b : Bool)
        → str_eq k key ≡ b
        → (passes_rules types qs (prop k v) ≡ true) × (passes types cs v ≡ true)
        → (rules_of key cs ≡ some rs
            → passes types cs v ≡ true
            → passes_rules types rs (prop key v) ≡ true)
        → passes_rules types rs (prop key v) ≡ true
    of true same (here, later) next =
        let found : qs ≡ rs = ground (arith, e, same) in
        let key_found : k ≡ key = (eq_iff k key).0 same in rw (← found, ← key_found) here
    of false other (here, later) next = next (ground (arith, e, other)) later

-- An integer in the range, or null, which the rules do not mind.
abbrev pub InRange : Range → Value → Type 0
InRange r v = (v ≡ null) ⊎ ((n : ℕ) × (v ≡ integer (pos n)) × (in_range r (integer (pos n)) ≡ true))

pub integer-InRange :
    (types : Registered) (r : Range) (v : Value)
    → (is_absent r.greater_than && is_absent r.at_least) ≡ false
    → passes_rules types (exists ∷ type_is "integer" ∷ numericality r ∷ []) v ≡ true
    → InRange r v
integer-InRange types r null bounded h = inl refl
integer-InRange types r (integer (pos n)) bounded h = inr (n, refl, ground (arith, h))
integer-InRange types r (integer (negsuc n)) bounded h = absurd (ground (arith, h, bounded))
integer-InRange types r _ bounded h = absurd (ground (arith, h))

pub passes_rules-tail :
    (types : Registered) (r : Rule) (rs : List Rule) (v : Value)
    → passes_rules types (r ∷ rs) v ≡ true
    → passes_rules types rs v ≡ true
passes_rules-tail types r rs v h = (and-parts (passes_rule types r v) (passes_rules types rs v) h).1

-- A registered validator that follows the rule for its type.
pub custom-after-type :
    (types : Registered) (t name : String) (v : Value)
    → passes_rules types (type_is t ∷ custom name ∷ []) v ≡ true
    → holds (types name v) ≡ true
custom-after-type types t name v h =
    (and-parts (holds (types name v)) true
      (passes_rules-tail types (type_is t) (custom name ∷ []) v h)).0

-- No error is what validate.js calls passing.
pub validate-passes :
    (js : ValidateJs) (types : Registered) (cs : Constraints) (v : Value)
    → no_errors (js.validate types cs v) ≡ true
    → passes types cs v ≡ true
validate-passes js types cs v h = rw⁻¹ (js.validate_lem types cs v) h

pub holds-none : (o : Option String) → holds o ≡ true → o ≡ none
holds-none none h = refl
holds-none (some m) h = absurd (ground (arith, h))

pub text-named :
    (types : Registered) (v : Value)
    → passes_rules types (exists ∷ presence true ∷ type_is "string" ∷ []) v ≡ true
    → (t : String) × (v ≡ text t)
text-named types (text t) h = (t, refl)
text-named types _ h = absurd (ground (arith, h))
