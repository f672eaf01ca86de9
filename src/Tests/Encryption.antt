-- ===== src/Tests/Encryption.antt =====
-- Primitives that hide nothing, and lose nothing.
use rabbitmqtobucketqueue.Common.{
  Bool, ◌≢◌, false, ok, err, Unit₀, length, ◌*◌, ◌/◌, ℕ, ◌+◌, ◌-◌, ◌≡◌, refl, true, if◌then◌else◌,
  ltb, [], ◌∷◌, Option, none, some, arith,
}
use rabbitmqtobucketqueue.Encryption.{
  check_key, same_bytes, Bytes, Claims, Primitives, url_safe, safe_equal, encrypt, decrypt,
  generate_random, text, buffer, written, safe_equal_values,
}
use rabbitmqtobucketqueue.Encryption.Equal.{safe_equal_values-equal}
use rabbitmqtobucketqueue.Encryption.RoundTrip.{generate_random-length, decrypt-encrypt}
use rabbitmqtobucketqueue.Encryption.Base64.{
  Buffers, encode, url_encode, decode, url_decode, strict-encode,
}

-- Three bytes make four characters, none of which the URL-safe alphabet changes.
abbrev raised : Bytes → Bytes
raised (a ∷ b ∷ c ∷ bs) = (a + 100) ∷ (b + 100) ∷ (c + 100) ∷ 100 ∷ raised bs
raised (a ∷ b ∷ []) = (a + 100) ∷ (b + 100) ∷ 100 ∷ []
raised (a ∷ []) = (a + 100) ∷ 100 ∷ []
raised [] = []

abbrev lowered : Bytes → Bytes
lowered (a ∷ b ∷ c ∷ d ∷ cs) = (a - 100) ∷ (b - 100) ∷ (c - 100) ∷ lowered cs
lowered (a ∷ b ∷ c ∷ []) = (a - 100) ∷ (b - 100) ∷ []
lowered (a ∷ b ∷ []) = (a - 100) ∷ []
lowered _ = []

lowered-plain : (b : Bytes) → lowered (raised b) ≡ b
lowered-plain (a ∷ b ∷ c ∷ bs) = ground (arith, lowered-plain bs)
lowered-plain (a ∷ b ∷ []) = ground arith
lowered-plain (a ∷ []) = ground arith
lowered-plain [] = refl

url_safe-raised : (b : Bytes) → url_safe (raised b) ≡ raised b
unfolding url_safe
url_safe-raised (a ∷ b ∷ c ∷ bs) = ground (arith, url_safe-raised bs)
url_safe-raised (a ∷ b ∷ []) = ground arith
url_safe-raised (a ∷ []) = ground arith
url_safe-raised [] = refl

length-plain : (b : Bytes) → length (raised b) ≡ (4 * length b + 2) / 3
length-plain (a ∷ b ∷ c ∷ bs) = omega (arith, length-plain bs)
length-plain (a ∷ b ∷ []) = refl
length-plain (a ∷ []) = refl
length-plain [] = refl

lowered-raised : (b : Bytes) → lowered (url_safe (raised b)) ≡ b
lowered-raised b = rw (url_safe-raised b) (lowered-plain b)

length-raised : (b : Bytes) → length (url_safe (raised b)) ≡ (4 * length b + 2) / 3
length-raised b = rw (url_safe-raised b) (length-plain b)

abbrev opened : Bytes → Option Bytes
opened [] = none
opened (b ∷ bs) = some bs

abbrev checked : ℕ → Bytes → Option (Claims ℕ)
checked now (v ∷ e ∷ s) =
    if ltb (now / 1000 * 1000) e then some (record { value = v; exp = e; subject = s }) else none
checked now _ = none

abbrev open_primitives : Primitives ℕ
open_primitives = record {
  to_base64 = raised;
  from_base64 = lowered;
  from_base64-url_safe = lowered-raised;
  length-url_safe = length-raised;
  cipher = λ iv b. 1 ∷ b;
  decipher = λ iv b. opened b;
  decipher-cipher = λ iv b. refl;
  is_empty-cipher = λ iv b. refl;
  digest = λ v. 7 ∷ [];
  is_empty-digest = λ v. unfold url_safe in refl;
  sign = λ c. c.value ∷ c.exp ∷ c.subject;
  verify = checked;
  verify-sign = λ now c. refl;
}

abbrev some_random : Bytes
some_random = 1 ∷ 2 ∷ 3 ∷ 4 ∷ 5 ∷ 6 ∷ 7 ∷ 8 ∷ 9 ∷ 10 ∷ 11 ∷ 12 ∷ 13 ∷ []

generate_random-length_example : length (generate_random open_primitives 16 some_random) ≡ 16
generate_random-length_example = generate_random-length open_primitives 16 some_random refl

decrypt-encrypt_example :
    decrypt open_primitives 20900
      (encrypt open_primitives 10500 some_random 4 10 (1 ∷ 2 ∷ []))
      (1 ∷ 2 ∷ [])
    ≡ some 4
unfolding same_bytes
decrypt-encrypt_example =
    decrypt-encrypt open_primitives 10500 20900 some_random 4 10 (1 ∷ 2 ∷ []) (1 ∷ 2 ∷ []) refl refl

abbrev short : Bytes
short = 1 ∷ 2 ∷ []

abbrev longer : Bytes
longer = 1 ∷ 2 ∷ 0 ∷ []

safe_equal_values-equal_example :
    (safe_equal_values (buffer short) (text longer) ≡ ok true → short ≡ longer)
    × (short ≡ longer → safe_equal_values (buffer short) (text longer) ≡ ok true)
    × (false ≡ true → (b : Bool) × (safe_equal_values (buffer short) (text longer) ≡ ok b))
    × (false ≡ false
        → (length short ≢ length longer
            → safe_equal_values (buffer short) (text longer)
              ≡ err "Input buffers must have the same byte length")
          × (length short ≡ length longer
              → (b : Bool) × (safe_equal_values (buffer short) (text longer) ≡ ok b)))
safe_equal_values-equal_example = safe_equal_values-equal (buffer short) (text longer)

-- Texts of different lengths are different, and buffers throw.
lengths_tested :
    (safe_equal_values (text short) (text longer) ≡ ok false)
    × (safe_equal_values (buffer short) (buffer longer)
        ≡ err "Input buffers must have the same byte length")
unfolding safe_equal_values safe_equal same_bytes written
lengths_tested = (refl, refl)

-- Every encoding of a text is its bytes.
abbrev node : Buffers Unit₀
node = record {
  from_text = λ encoding t. t;
  to_text = λ encoding b. b;
  to_base64 = raised;
  from_base64 = lowered;
  from_base64-to_base64 = lowered-plain;
  from_base64-url_safe = lowered-raised;
}

abbrev spelled : Bytes
spelled = 101 ∷ 102 ∷ 100 ∷ []

strict-encode_example :
    (decode node (text (encode node (text short) tt)) tt true ≡ some short)
    × (url_decode node (text (url_encode node (text short) tt)) tt true ≡ some short)
    × (decode node (text spelled) tt true ≡ some short → encode node (text short) tt ≡ spelled)
    × (url_decode node (text spelled) tt true ≡ some short
        → url_encode node (text short) tt ≡ spelled)
strict-encode_example = strict-encode node short spelled tt refl

short_key_tested :
    (check_key (1 ∷ 2 ∷ 3 ∷ []) false
      ≡ err "Insecure Encryption key. Must be at least 16 characters long.")
    × (check_key (1 ∷ 2 ∷ 3 ∷ []) true ≡ ok tt)
unfolding check_key
short_key_tested = (refl, refl)
