-- ===== src/Encryption/RoundTrip.antt =====
-- What was encrypted can be decrypted, for its purpose and until it expires.
use rabbitmqtobucketqueue.Common.{
  ℕ, ◌*◌, ◌/◌, ◌+◌, ◌≡◌, refl, true, false, ◌&&◌, if◌then◌else◌, ltb, [], ◌∷◌, none, some, suc,
  length, length-take, ap, sym, ◌∙◌, arith,
}
use rabbitmqtobucketqueue.Encryption.{
  Bytes, Claims, Primitives, is_empty, same_bytes, url_safe, safe_equal, generate, compare_hmac,
  encrypt_with, encrypt, generate_random, random_size, decrypt, deciphered,
}
use rabbitmqtobucketqueue.Encryption.Equal.{safe_equal-equal, same_bytes-equal}

module _ {V : Type 0} (primitives : Primitives V) where
  -- A token whose parts are there and whose last part is the code of the others.
  decrypt-passed :
      (later : ℕ) (e i h b iv : Bytes) (other : Bytes)
      → primitives.from_base64 e ≡ b
      → primitives.from_base64 i ≡ iv
      → primitives.from_base64 h ≡ generate primitives (e ∷ i ∷ [])
      → is_empty b ≡ false
      → is_empty iv ≡ false
      → decrypt primitives later (e ∷ i ∷ h ∷ []) other
        ≡ deciphered primitives later other (primitives.decipher iv b)
  unfolding decrypt compare_hmac
  decrypt-passed later e i h b iv other at_e at_i at_h some_b some_iv =
      let code = generate primitives (e ∷ i ∷ []) in
      let some_code : is_empty code ≡ false =
        unfold generate in primitives.is_empty-digest (e ∷ i ∷ []) in
      let same : safe_equal code code ≡ true = (safe_equal-equal code code).1 refl in
      rw (at_e, at_i, at_h, some_b, some_iv, some_code, same) refl

  -- The random text has the size that is asked for, whatever the random bytes are.
  pub generate_random-length :
      (size : ℕ) (random : Bytes)
      → length random ≡ random_size size
      → length (generate_random primitives size random) ≡ size
  unfolding generate_random
  generate_random-length size random h =
      let encoded = url_safe (primitives.to_base64 random) in
      omega (arith, h, length-take size encoded, primitives.length-url_safe random)

  some-is_empty : (n : ℕ) (b : Bytes) → length b ≡ suc n → is_empty b ≡ false
  some-is_empty n [] h = absurd (omega (arith, h))
  some-is_empty n (c ∷ cs) h = refl

  decrypt-encrypt_with :
      (now later : ℕ) (iv : Bytes) (value : V) (expires_at : ℕ) (purpose other : Bytes)
      → is_empty iv ≡ false
      → is_empty purpose ≡ false
      → decrypt primitives later (encrypt_with primitives now iv value expires_at purpose) other ≡ (
          if same_bytes purpose other && ltb (later / 1000 * 1000) (now + expires_at * 1000)
          then some value
          else none)
  unfolding encrypt_with generate
  decrypt-encrypt_with now later iv value expires_at purpose other some_iv some_purpose =
      let c : Claims V = record {
        value = value;
        exp = now + expires_at * 1000;
        subject = purpose;
      } in
      let encrypted = primitives.cipher iv (primitives.sign c) in
      let e = url_safe (primitives.to_base64 encrypted) in
      let i = url_safe (primitives.to_base64 iv) in
      let passed =
        decrypt-passed later e i
          (url_safe (primitives.to_base64 (generate primitives (e ∷ i ∷ [])))) encrypted iv other
          (primitives.from_base64-url_safe encrypted) (primitives.from_base64-url_safe iv)
          (primitives.from_base64-url_safe (generate primitives (e ∷ i ∷ [])))
          (primitives.is_empty-cipher iv (primitives.sign c)) some_iv in
      let same_purpose : same_bytes purpose other ≡ true → is_empty other ≡ false =
        λ k. ap is_empty (sym (same_bytes-equal purpose other k)) ∙ some_purpose in
      passed
      ∙ rw (primitives.decipher-cipher, primitives.verify-sign)
          (ground (arith, some_purpose, same_purpose))

  -- With as many random bytes as the source asks for, what was encrypted for a purpose decrypts to its value for the same purpose, until the whole seconds
  -- of the time have reached its expiry;
  -- for another purpose, for none, and from then on it does not decrypt.
  pub decrypt-encrypt :
      (now later : ℕ) (random : Bytes) (value : V) (expires_at : ℕ) (purpose other : Bytes)
      → length random ≡ random_size 16
      → is_empty purpose ≡ false
      → decrypt primitives later (encrypt primitives now random value expires_at purpose) other ≡ (
          if same_bytes purpose other && ltb (later / 1000 * 1000) (now + expires_at * 1000)
          then some value
          else none)
  unfolding encrypt
  decrypt-encrypt now later random value expires_at purpose other enough some_purpose =
      let iv = generate_random primitives 16 random in
      decrypt-encrypt_with now later iv value expires_at purpose other
        (some-is_empty 15 iv (generate_random-length 16 random enough)) some_purpose
