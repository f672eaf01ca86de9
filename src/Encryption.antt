-- ===== src/Encryption.antt =====
-- src/encryption: what the coordination server and its clients send each other. Texts are their
-- bytes, and a token is its parts, which a `.` separates; the primitives of node (crypto, Buffer)
-- and jsonwebtoken are the parameter `Primitives`.
pub mod Equal
pub mod RoundTrip
pub mod Base64
use rabbitmqtobucketqueue.Common.{
  ℕ, zero, suc, ◌+◌, ◌*◌, ◌/◌, ◌≡◌, Bool, true, false, not, ◌&&◌, ◌||◌, if◌then◌else◌, ltb, ◌==◌,
  List, [], ◌∷◌, length, take, Option, none, some, String, Result, ok, err, Unit₀,
}

abbrev pub Bytes : Type 0
Bytes = List ℕ

-- What a token carries; a subject that is empty stands for none. `exp` is in seconds with three
-- decimals, here the number of milliseconds.
pub record Claims (V : Type 0) : Type 0 where
  pub value : V
  pub exp : ℕ
  pub subject : Bytes

-- In `url_safe`: `+` becomes `-`, `/` becomes `_`, and `=` goes.
unfoldable pub url_safe : Bytes → Bytes
url_safe [] = []
url_safe (c ∷ cs) =
    let rest = url_safe cs in
    if c == 43 then 45 ∷ rest else if c == 47 then 95 ∷ rest else if c == 61 then rest else c ∷ rest

abbrev pub is_empty : Bytes → Bool
is_empty [] = true
is_empty (b ∷ bs) = false

-- The test of the key in the constructor.
unfoldable pub check_key : Bytes → Bool → Result String Unit₀
check_key key allow_insecure =
    if ltb (length key) 16 && not allow_insecure
    then err "Insecure Encryption key. Must be at least 16 characters long."
    else ok tt

-- The key is fixed. Base64 is read in both alphabets and without padding.
pub record Primitives (V : Type 0) : Type 0 where
  pub to_base64 : Bytes → Bytes
  pub from_base64 : Bytes → Bytes
  pub from_base64-url_safe : (b : Bytes) → from_base64 (url_safe (to_base64 b)) ≡ b
  -- Without padding, three bytes make four characters.
  pub length-url_safe : (b : Bytes) → length (url_safe (to_base64 b)) ≡ (4 * length b + 2) / 3
  pub cipher : Bytes → Bytes → Bytes
  pub decipher : Bytes → Bytes → Option Bytes
  pub decipher-cipher : (iv b : Bytes) → decipher iv (cipher iv b) ≡ some b
  pub is_empty-cipher : (iv b : Bytes) → is_empty (cipher iv b) ≡ false
  pub digest : List Bytes → Bytes
  pub is_empty-digest : (v : List Bytes) → is_empty (url_safe (to_base64 (digest v))) ≡ false
  pub sign : Claims V → Bytes
  pub verify : ℕ → Bytes → Option (Claims V)
  -- A token has expired when the clock of jsonwebtoken, which counts whole seconds, has reached `exp`.
  pub verify-sign :
      (now : ℕ) (c : Claims V)
      → verify now (sign c) ≡ (if ltb (now / 1000 * 1000) c.exp then some c else none)

-- Whether two texts are the same, as `timingSafeEqual` says of two buffers of one length, and `write` into a buffer of zeros.
unfoldable pub same_bytes : Bytes → Bytes → Bool
same_bytes [] [] = true
same_bytes [] (d ∷ ds) = false
same_bytes (c ∷ cs) [] = false
same_bytes (c ∷ cs) (d ∷ ds) = (c == d) && same_bytes cs ds

unfoldable pub written : ℕ → Bytes → Bytes
written zero bs = []
written (suc n) [] = 0 ∷ written n []
written (suc n) (b ∷ bs) = b ∷ written n bs

-- `timingSafeEqual`, which throws for two buffers of different lengths.
abbrev pub timing_safe_equal : Bytes → Bytes → Result String Bool
timing_safe_equal a b =
    if length a == length b
    then ok (same_bytes a b)
    else err "Input buffers must have the same byte length"

-- What SafeEqual.ts compares: texts, or what `Buffer.from` takes.
pub data Comparable : Type 0 where
  text buffer : Bytes → Comparable

-- SafeEqual.ts, for two texts.
unfoldable pub safe_equal : Bytes → Bytes → Bool
unfolding same_bytes written
safe_equal value other =
    same_bytes (written (length value) value) (written (length value) other)
    && (length value == length other)

abbrev pub bytes_of : Comparable → Bytes
bytes_of (text b) = b
bytes_of (buffer b) = b

-- SafeEqual.ts: two texts are compared as such, anything else as buffers.
unfoldable pub safe_equal_values : Comparable → Comparable → Result String Bool
unfolding safe_equal
safe_equal_values (text v) (text w) = ok (safe_equal v w)
safe_equal_values v w = timing_safe_equal (bytes_of v) (bytes_of w)

-- The number of random bytes for a text of a given size.
abbrev pub random_size : ℕ → ℕ
random_size size = ((size + 1) * 6 + 7) / 8

module _ {V : Type 0} (primitives : Primitives V) where
  open primitives use {to_base64, from_base64, cipher, decipher, digest, sign, verify}

  -- Base64.ts.
  abbrev pub url_encode : Bytes → Bytes
  url_encode b = url_safe (to_base64 b)

  abbrev pub url_decode : Bytes → Bytes
  url_decode b = from_base64 b

  -- Hmac.ts.
  unfoldable pub generate : List Bytes → Bytes
  generate value = url_encode (digest value)

  unfoldable pub compare_hmac : List Bytes → Bytes → Bool
  compare_hmac value existing = safe_equal (generate value) existing

  -- `#generateRandom`, from what `randomBytes` gives. `#normalizeBase64` is the URL-safe alphabet.
  unfoldable pub generate_random : ℕ → Bytes → Bytes
  generate_random size random = take size (url_safe (to_base64 random))

  -- At a time in milliseconds, which `toSeconds` gives with its fraction, with an initialization
  -- vector; `expires_at` is in seconds.
  unfoldable pub encrypt_with : ℕ → Bytes → V → ℕ → Bytes → List Bytes
  encrypt_with now iv value expires_at purpose =
      let encoded =
        sign (record { value = value; exp = now + expires_at * 1000; subject = purpose }) in
      let encrypted = url_encode (cipher iv encoded) in
      let parts = encrypted ∷ url_encode iv ∷ [] in
      encrypted ∷ url_encode iv ∷ url_encode (generate parts) ∷ []

  -- With random bytes.
  unfoldable pub encrypt : ℕ → Bytes → V → ℕ → Bytes → List Bytes
  unfolding encrypt_with generate_random
  encrypt now random value expires_at purpose =
      encrypt_with now (generate_random 16 random) value expires_at purpose

  -- The claims after the test of the purpose; a purpose that is empty is no purpose.
  abbrev pub for_purpose : Bytes → Option (Claims V) → Option V
  for_purpose purpose none = none
  for_purpose purpose (some c) =
      if (not (is_empty purpose) && not (same_bytes c.subject purpose))
        || (not (is_empty c.subject) && is_empty purpose)
      then none
      else some c.value

  abbrev pub deciphered : ℕ → Bytes → Option Bytes → Option V
  deciphered now purpose none = none
  deciphered now purpose (some clear) = for_purpose purpose (verify now clear)

  unfoldable pub decrypt : ℕ → List Bytes → Bytes → Option V
  unfolding compare_hmac
  decrypt now (e ∷ i ∷ h ∷ rest) purpose =
      if is_empty (url_decode e) || is_empty (url_decode i) || is_empty (url_decode h)
      then none
      else if not (compare_hmac (e ∷ i ∷ []) (url_decode h))
      then none
      else deciphered now purpose (decipher (url_decode i) (url_decode e))
  decrypt now _ purpose = none
