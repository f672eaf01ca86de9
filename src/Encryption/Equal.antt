-- ===== src/Encryption/Equal.antt =====
-- The comparison in constant time is an equality test.
use rabbitmqtobucketqueue.Common.{
  Bool, false, err, ◌≢◌, ◌≡◌, refl, true, ◌==◌, [], ◌∷◌, length, arith, ok, ok_injective, ap,
  Bool-cases, inl, inr,
}
use rabbitmqtobucketqueue.Encryption.{
  Bytes, Comparable, text, buffer, bytes_of, same_bytes, written, safe_equal, timing_safe_equal,
  safe_equal_values,
}

same_bytes-written :
    (v w : Bytes)
    → (length v == length w) ≡ true
    → same_bytes (written (length v) v) (written (length v) w) ≡ true
    → v ≡ w
unfolding same_bytes written
same_bytes-written [] [] e h = refl
same_bytes-written [] (d ∷ ds) e h = ground (arith, e)
same_bytes-written (c ∷ cs) [] e h = ground (arith, e)
same_bytes-written (c ∷ cs) (d ∷ ds) e h = ground (arith, e, h, same_bytes-written cs ds)

same_bytes-same : (v : Bytes) → same_bytes (written (length v) v) (written (length v) v) ≡ true
unfolding same_bytes written
same_bytes-same [] = refl
same_bytes-same (c ∷ cs) = ground (arith, same_bytes-same cs)

-- The comparison in constant time of two texts, one cut or filled to the length of the other,
-- holds exactly if they are equal.
pub safe_equal-equal :
    (v w : Bytes) → (safe_equal v w ≡ true → v ≡ w) × (v ≡ w → safe_equal v w ≡ true)
unfolding safe_equal
safe_equal-equal v w = (
  λ h. same_bytes-written v w (ground (arith, h)) (ground (arith, h)),
  λ e. rw e (ground (arith, same_bytes-same w)),
)

pub same_bytes-equal : (v w : Bytes) → same_bytes v w ≡ true → v ≡ w
unfolding same_bytes
same_bytes-equal [] [] h = refl
same_bytes-equal [] (d ∷ ds) h = ground (arith, h)
same_bytes-equal (c ∷ cs) [] h = ground (arith, h)
same_bytes-equal (c ∷ cs) (d ∷ ds) h = ground (arith, h, same_bytes-equal cs ds)

pub same_bytes_refl : (v : Bytes) → same_bytes v v ≡ true
unfolding same_bytes
same_bytes_refl [] = refl
same_bytes_refl (c ∷ cs) = ground (arith, same_bytes_refl cs)

timing_safe_equal-equal :
    (v w : Bytes)
    → (timing_safe_equal v w ≡ ok true → v ≡ w) × (v ≡ w → timing_safe_equal v w ≡ ok true)
timing_safe_equal-equal v w = (
  λ h. elim (Bool-cases (length v == length w)) [
    | inl e ↦ same_bytes-equal v w (ground (arith, h, e))
    | inr e ↦ absurd (ground (arith, h, e))
  ],
  λ e. rw e (ground (arith, same_bytes_refl w)),
)

abbrev pub are_texts : Comparable → Comparable → Bool
are_texts (text v) (text w) = true
are_texts _ _ = false

timing_safe_equal-throws :
    (v w : Bytes)
    → (length v ≢ length w
        → timing_safe_equal v w ≡ err "Input buffers must have the same byte length")
      × (length v ≡ length w → timing_safe_equal v w ≡ ok (same_bytes v w))
timing_safe_equal-throws v w = (λ h. ground (arith, h), λ h. ground (arith, h))

-- What holds of values that are not both texts.
buffers-equal :
    (v w : Bytes)
    → (timing_safe_equal v w ≡ ok true → v ≡ w)
      × (v ≡ w → timing_safe_equal v w ≡ ok true)
      × (false ≡ true → (b : Bool) × (timing_safe_equal v w ≡ ok b))
      × (false ≡ false
          → (length v ≢ length w
              → timing_safe_equal v w ≡ err "Input buffers must have the same byte length")
            × (length v ≡ length w → (b : Bool) × (timing_safe_equal v w ≡ ok b)))
buffers-equal v w =
    let (to, from) = timing_safe_equal-equal v w in
    let (throws, gives) = timing_safe_equal-throws v w in
    (to, from, λ e. absurd (ground (arith, e)), λ e. (throws, λ h. (same_bytes v w, gives h)))

-- The comparison in constant time of two values, texts or buffers, gives true exactly if their bytes
-- are equal. If both are texts, it never throws; if one is a buffer, it throws exactly if their
-- lengths differ.
pub safe_equal_values-equal :
    (v w : Comparable)
    → (safe_equal_values v w ≡ ok true → bytes_of v ≡ bytes_of w)
      × (bytes_of v ≡ bytes_of w → safe_equal_values v w ≡ ok true)
      × (are_texts v w ≡ true → (b : Bool) × (safe_equal_values v w ≡ ok b))
      × (are_texts v w ≡ false
          → (length (bytes_of v) ≢ length (bytes_of w)
              → safe_equal_values v w ≡ err "Input buffers must have the same byte length")
            × (length (bytes_of v) ≡ length (bytes_of w)
                → (b : Bool) × (safe_equal_values v w ≡ ok b)))
unfolding safe_equal_values
safe_equal_values-equal (text v) (text w) = (
  λ h. (safe_equal-equal v w).0 (ok_injective h),
  λ e. ap (λ b. ok b) ((safe_equal-equal v w).1 e),
  λ t. (safe_equal v w, refl),
  λ t. absurd (ground (arith, t)),
)
safe_equal_values-equal (text v) (buffer w) = buffers-equal v w
safe_equal_values-equal (buffer v) (text w) = buffers-equal v w
safe_equal_values-equal (buffer v) (buffer w) = buffers-equal v w
