-- ===== src/Encryption/Base64.antt =====
-- src/encryption/Base64.ts with its encodings and the strict way to decode. Buffer (node) is the
-- parameter `Buffers`.
use rabbitmqtobucketqueue.Common.{
  ◌≡◌, ◌∙◌, Bool, true, not, ◌&&◌, if◌then◌else◌, Option, none, some, ap, sym, arith, Bool-cases,
  inl, inr,
}
use rabbitmqtobucketqueue.Encryption.{Bytes, Comparable, text, buffer, url_safe, same_bytes}
use rabbitmqtobucketqueue.Encryption.Equal.{same_bytes-equal, same_bytes_refl}

-- `Buffer.from(text, encoding)` and `toString(encoding)`; Base64 is read in both alphabets and
-- without padding. A text stands for its characters.
pub record Buffers (Encoding : Type 0) : Type 0 where
  pub from_text : Encoding → Bytes → Bytes
  pub to_text : Encoding → Bytes → Bytes
  pub to_base64 : Bytes → Bytes
  pub from_base64 : Bytes → Bytes
  pub from_base64-to_base64 : (b : Bytes) → from_base64 (to_base64 b) ≡ b
  pub from_base64-url_safe : (b : Bytes) → from_base64 (url_safe (to_base64 b)) ≡ b

module _ {Encoding : Type 0} (buffers : Buffers Encoding) where
  open buffers use {from_text, to_text, to_base64, from_base64}

  unfoldable pub encode : Comparable → Encoding → Bytes
  encode (text t) encoding = to_base64 (from_text encoding t)
  encode (buffer b) encoding = to_base64 b

  unfoldable pub url_encode : Comparable → Encoding → Bytes
  unfolding encode
  url_encode data_given encoding = url_safe (encode data_given encoding)

  -- `null` if decoding is strict and encoding does not give the text back.
  abbrev pub decoded_if : Bool → Bytes → Bytes → Bytes → Option Bytes
  decoded_if strict encoded again decoded =
      if strict && not (same_bytes again encoded) then none else some decoded

  unfoldable pub decode : Comparable → Encoding → Bool → Option Bytes
  unfolding encode
  decode (buffer b) encoding strict = some (to_text encoding b)
  decode (text encoded) encoding strict =
      let decoded = to_text encoding (from_base64 encoded) in
      decoded_if strict encoded (encode (text decoded) encoding) decoded

  unfoldable pub url_decode : Comparable → Encoding → Bool → Option Bytes
  unfolding url_encode
  url_decode (buffer b) encoding strict = some (to_text encoding b)
  url_decode (text encoded) encoding strict =
      let decoded = to_text encoding (from_base64 encoded) in
      decoded_if strict encoded (url_encode (text decoded) encoding) decoded

  decoded_if-strict : (e d : Bytes) → decoded_if true e e d ≡ some d
  decoded_if-strict e d = ground (arith, same_bytes_refl e)

  decoded_if-some :
      (e again d t : Bytes) → decoded_if true e again d ≡ some t → (d ≡ t) × (again ≡ e)
  decoded_if-some e again d t h = elim (Bool-cases (same_bytes again e)) [
    | inl same ↦ (ground (arith, h, same), same_bytes-equal again e same)
    | inr other ↦ absurd (ground (arith, h, other))
  ]

  -- To decode strictly is to invert the encoding: a text that is encoded decodes to itself, if the
  -- encoding loses nothing of it, and what decodes to a text is its encoding, in both alphabets.
  pub strict-encode :
      (t e : Bytes) (encoding : Encoding)
      → to_text encoding (from_text encoding t) ≡ t
      → (decode (text (encode (text t) encoding)) encoding true ≡ some t)
        × (url_decode (text (url_encode (text t) encoding)) encoding true ≡ some t)
        × (decode (text e) encoding true ≡ some t → encode (text t) encoding ≡ e)
        × (url_decode (text e) encoding true ≡ some t → url_encode (text t) encoding ≡ e)
  unfolding decode url_decode encode url_encode
  strict-encode t e encoding lossless =
      let plain = encode (text t) encoding in
      let safe = url_encode (text t) encoding in
      let d = to_text encoding (from_base64 e) in
      (
        rw (buffers.from_base64-to_base64, lossless) (decoded_if-strict plain t),
        rw (buffers.from_base64-url_safe, lossless) (decoded_if-strict safe t),
        λ h.
            let (same, again) = decoded_if-some e (encode (text d) encoding) d t h in
            ap (λ x. encode (text x) encoding) (sym same) ∙ again,
        λ h.
            let (same, again) = decoded_if-some e (url_encode (text d) encoding) d t h in
            ap (λ x. url_encode (text x) encoding) (sym same) ∙ again,
      )
