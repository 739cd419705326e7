-- ===== src/Percent/RoundTrip.antt =====
-- Decoding after encoding.
use sql2rdf.Base.{
  ℕ, ◌/◌, ◌%◌, ◌<◌, ◌≡◌, refl, ap, ◌∙◌, inl, inr, true, false, [], ◌∷◌, ◌++◌, ◌==◌, Bool-cases,
  ==_iff, arith, Bytes, All,
}
use sql2rdf.Percent.{
  unreserved, strchr, hex_digit, encode_byte, percent_encode, is_hex_digit, hex_val, percent_decode,
}

-- A string of `unsigned char`s.
abbrev pub IsByteString : Bytes → Type 0
IsByteString s = All (λ c. c < 256) s

strchr-percent : (c : ℕ) → strchr unreserved c ≡ true → (c == b'%') ≡ false
unfolding strchr unreserved
strchr-percent c h = elim (Bool-cases (c == b'%')) [
  | inl e ↦ let percent : c ≡ b'%' = (==_iff c b'%').0 e in cc (rw percent at h)
  | inr e ↦ e
]

pub hex_digit_lem :
    (n : ℕ) → n < 16 → (is_hex_digit (hex_digit n) ≡ true) × (hex_val (hex_digit n) ≡ n)
unfolding is_hex_digit hex_digit hex_val
hex_digit_lem n h = ground arith

-- A plain byte is copied, whatever stands behind it.
percent_decode-plain :
    (c : ℕ) (s : Bytes) → (c == b'%') ≡ false → percent_decode (c ∷ s) ≡ c ∷ percent_decode s
unfolding percent_decode
percent_decode-plain c [] h = refl
percent_decode-plain c (x ∷ []) h = refl
percent_decode-plain c (x ∷ y ∷ s) h = rw h

percent_decode-encode_byte :
    (c : ℕ) (s : Bytes) → c < 256 → percent_decode (encode_byte c ++ s) ≡ c ∷ percent_decode s
unfolding encode_byte
percent_decode-encode_byte c s h = elim (Bool-cases (strchr unreserved c)) [
  | inl e ↦ rw e (percent_decode-plain c s (strchr-percent c e))
  | inr e ↦ rw e (
      unfold percent_decode in
      ground (arith, hex_digit_lem (c / 16) (omega arith), hex_digit_lem (c % 16) (omega arith)))
]

-- Decoding an encoded byte string gives the string back.
pub percent_decode-percent_encode :
    (s : Bytes) → IsByteString s → percent_decode (percent_encode s) ≡ s
unfolding percent_encode
percent_decode-percent_encode [] h = unfold percent_decode in refl
percent_decode-percent_encode (c ∷ s) h =
    percent_decode-encode_byte c (percent_encode s) h.0
    ∙ ap (◌∷◌ c) (percent_decode-percent_encode s h.1)
