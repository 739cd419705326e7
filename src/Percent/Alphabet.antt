-- ===== src/Percent/Alphabet.antt =====
-- The bytes that an encoded text is made of.
use sql2rdf.Base.{
  ℕ, zero, suc, ◌/◌, ◌%◌, ◌<◌, ◌≡◌, ◌≢◌, refl, inl, inr, Bool, true, false, ◌&&◌, ◌||◌, not, [],
  ◌∷◌, ◌++◌, ◌==◌, ==_iff, Bool-cases, arith, Bytes, contains, All, All-append,
}
use sql2rdf.Percent.{unreserved, strchr, hex_digit, encode_byte, percent_encode}
use sql2rdf.Percent.RoundTrip.{IsByteString}

-- A byte that RFC 3986 lets stand in an encoded text.
abbrev pub IsEncoded : ℕ → Type 0
IsEncoded c = (contains unreserved c || c == b'%') ≡ true

-- A byte that `percentEncode` never emits: not in the array, not its terminator, and not `%`.
unfoldable pub is_reserved : ℕ → Bool
is_reserved c = not (strchr unreserved c || c == b'%')

hex_digit_below : ℕ → Bool
hex_digit_below zero = true
hex_digit_below (suc n) = contains unreserved (hex_digit n) && hex_digit_below n

hex_digit_table : hex_digit_below 16 ≡ true
unfolding hex_digit_below contains unreserved hex_digit
hex_digit_table = refl

hex_digit_below_sound :
    (k n : ℕ) → hex_digit_below k ≡ true → n < k → contains unreserved (hex_digit n) ≡ true
unfolding hex_digit_below
hex_digit_below_sound zero n h lt = absurd (omega arith)
hex_digit_below_sound (suc k) n h lt = ground (arith, hex_digit_below_sound k n)

contains-hex_digit : (n : ℕ) → n < 16 → contains unreserved (hex_digit n) ≡ true
contains-hex_digit n = hex_digit_below_sound 16 n hex_digit_table

strchr-hex_digit : (n : ℕ) → n < 16 → strchr unreserved (hex_digit n) ≡ true
unfolding strchr
strchr-hex_digit n h = ground (arith, contains-hex_digit n h)

encode_byte-IsEncoded : (c : ℕ) → c < 256 → c ≢ 0 → All IsEncoded (encode_byte c)
unfolding encode_byte strchr
encode_byte-IsEncoded c h z =
    ground
      (arith, contains-hex_digit (c / 16) (omega arith), contains-hex_digit (c % 16) (omega arith))

-- The encoding of a byte string without NUL holds only unreserved bytes and `%`.
pub percent_encode-IsEncoded :
    (s : Bytes) → IsByteString s → All (λ c. c ≢ 0) s → All IsEncoded (percent_encode s)
unfolding percent_encode
percent_encode-IsEncoded [] h z = tt
percent_encode-IsEncoded (c ∷ s) h z =
    All-append IsEncoded (encode_byte c) (percent_encode s) (encode_byte-IsEncoded c h.0 z.0)
      (percent_encode-IsEncoded s h.1 z.1)

contains-append :
    (d : ℕ) (s t : Bytes)
    → contains s d ≡ false
    → contains t d ≡ false
    → contains (s ++ t) d ≡ false
unfolding contains
contains-append d [] t h k = k
contains-append d (x ∷ s) t h k = ground (arith, contains-append d s t)

reserved-ne : (d x : ℕ) → strchr unreserved x ≡ true → is_reserved d ≡ true → (x == d) ≡ false
reserved-ne d x h r = elim (Bool-cases (x == d)) [
  | inl e ↦ let same : x ≡ d = (==_iff x d).0 e in unfold is_reserved in cc (rw same at h)
  | inr e ↦ e
]

percent-ne : (d : ℕ) → is_reserved d ≡ true → (b'%' == d) ≡ false
unfolding is_reserved
percent-ne d r = ground arith

contains-encode_byte :
    (d c : ℕ) → c < 256 → is_reserved d ≡ true → contains (encode_byte c) d ≡ false
unfolding encode_byte
contains-encode_byte d c h r = elim (Bool-cases (strchr unreserved c)) [
  | inl e ↦ rw e (unfold contains in ground (arith, reserved-ne d c e r))
  | inr e ↦ rw e (
      unfold contains in
      ground (
        arith,
        percent-ne d r,
        reserved-ne d (hex_digit (c / 16)) (strchr-hex_digit (c / 16) (omega arith)) r,
        reserved-ne d (hex_digit (c % 16)) (strchr-hex_digit (c % 16) (omega arith)) r,
      ))
]

-- A reserved byte does not occur in any encoded text.
pub contains-percent_encode :
    (d : ℕ) (s : Bytes)
    → IsByteString s
    → is_reserved d ≡ true
    → contains (percent_encode s) d ≡ false
unfolding percent_encode
contains-percent_encode d [] h r = unfold contains in refl
contains-percent_encode d (c ∷ s) h r =
    contains-append d (encode_byte c) (percent_encode s) (contains-encode_byte d c h.0 r)
      (contains-percent_encode d s h.1 r)
