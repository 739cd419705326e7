-- ===== src/Lexer/Escapes.antt =====
-- Code point escapes, which are resolved in front of the tokenizer: `preprocessCodepointEscapes` and
-- `appendUtf8` (src/sparql-parser/Lexer.cpp). The tests on hexadecimal digits are those of Percent.
-- A mask `& 0x3F` is a remainder, and an `|` of bits that do not meet is a sum. `0xF0 | x`, cut to a
-- `char`, keeps the low half of `x`. A code point has at most 32 bits.
pub mod RoundTrip
use sql2rdf.Base.{
  ℕ, zero, suc, ◌+◌, ◌-◌, ◌*◌, ◌/◌, ◌%◌, ◌≤◌, ◌<◌, Bool, true, false, ◌&&◌, ◌||◌, [], ◌∷◌, ◌++◌,
  Option, none, some, if◌then◌else◌, ◌==◌, leb, ltb, drop, Bytes, All, All-append, Bool-cases, inl,
  inr, ◌≡◌, refl, ap, ◌∙◌, arith,
}
use sql2rdf.Percent.{is_hex_digit, hex_val}
use sql2rdf.Lexer.Cursor.{byte_at}

abbrev pub continuation : ℕ → ℕ
continuation x = 0x80 + x % 64

unfoldable pub append_utf8 : ℕ → Bytes
append_utf8 codepoint =
    if leb codepoint 0x7f
    then codepoint ∷ []
    else if leb codepoint 0x7ff
    then (0xc0 + codepoint / 64) ∷ continuation codepoint ∷ []
    else if leb codepoint 0xffff
    then (0xe0 + codepoint / 4096) ∷ continuation (codepoint / 64) ∷ continuation codepoint ∷ []
    else (0xf0 + codepoint / 262144 % 16)
      ∷ continuation (codepoint / 4096)
      ∷ continuation (codepoint / 64)
      ∷ continuation codepoint
      ∷ []

-- If the string begins with so many hexadecimal digits.
unfoldable pub all_hex : ℕ → Bytes → Bool
unfolding is_hex_digit
all_hex zero s = true
all_hex (suc n) [] = false
all_hex (suc n) (c ∷ s) = is_hex_digit c && all_hex n s

unfoldable pub codepoint_of : ℕ → ℕ → Bytes → ℕ
unfolding hex_val
codepoint_of zero acc s = acc
codepoint_of (suc n) acc [] = acc
codepoint_of (suc n) acc (c ∷ s) = codepoint_of n (acc * 16 + hex_val c) s

abbrev pub digits_of : ℕ → ℕ
digits_of u = if u == b'u' then 4 else 8

abbrev pub is_escape : ℕ → Bytes → Bool
is_escape c s =
    c == b'\\'
    && ((byte_at s 0 == b'u' || byte_at s 0 == b'U')
        && all_hex (digits_of (byte_at s 0)) (drop 1 s))

unfoldable pub escapes_loop : Bytes → ℕ → Bytes
unfolding append_utf8 all_hex codepoint_of
escapes_loop [] skip = []
escapes_loop (c ∷ s) (suc skip) = escapes_loop s skip
escapes_loop (c ∷ s) zero =
    let digits = digits_of (byte_at s 0) in
    let escape = append_utf8 (codepoint_of digits 0 (drop 1 s)) ++ escapes_loop s (suc digits) in
    let plain = c ∷ escapes_loop s 0 in if is_escape c s then escape else plain

unfoldable pub preprocess_codepoint_escapes : Bytes → Bytes
unfolding escapes_loop
preprocess_codepoint_escapes input = escapes_loop input 0

-- The value of continuation bytes behind a lead, and what follows.
unfoldable pub decode_tail : ℕ → ℕ → Bytes → Option (ℕ × Bytes)
decode_tail zero acc s = some (acc, s)
decode_tail (suc n) acc [] = none
decode_tail (suc n) acc (c ∷ s) = decode_tail n (acc * 64 + (c - 0x80)) s

-- The code point that some bytes encode, and what follows: the lead byte tells how many there are.
unfoldable pub decode_utf8 : Bytes → Option (ℕ × Bytes)
unfolding decode_tail
decode_utf8 [] = none
decode_utf8 (a ∷ s) =
    if ltb a 0x80
    then some (a, s)
    else if ltb a 0xe0
    then decode_tail 1 (a - 0xc0) s
    else if ltb a 0xf0
    then decode_tail 2 (a - 0xe0) s
    else decode_tail 3 (a - 0xf0) s

leb-true : (m n : ℕ) → leb m n ≡ true → m ≤ n
leb-true m n h = ground arith

leb-false : (m n : ℕ) → leb m n ≡ false → n < m
leb-false m n h = ground arith

below : (m n : ℕ) → m < n → ltb m n ≡ true
below m n h = ground arith

not_below : (m n : ℕ) → n ≤ m → ltb m n ≡ false
not_below m n h = ground arith

decode_one : (a : ℕ) (s : Bytes) → a ≤ 127 → decode_utf8 (a ∷ s) ≡ some (a, s)
unfolding decode_utf8
decode_one a s h = rw (below a 128 (omega arith)) refl

decode_two :
    (a : ℕ) (s : Bytes) → 192 ≤ a → a < 224 → decode_utf8 (a ∷ s) ≡ decode_tail 1 (a - 192) s
unfolding decode_utf8
decode_two a s h k = rw (not_below a 128 (omega arith), below a 224 k) refl

decode_three :
    (a : ℕ) (s : Bytes) → 224 ≤ a → a < 240 → decode_utf8 (a ∷ s) ≡ decode_tail 2 (a - 224) s
unfolding decode_utf8
decode_three a s h k = rw (not_below a 128 (omega arith), not_below a 224 h, below a 240 k) refl

decode_four : (a : ℕ) (s : Bytes) → 240 ≤ a → decode_utf8 (a ∷ s) ≡ decode_tail 3 (a - 240) s
unfolding decode_utf8
decode_four a s h =
    rw (not_below a 128 (omega arith), not_below a 224 (omega arith), not_below a 240 h) refl

abbrev read : ℕ → Bytes → Option (ℕ × Bytes)
read codepoint rest = some (codepoint, rest)

same_code : (m n : ℕ) (rest : Bytes) → m ≡ n → read m rest ≡ read n rest
same_code m n rest h = ap (λ k. read k rest) h

-- Code points of at most 22 bits, and so all of Unicode, are read back from their encoding.
pub decode_utf8-append_utf8 :
    (codepoint : ℕ) (rest : Bytes)
    → codepoint < 4194304
    → decode_utf8 (append_utf8 codepoint ++ rest) ≡ some (codepoint, rest)
unfolding append_utf8 decode_tail
decode_utf8-append_utf8 k rest h = elim (Bool-cases (leb k 0x7f)) [
  | inl e ↦ rw e (decode_one k rest (leb-true k 127 e))
  | inr e ↦ elim (Bool-cases (leb k 0x7ff)) [
    | inl f ↦
        let small = leb-true k 2047 f in
        rw (e, f)
          (decode_two (192 + k / 64) _ (omega arith) (omega arith)
            ∙ same_code _ k rest (omega arith))
    | inr f ↦ elim (Bool-cases (leb k 0xffff)) [
      | inl g ↦
          let small = leb-true k 65535 g in
          rw (e, f, g)
            (decode_three (224 + k / 4096) _ (omega arith) (omega arith)
              ∙ same_code _ k rest (omega arith))
      | inr g ↦
          rw (e, f, g)
            (decode_four (240 + k / 262144 % 16) _ (omega arith) ∙ same_code _ k rest (omega arith))
    ]
  ]
]
