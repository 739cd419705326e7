-- ===== src/Lexer/Progress/Local.antt =====
-- Progress of the local part of a prefixed name.
use mathlib.Core.List.{reverse, reverse-append}
use sql2rdf.Base.{
  ℕ, zero, suc, ◌+◌, ◌≤◌, true, false, not, ◌&&◌, ◌||◌, [], ◌∷◌, ◌++◌, ◌==◌, length, length-append,
  drop, Bytes, contains, Bool-cases, inl, inr, ◌≡◌, ◌≢◌, refl, sym, ap, ◌∙◌, arith,
}
use sql2rdf.Percent.{is_hex_digit}
use sql2rdf.Lexer.Cursor.{
  Cursor, Lexed, ok, parse_error, out_of_range, ◌>>=◌, peek, step, back, advance, step_back, error,
}
use sql2rdf.Lexer.Scan.{is_digit, is_name_start_char, is_name_char}
use sql2rdf.Lexer.Names.{
  local_escapes, lex_percent_or_local_escape, pn_local_loop, trim_dots, trimmed, lex_pn_local,
}
use sql2rdf.Lexer.Progress.{
  Past, Past-refl, Good, if-Good, Exact, Exact-trans, Exact-rest, step-Exact, advance-Exact, source,
  pos, rewind,
}

hex-ne-zero : (c : ℕ) → is_hex_digit c ≡ true → c ≢ 0
unfolding is_hex_digit
hex-ne-zero c h = ground arith

local_escape-ne-zero : (c : ℕ) → contains local_escapes c ≡ true → c ≢ 0
unfolding contains local_escapes
local_escape-ne-zero c h = ground arith

name_start-ne-zero : (c : ℕ) → (not (is_name_start_char c) && not (is_digit c)) ≡ false → c ≢ 0
name_start-ne-zero c h = ground arith

-- The text of an escape is no longer than what it was read from.
abbrev EscapeGood : ℕ → Cursor → Lexed (Bytes × Cursor) → Type 0
EscapeGood n c (ok (text, d)) = Exact n c d × (length text ≤ n)
EscapeGood n c (parse_error message line column near) = Unit
EscapeGood n c out_of_range = Unit

error-EscapeGood :
    (n : ℕ) (c : Cursor) (message : Bytes) (d : Cursor) → EscapeGood n c (error message d)
unfolding error
error-EscapeGood n c message d = elim (Bool-cases (d.beyond == 0)) [
  | inl e ↦ rw e tt
  | inr e ↦ rw e tt
]

percent_escape-EscapeGood :
    (c : Cursor) → (peek c 0 == b'%') ≡ true → EscapeGood 3 c (lex_percent_or_local_escape c)
unfolding lex_percent_or_local_escape
percent_escape-EscapeGood c e = rw e (
    let at : peek c 0 ≢ 0 = ground arith in
    elim (Bool-cases (is_hex_digit (peek (advance c) 0))) [
      | inr h ↦ rw h (error-EscapeGood 3 c _ (advance c))
      | inl h ↦ elim (Bool-cases (is_hex_digit (peek (advance (advance c)) 0))) [
        | inr k ↦ rw (h, k) (error-EscapeGood 3 c _ (advance (advance c)))
        | inl k ↦
            let p = advance-Exact c at in
            let q = advance-Exact (advance c) (hex-ne-zero (peek (advance c) 0) h) in
            let r =
              advance-Exact (advance (advance c)) (hex-ne-zero (peek (advance (advance c)) 0) k) in
            rw (h, k)
              (
                Exact-trans 1 2 3 c (advance c) _ (omega arith) p
                    (Exact-trans 1 1 2 (advance c) (advance (advance c)) _ (omega arith) q r),
                omega arith,
              )
      ]
    ])

local_escape-EscapeGood :
    (c : Cursor)
    → (peek c 0 == b'%') ≡ false
    → (peek c 0 == b'\\') ≡ true
    → EscapeGood 2 c (lex_percent_or_local_escape c)
unfolding lex_percent_or_local_escape
local_escape-EscapeGood c e e' =
    rw (e, e')
      (let at : peek c 0 ≢ 0 = ground arith in
        elim (Bool-cases (contains local_escapes (peek (advance c) 0))) [
          | inr h ↦ rw h (error-EscapeGood 2 c _ (advance c))
          | inl h ↦ rw h (
            Exact-trans 1 1 2 c (advance c) _ (omega arith) (advance-Exact c at)
                (advance-Exact (advance c) (local_escape-ne-zero (peek (advance c) 0) h)),
            omega arith,
          )
        ])

-- A text and a cursor that the text has room in front of.
record Room (base : ℕ) (c : Cursor) (text : Bytes) (d : Cursor) : Type 0 where
  same : source d ≡ source c
  room : base + length text ≤ pos d
  kept : d.beyond ≡ c.beyond

abbrev RoomGood : ℕ → Cursor → Lexed (Bytes × Cursor) → Type 0
RoomGood base c (ok (text, d)) = Room base c text d
RoomGood base c (parse_error message line column near) = Unit
RoomGood base c out_of_range = Unit

Room-grow :
    (base n : ℕ) (c d e : Cursor) (out text : Bytes)
    → Room base c out d
    → Exact n d e
    → length text ≤ n
    → Room base c (out ++ text) e
Room-grow base n c d e out text p q h = record {
  same = q.same ∙ p.same;
  room = omega (arith, p.room, q.there, length-append out text);
  kept = q.kept ∙ p.kept;
}

-- The bytes that are left, when `skip` of the loop's own are still to be passed over.
abbrev Aligned : ℕ → Bytes → Cursor → Type 0
Aligned skip r d = d.rest ≡ drop skip r

module _ (base : ℕ) (c : Cursor) where
  escape_then-RoomGood :
      (n : ℕ) (d : Cursor) (out : Bytes) (x : Lexed (Bytes × Cursor))
      (k : Bytes × Cursor → Lexed (Bytes × Cursor))
      → Room base c out d
      → EscapeGood n d x
      → ((text : Bytes) (e : Cursor)
          → Exact n d e
          → Room base c (out ++ text) e
          → RoomGood base c (k (text, e)))
      → RoomGood base c (x >>= k)
  escape_then-RoomGood n d out (ok (text, e)) k room good f =
      f text e good.0 (Room-grow base n c d e out text room good.0 good.1)
  escape_then-RoomGood n d out (parse_error message line column near) k room good f = tt
  escape_then-RoomGood n d out out_of_range k room good f = tt

  pn_local_loop-RoomGood :
      (r : Bytes) (skip : ℕ) (d : Cursor) (out : Bytes)
      → Aligned skip r d
      → Room base c out d
      → RoomGood base c (pn_local_loop r skip d out)
  unfolding pn_local_loop
  pn_local_loop-RoomGood [] skip d out at room = room
  pn_local_loop-RoomGood (x ∷ s) (suc skip) d out at room =
      pn_local_loop-RoomGood s skip d out at room
  pn_local_loop-RoomGood (x ∷ s) zero d out at room = elim (Bool-cases (x == b'%')) [
    | inl e ↦ rw e (
        escape_then-RoomGood 3 d out (lex_percent_or_local_escape d) _ room
          (percent_escape-EscapeGood d (rw at e))
          (λ text next p grown.
            pn_local_loop-RoomGood s 2 next (out ++ text) (Exact-rest 3 d next p ∙ ap (drop 3) at)
              grown))
    | inr e ↦ elim (Bool-cases (x == b'\\')) [
      | inl e' ↦
          rw (e, e')
            (escape_then-RoomGood 2 d out (lex_percent_or_local_escape d) _ room
              (local_escape-EscapeGood d (rw at e) (rw at e'))
              (λ text next p grown.
                pn_local_loop-RoomGood s 1 next (out ++ text)
                  (Exact-rest 2 d next p ∙ ap (drop 2) at) grown))
      | inr e' ↦ elim (Bool-cases (is_name_char x || (x == b':' || x == b'.'))) [
        | inl k ↦
            rw (e, e', k)
              (pn_local_loop-RoomGood s 0 (step x s d) (out ++ x ∷ []) refl (
                Room-grow base 1 c d (step x s d) out (x ∷ []) room (step-Exact x s d at)
                  (omega arith)))
        | inr k ↦ rw (e, e', k) room
      ]
    ]
  ]

back_kept : (b : Bytes) (d : Cursor) → (back b d).beyond ≡ d.beyond
unfolding back
back_kept [] d = refl
back_kept (x ∷ b) d = refl

back-pos :
    (b : Bytes) (d : Cursor) (n : ℕ)
    → d.before ≡ b
    → suc n ≤ pos d
    → (source (back b d) ≡ source d) × (suc (pos (back b d)) ≡ pos d)
unfolding back
back-pos [] d n e h = let z : pos d ≡ 0 = ap length e in absurd (omega arith)
back-pos (x ∷ b) d n e h = (ap (λ l. rewind l d.rest) (sym e), sym (ap length e))

step_back-kept : (d : Cursor) → (step_back d).beyond ≡ d.beyond
unfolding step_back
step_back-kept d = back_kept d.before d

step_back-pos :
    (n : ℕ) (d : Cursor)
    → suc n ≤ pos d
    → (source (step_back d) ≡ source d) × (suc (pos (step_back d)) ≡ pos d)
unfolding step_back
step_back-pos n d h = back-pos d.before d n refl h

trim_dots-Past :
    (out : Bytes) (c d : Cursor)
    → source d ≡ source c
    → pos c + length out ≤ pos d
    → d.beyond ≡ c.beyond
    → Past 0 c (trim_dots out d).1
unfolding trim_dots
trim_dots-Past [] c d s h k = record { same = s; far = omega arith; kept = k }
trim_dots-Past (x ∷ out) c d s h k = elim (Bool-cases (x == b'.')) [
  | inr e ↦ rw e (record { same = s; far = omega arith; kept = k })
  | inl e ↦
      let (same, one) = step_back-pos (pos c + length out) d (omega arith) in
      rw e (trim_dots-Past out c (step_back d) (same ∙ s) (omega arith) (step_back-kept d ∙ k))
]

length-reverse : (s : Bytes) → length (reverse s) ≡ length s
length-reverse [] = refl
length-reverse (x ∷ s) =
    ap length (reverse-append (x ∷ []) s)
    ∙ length-append (reverse s) (x ∷ [])
    ∙ omega (arith, length-reverse s)

RoomGood-trimmed :
    (c : Cursor) (x : Lexed (Bytes × Cursor))
    → RoomGood (pos c) c x
    → Good 0 c (x >>= λ result. ok (trim_dots (reverse result.0) result.1))
RoomGood-trimmed c (ok (text, d)) g =
    trim_dots-Past (reverse text) c d g.same (rw (length-reverse text) g.room) g.kept
RoomGood-trimmed c (parse_error message line column near) g = tt
RoomGood-trimmed c out_of_range g = tt

start-Room :
    (n : ℕ) (c d : Cursor) (text : Bytes) → Exact n c d → length text ≤ n → Room (pos c) c text d
start-Room n c d text p h = record { same = p.same; room = omega (arith, p.there); kept = p.kept }

first_escape-Good :
    (n : ℕ) (c : Cursor) (x : Lexed (Bytes × Cursor))
    → EscapeGood n c x
    → Good 0 c (do
      (text, next) ← x
      result ← pn_local_loop next.rest 0 next text
      ok (trim_dots (reverse result.0) result.1))
first_escape-Good n c (ok (text, d)) g =
    RoomGood-trimmed c (pn_local_loop d.rest 0 d text)
      (pn_local_loop-RoomGood (pos c) c d.rest 0 d text refl (start-Room n c d text g.0 g.1))
first_escape-Good n c (parse_error message line column near) g = tt
first_escape-Good n c out_of_range g = tt

-- The local part ends where it began or further on.
pub lex_pn_local-Good : (c : Cursor) → Good 0 c (lex_pn_local c)
unfolding lex_pn_local trimmed
lex_pn_local-Good c =
    if-Good 0 c (peek c 0 == b'%' || peek c 0 == b'\\') _ _
      (λ h. elim (Bool-cases (peek c 0 == b'%')) [
        | inl e ↦
            first_escape-Good 3 c (lex_percent_or_local_escape c) (percent_escape-EscapeGood c e)
        | inr e ↦
            first_escape-Good 2 c (lex_percent_or_local_escape c)
              (local_escape-EscapeGood c e (ground arith))
      ])
      (λ h.
        if-Good 0 c (is_name_start_char (peek c 0) || (peek c 0 == b':' || is_digit (peek c 0))) _ _
          (λ k.
            let one = advance-Exact c (ground arith) in
            RoomGood-trimmed c (pn_local_loop (advance c).rest 0 (advance c) (peek c 0 ∷ [])) (
              pn_local_loop-RoomGood (pos c) c (advance c).rest 0 (advance c) (peek c 0 ∷ []) refl
                (start-Room 1 c (advance c) (peek c 0 ∷ []) one (omega arith))))
          (λ k. Past-refl c))
