-- ===== src/Lexer/Progress.antt =====
-- How far a step of the tokenizer moves, and that it stays on the source.
pub mod Local
pub mod Names
pub mod Numbers
pub mod Strings
pub mod Scan
pub mod Next
use sql2rdf.Base.{
  ℕ, zero, suc, ◌+◌, ◌≤◌, Bool, true, false, List, [], ◌∷◌, if◌then◌else◌, ◌==◌, length, drop,
  Bytes, Bool-cases, inl, inr, ◌≡◌, ◌≢◌, refl, sym, ap, ◌∙◌, arith,
}
use sql2rdf.Lexer.Cursor.{
  Cursor, Lexed, ok, parse_error, out_of_range, ◌>>=◌, byte_at, peek, step, advance, move, error,
  consume, consume_loop,
}
use sql2rdf.Lexer.Scan.{skip_loop, skip_whitespace_and_comments}

-- The source, from its two halves.
abbrev pub rewind : Bytes → Bytes → Bytes
rewind [] rest = rest
rewind (c ∷ before) rest = rewind before (c ∷ rest)

abbrev pub source : Cursor → Bytes
source cur = rewind cur.before cur.rest

abbrev pub pos : Cursor → ℕ
pos cur = length cur.before

-- The second cursor stands on the same source, at least `n` bytes behind the first.
pub record Past (n : ℕ) (c d : Cursor) : Type 0 where
  pub same : source d ≡ source c
  pub far : pos c + n ≤ pos d
  pub kept : d.beyond ≡ c.beyond

pub Past-refl : (c : Cursor) → Past 0 c c
Past-refl c = record { same = refl; far = omega arith; kept = refl }

pub Past-trans : (m n k : ℕ) (c d e : Cursor) → k ≤ m + n → Past m c d → Past n d e → Past k c e
Past-trans m n k c d e h p q = record {
  same = q.same ∙ p.same;
  far = omega (arith, p.far, q.far);
  kept = q.kept ∙ p.kept;
}

-- The second cursor stands exactly `n` bytes behind the first.
pub record Exact (n : ℕ) (c d : Cursor) : Type 0 where
  pub same : source d ≡ source c
  pub there : pos d ≡ pos c + n
  pub kept : d.beyond ≡ c.beyond

pub Exact-refl : (c : Cursor) → Exact 0 c c
Exact-refl c = record { same = refl; there = omega arith; kept = refl }

pub Exact-Past : (n k : ℕ) (c d : Cursor) → k ≤ n → Exact n c d → Past k c d
Exact-Past n k c d h p = record { same = p.same; far = omega (arith, p.there); kept = p.kept }

pub Exact-trans : (m n k : ℕ) (c d e : Cursor) → k ≡ m + n → Exact m c d → Exact n d e → Exact k c e
Exact-trans m n k c d e h p q = record {
  same = q.same ∙ p.same;
  there = omega (arith, p.there, q.there);
  kept = q.kept ∙ p.kept;
}

zero-add : (n : ℕ) → 0 + n ≡ n
zero-add n = omega arith

shift : (m n : ℕ) → suc m + n ≡ m + suc n
shift m n = omega arith

drop-rewind :
    (n : ℕ) (before rest : Bytes) → drop (length before + n) (rewind before rest) ≡ drop n rest
drop-rewind n [] rest = rw (zero-add n) refl
drop-rewind n (b ∷ before) rest =
    ap (λ k. drop k (rewind before (b ∷ rest))) (shift (length before) n)
    ∙ drop-rewind (suc n) before (b ∷ rest)

-- What is left is what was left, less the bytes between.
pub Exact-rest : (n : ℕ) (c d : Cursor) → Exact n c d → d.rest ≡ drop n c.rest
Exact-rest n c d p =
    sym (drop-rewind 0 d.before d.rest)
    ∙ ap (drop (pos d + 0)) p.same
    ∙ ap (λ k. drop k (source c)) (omega (arith, p.there))
    ∙ drop-rewind n c.before c.rest

byte_at-drop : (k : ℕ) (s : Bytes) → byte_at (drop k s) 0 ≡ byte_at s k
byte_at-drop zero [] = refl
byte_at-drop zero (x ∷ s) = refl
byte_at-drop (suc k) [] = refl
byte_at-drop (suc k) (x ∷ s) = byte_at-drop k s

pub peek-Exact : (k : ℕ) (c d : Cursor) → Exact k c d → peek d 0 ≡ peek c k
peek-Exact k c d p = ap (λ s. byte_at s 0) (Exact-rest k c d p) ∙ byte_at-drop k c.rest

pub step-Exact : (x : ℕ) (s : Bytes) (c : Cursor) → c.rest ≡ x ∷ s → Exact 1 c (step x s c)
step-Exact x s c h = record {
  same = ap (rewind c.before) (sym h);
  there = omega arith;
  kept = refl;
}

move-Exact : (r : Bytes) (c : Cursor) → c.rest ≡ r → byte_at r 0 ≢ 0 → Exact 1 c (move r c)
unfolding move
move-Exact [] c h n = absurd (n refl)
move-Exact (x ∷ s) c h n = step-Exact x s c h

-- `advance()` at a byte of the source.
pub advance-Exact : (c : Cursor) → peek c 0 ≢ 0 → Exact 1 c (advance c)
unfolding advance
advance-Exact c n = move-Exact c.rest c refl n

-- What a successful result promises.
abbrev pub Good {ℓ} : {A : Type ℓ} → ℕ → Cursor → Lexed (A × Cursor) → Type 0
Good n c (ok (a, d)) = Past n c d
Good n c (parse_error message line column near) = Unit
Good n c out_of_range = Unit

pub error-Good {ℓ} :
    (A : Type ℓ) (n : ℕ) (c : Cursor) (message : Bytes) (d : Cursor)
    → Good {A = A} n c (error message d)
unfolding error
error-Good A n c message d = elim (Bool-cases (d.beyond == 0)) [ inl e ↦ rw e tt | inr e ↦ rw e tt ]

pub if-Good {ℓ} :
    {A : Type ℓ} (n : ℕ) (c : Cursor) (b : Bool) (x y : Lexed (A × Cursor))
    → (b ≡ true → Good n c x)
    → (b ≡ false → Good n c y)
    → Good n c (if b then x else y)
if-Good n c true x y p q = p refl
if-Good n c false x y p q = q refl

consume_loop-Exact :
    (p : Bytes → Bool) (r : Bytes) (c : Cursor)
    → c.rest ≡ r
    → Exact (length (consume_loop p r c).0) c (consume_loop p r c).1
unfolding consume_loop
consume_loop-Exact p [] c h = Exact-refl c
consume_loop-Exact p (x ∷ s) c h = elim (Bool-cases (p (x ∷ s))) [
  | inl e ↦ rw e (
      Exact-trans 1 (length (consume_loop p s (step x s c)).0)
        (suc (length (consume_loop p s (step x s c)).0)) c (step x s c)
        (consume_loop p s (step x s c)).1 (omega arith) (step-Exact x s c h)
        (consume_loop-Exact p s (step x s c) refl))
  | inr e ↦ rw e (Exact-refl c)
]

-- A loop of `advance()` moves by the text that it collects.
pub consume-Exact :
    (p : Bytes → Bool) (c : Cursor) → Exact (length (consume p c).0) c (consume p c).1
unfolding consume
consume-Exact p c = consume_loop-Exact p c.rest c refl

consume_loop-first :
    (p : Bytes → Bool) (r : Bytes) (c : Cursor)
    → byte_at r 0 ≢ 0
    → p r ≡ true
    → 1 ≤ length (consume_loop p r c).0
unfolding consume_loop
consume_loop-first p [] c n h = absurd (n refl)
consume_loop-first p (x ∷ s) c n h = rw h (omega arith)

pub consume-first :
    (p : Bytes → Bool) (c : Cursor) → peek c 0 ≢ 0 → p c.rest ≡ true → 1 ≤ length (consume p c).0
unfolding consume
consume-first p c n h = consume_loop-first p c.rest c n h

-- A successful result of a call is a cursor further on, from which the rest goes on.
pub then-Good {ℓ κ} :
    {A : Type ℓ} {B : Type κ} (m n k : ℕ) (c d : Cursor) (x : Lexed (A × Cursor))
    (f : A × Cursor → Lexed (B × Cursor))
    → Past m c d
    → Good n d x
    → ((a : A) (e : Cursor) → Past (m + n) c e → Good k c (f (a, e)))
    → Good k c (x >>= f)
then-Good m n k c d (ok (a, e)) f p q g = g a e (Past-trans m n (m + n) c d e (omega arith) p q)
then-Good m n k c d (parse_error message line column near) f p q g = tt
then-Good m n k c d out_of_range f p q g = tt

consume_loop-stops :
    (p : Bytes → Bool) (r : Bytes) (c : Cursor) → p r ≡ false → consume_loop p r c ≡ ([], c)
unfolding consume_loop
consume_loop-stops p [] c h = refl
consume_loop-stops p (x ∷ s) c h = rw h refl

pub consume-stops : (p : Bytes → Bool) (c : Cursor) → p c.rest ≡ false → consume p c ≡ ([], c)
unfolding consume
consume-stops p c h = consume_loop-stops p c.rest c h
