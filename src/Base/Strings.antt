-- ===== src/Base/Strings.antt =====
-- `std::string` as a list of bytes, with the members of it that the program calls. A position in
-- a string is modelled by the suffix that begins there.
use Prim.Native.Nat.{ℕ, zero, suc}
use Prim.Native.Char.{code}
use Prim.Native.String.{String}
use mathlib.Core.Path.{◌≡◌, refl}
use mathlib.Core.Logic.{◌↔◌, inl, inr, ◌≢◌}
use mathlib.Core.Bool.{Bool, true, false, ◌&&◌, ◌||◌}
use mathlib.Core.Option.{Option, none, some}
use mathlib.Core.List.{List, [], ◌∷◌, ◌++◌}
use native.Mathlib.Omega.{arith}
use sql2rdf.Base.Tests.{◌==◌, if◌then◌else◌, Bool-cases}
use sql2rdf.Base.Lists.{length, drop}

abbrev pub Bytes : Type 0
Bytes = List ℕ

-- The code points of a literal: its bytes, since every literal here is ASCII.
abbrev pub codes : String → Bytes
codes String.[] = []
codes (String.◌∷◌ c s) = code c ∷ codes s

-- `a == b` on strings.
unfoldable pub equal : Bytes → Bytes → Bool
equal [] [] = true
equal (x ∷ a) (y ∷ b) = x == y && equal a b
equal _ _ = false

-- `s.compare(pos, t.size(), t) == 0`, with `s` cut at `pos`.
unfoldable pub starts_with : Bytes → Bytes → Bool
starts_with s [] = true
starts_with [] (y ∷ t) = false
starts_with (x ∷ s) (y ∷ t) = x == y && starts_with s t

-- `s.find(c)` for one byte.
unfoldable pub find_byte : ℕ → Bytes → Option ℕ
find_byte c [] = none
find_byte c (x ∷ s) =
    if x == c then some 0 else elim (find_byte c s) [ none ↦ none | some k ↦ some (suc k) ]

-- `s.find(t)`.
unfoldable pub find : Bytes → Bytes → Option ℕ
find t [] = if starts_with [] t then some 0 else none
find t (x ∷ s) =
    if starts_with (x ∷ s) t
    then some 0
    else elim (find t s) [ none ↦ none | some k ↦ some (suc k) ]

-- Whether a byte occurs.
unfoldable pub contains : Bytes → ℕ → Bool
contains [] c = false
contains (x ∷ s) c = x == c || contains s c

pub equal_iff : (s t : Bytes) → (equal s t ≡ true) ↔ (s ≡ t)
unfolding equal
equal_iff [] _ = ground arith
equal_iff (_ ∷ _) [] = ground arith
equal_iff (c ∷ s) (d ∷ t) = ground (arith, equal_iff s t)

pub equal_refl : (a : Bytes) → equal a a ≡ true
equal_refl a = (equal_iff a a).1 refl

pub equal_comm : (a b : Bytes) → equal a b ≡ equal b a
equal_comm a b = ground (arith, equal_iff a b, equal_iff b a)

pub equal-ne : (a b : Bytes) → equal a b ≡ false → a ≢ b
equal-ne a b h e = ground (arith, equal_iff a b)

pub starts_with-append : (t s : Bytes) → starts_with (t ++ s) t ≡ true
unfolding starts_with
starts_with-append [] s = refl
starts_with-append (y ∷ t) s = ground (arith, starts_with-append t s)

-- A prefix test that passes gives the suffix behind the prefix.
pub starts_with→append : (s t : Bytes) → starts_with s t ≡ true → s ≡ t ++ drop (length t) s
unfolding starts_with
starts_with→append s [] h = refl
starts_with→append [] (y ∷ t) h = cc
starts_with→append (x ∷ s) (y ∷ t) h = ground (arith, starts_with→append s t)

-- A search that succeeds splits the text at an occurrence.
pub find→append : (t s : Bytes) (k : ℕ) → find t s ≡ some k → starts_with (drop k s) t ≡ true
unfolding find
find→append t [] k h = elim (Bool-cases (starts_with [] t)) [
  | inl e ↦ ground arith
  | inr e ↦ ground arith
]
find→append t (x ∷ s) zero h = ground arith
find→append t (x ∷ s) (suc k) h = ground (arith, find→append t s k)

-- A delimiter whose first byte does not occur in `v` is found right behind `v`.
pub find-append :
    (c : ℕ) (t v s : Bytes)
    → contains v c ≡ false
    → find (c ∷ t) (v ++ ((c ∷ t) ++ s)) ≡ some (length v)
unfolding find contains starts_with
find-append c t [] s h = ground (arith, starts_with-append t s)
find-append c t (x ∷ v) s h = ground (arith, find-append c t v s)
