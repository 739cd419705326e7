-- ===== src/Parser/Numbers.antt =====
-- `std::to_string` and `std::strtol`, as src/sparql-parser/Parser.cpp calls them.
use sql2rdf.Base.{ℕ, zero, suc, ◌+◌, ◌-◌, ◌*◌, ◌/◌, ◌%◌, [], ◌∷◌, if◌then◌else◌, ◌==◌, ltb, Bytes}
use sql2rdf.Lexer.Scan.{is_digit}
use sql2rdf.Ast.{ℤ, pos, negsuc}

-- The digits in front of `acc`; one more round than the number's value is more than enough.
unfoldable pub digits_loop : ℕ → ℕ → Bytes → Bytes
digits_loop zero n acc = acc
digits_loop (suc fuel) n acc =
    let more = digits_loop fuel (n / 10) ((b'0' + n % 10) ∷ acc) in
    if ltb n 10 then (b'0' + n) ∷ acc else more

unfoldable pub to_string : ℕ → Bytes
unfolding digits_loop
to_string n = digits_loop (suc n) n []

-- The value of the digits that a text begins with.
unfoldable pub digits_value : ℕ → Bytes → ℕ
digits_value acc [] = acc
digits_value acc (c ∷ s) =
    let more = digits_value (acc * 10 + (c - b'0')) s in if is_digit c then more else acc

abbrev pub long_max : ℕ
long_max = 9223372036854775807

-- The nearest value of `long`.
unfoldable pub clamp_positive : ℕ → ℤ
clamp_positive n = pos (if ltb long_max n then long_max else n)

unfoldable pub clamp_negative : ℕ → ℤ
clamp_negative zero = pos 0
clamp_negative (suc n) = negsuc (if ltb long_max n then long_max else n)

unfoldable pub strtol : Bytes → ℤ
unfolding digits_value clamp_positive clamp_negative
strtol [] = pos 0
strtol (c ∷ s) =
    if c == b'-'
    then clamp_negative (digits_value 0 s)
    else if c == b'+'
    then clamp_positive (digits_value 0 s)
    else clamp_positive (digits_value 0 (c ∷ s))
