-- ===== src/Parser/Iris.antt =====
-- IRIs, variables and the prologue (src/sparql-parser/Parser.cpp). A `clone…` of an object that
-- nothing changes is the object itself.
use sql2rdf.Base.{
  ℕ, suc, ◌+◌, ◌-◌, Bool, true, false, ◌||◌, List, [], ◌∷◌, ◌++◌, Option, none, some, if◌then◌else◌,
  ◌==◌, ltb, equal, find, find_byte, take, drop, length, Bytes, codes,
}
use sql2rdf.Lexer.Token.{TokenType, Token}
use sql2rdf.Ast.{Iri, Var, PrefixDecl}
use sql2rdf.Parser.State.{
  Action, ◌>>=◌, ◌>>◌, pure, get, put_prologue, error, advance, check, check_keyword, if_current,
  current, expect, repeat, again, done,
}

-- `s.rfind(c)`.
unfoldable pub rfind_byte : ℕ → Bytes → Option ℕ
rfind_byte c [] = none
rfind_byte c (x ∷ s) =
    let later = rfind_byte c s in
    elim later [ some k ↦ some (suc k) | none ↦ if x == c then some 0 else none ]

-- Whether a `:` stands in front of every `/`.
unfoldable pub has_scheme : Option ℕ → Option ℕ → Bool
has_scheme none slash = false
has_scheme (some colon) none = true
has_scheme (some colon) (some slash) = ltb colon slash

-- `base.substr(0, base.find('/', schemeEnd + 3))`, where "://" stands at `schemeEnd`.
unfoldable pub authority : Option ℕ → Bytes → Option Bytes
authority none base = none
authority (some scheme_end) base = elim (find_byte b'/' (drop (scheme_end + 3) base)) [
  | none ↦ some base
  | some k ↦ some (take (scheme_end + 3 + k) base)
]

unfoldable pub directory : Bytes → Bytes
unfolding rfind_byte
directory base = elim (rfind_byte b'/' base) [ none ↦ base | some k ↦ take (k + 1) base ]

unfoldable pub resolve_against : Bytes → Bytes → Bytes
unfolding authority directory
resolve_against base [] = []
resolve_against base (c ∷ ref) =
    if c == b'/'
    then elim (authority (find (codes "://") base) base) [
      | none ↦ c ∷ ref
      | some prefix ↦ prefix ++ (c ∷ ref)
    ]
    else directory base ++ (c ∷ ref)

abbrev is_some {ℓ} : {A : Type ℓ} → Option A → Bool
is_some none = false
is_some (some _) = true

unfoldable pub resolve_relative_iri : Bytes → Bytes → Bytes
unfolding resolve_against has_scheme find find_byte
resolve_relative_iri base ref =
    if equal base [] || equal ref []
    then ref
    else if is_some (find (codes "://") ref)
    then ref
    else if has_scheme (find_byte b':' ref) (find_byte b'/' ref)
    then ref
    else resolve_against base ref

-- The IRI of a prefix in the list of declarations.
unfoldable pub prefix_iri : List PrefixDecl → Bytes → Option Bytes
prefix_iri [] prefix = none
prefix_iri (p ∷ prefixes) prefix =
    let rest = prefix_iri prefixes prefix in if equal p.prefix prefix then some p.iri else rest

unfoldable pub found_prefix : Bytes → Option Bytes → Action Bytes
found_prefix prefix none = error (codes "unknown prefix '" ++ (prefix ++ codes ":'"))
found_prefix prefix (some iri) = pure iri

unfoldable pub lookup_prefix : Bytes → Action Bytes
lookup_prefix prefix = do s ← get; found_prefix prefix (prefix_iri s.prologue.prefixes prefix)

-- The two halves of a prefixed name, around its first `:`.
unfoldable pub split_name : Bytes → Bytes × Bytes
split_name lexical_form = elim (find_byte b':' lexical_form) [
  | none ↦ (lexical_form, [])
  | some colon ↦ (take colon lexical_form, drop (colon + 1) lexical_form)
]

unfoldable pub resolve_iri_value : TokenType → Bytes → Action Bytes
resolve_iri_value TokenType.iriref lexical_form = do
  s ← get
  pure (resolve_relative_iri s.prologue.base_iri lexical_form)
resolve_iri_value _ lexical_form = do
  iri ← lookup_prefix (split_name lexical_form).0
  pure (iri ++ (split_name lexical_form).1)

abbrev pub make_iri : Bytes → Bytes → Iri
make_iri absolute_value lexical_form = record {
  value = absolute_value;
  lexical_form = lexical_form;
}

-- `check(PnameNs) || check(PnameLn)`, and with Iriref in front.
unfoldable pub is_pname : Token → Bool
is_pname t = check TokenType.pname_ns t || check TokenType.pname_ln t

unfoldable pub is_iri : Token → Bool
is_iri t = check TokenType.iriref t || is_pname t

unfoldable pub is_var : Token → Bool
is_var t = check TokenType.var1 t || check TokenType.var2 t

unfoldable pub parse_iri : Action Iri
parse_iri =
    if_current (check TokenType.iriref)
      (do
        t ← current
        value ← resolve_iri_value TokenType.iriref t.text
        advance
        pure (make_iri value (codes "<" ++ (t.text ++ codes ">"))))
      (if_current is_pname
        (do
          t ← current
          value ← resolve_iri_value t.type t.text
          advance
          pure (make_iri value t.text))
        (error (codes "expected an IRI or prefixed name")))

unfoldable pub parse_var : Action Var
parse_var =
    if_current is_var
      (do t ← current; advance; pure record { name = t.text; line = t.line; column = t.column })
      (error (codes "expected a variable"))

unfoldable pub parse_base_decl : Action (Unit {0})
parse_base_decl = do
  advance
  t ← expect TokenType.iriref "IRIREF after BASE"
  s ← get
  put_prologue (record s.prologue { base_iri = resolve_relative_iri s.prologue.base_iri t.text })

-- The loop over the declarations at hand, and `push_back` behind it.
unfoldable pub declare_prefix : PrefixDecl → List PrefixDecl → List PrefixDecl
declare_prefix decl [] = decl ∷ []
declare_prefix decl (p ∷ prefixes) =
    let rest = declare_prefix decl prefixes in
    if equal p.prefix decl.prefix then record p { iri = decl.iri } ∷ prefixes else p ∷ rest

unfoldable pub parse_prefix_decl : Action (Unit {0})
parse_prefix_decl = do
  advance
  ns ← expect TokenType.pname_ns "prefix (e.g. 'foaf:') after PREFIX"
  iri ← expect TokenType.iriref "IRIREF after PREFIX declaration"
  s ← get
  let base_iri = s.prologue.base_iri
  put_prologue (record s.prologue {
    prefixes =
        declare_prefix
          record {
            prefix = take (length ns.text - 1) ns.text;
            iri = resolve_relative_iri base_iri iri.text;
          }
          s.prologue.prefixes;
  })

unfoldable pub parse_prologue : ℕ → Action (Unit {0})
parse_prologue fuel =
    repeat fuel
      (λ _.
        if_current (check_keyword "BASE") (do parse_base_decl; pure (again tt))
          (if_current (check_keyword "PREFIX") (do parse_prefix_decl; pure (again tt))
            (pure (done tt))))
      tt
