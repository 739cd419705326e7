-- ===== src/Term.antt =====
-- What is known of a column's RDF term, include/sparql2sql/TermInfo.h and
-- src/sparql2sql/TermInfo.cpp: the annotation, its runtime tag, and the meet of two annotations.
pub mod Xsd
pub mod Lattice
pub mod Tag
use sql2rdf.Base.{
  ℕ, Bool, true, false, not, ◌&&◌, ◌||◌, List, [], ◌∷◌, ◌==◌, if◌then◌else◌, is_empty, Bytes, codes,
  equal,
}
use Xsd
use Xsd.{rdf_lang_string}

pub data RdfTermKind : Type 0 where
  unknown iri blank_node literal : RdfTermKind

abbrev pub kind_eq : RdfTermKind → RdfTermKind → Bool
kind_eq unknown unknown = true
kind_eq iri iri = true
kind_eq blank_node blank_node = true
kind_eq literal literal = true
kind_eq _ _ = false

pub record TermInfo : Type 0 where
  pub kind : RdfTermKind
  pub datatype_iri : Bytes
  pub lang : Bytes
  pub maybe_lang_tagged : Bool
  pub degraded : Bool

-- `TermInfo()`.
abbrev pub default : TermInfo
default = record {
  kind = unknown;
  datatype_iri = [];
  lang = [];
  maybe_lang_tagged = false;
  degraded = false;
}

unfoldable pub is_numeric : TermInfo → Bool
is_numeric i = kind_eq i.kind literal && Xsd.is_numeric_iri i.datatype_iri

unfoldable pub is_integral : TermInfo → Bool
is_integral i = kind_eq i.kind literal && Xsd.is_integral_iri i.datatype_iri

unfoldable pub is_temporal : TermInfo → Bool
is_temporal i = kind_eq i.kind literal && Xsd.is_temporal_iri i.datatype_iri

unfoldable pub is_stringy : TermInfo → Bool
is_stringy i =
    kind_eq i.kind literal
    && (equal i.datatype_iri Xsd.string || equal i.datatype_iri rdf_lang_string)

-- The part of `isFullyDetermined` behind the switch, for a literal.
literal_determined : TermInfo → Bool
literal_determined i =
    if not (is_empty i.lang)
    then true
    else if equal i.datatype_iri rdf_lang_string
    then false
    else if not (is_empty i.datatype_iri)
    then true
    else not i.maybe_lang_tagged

unfoldable pub is_fully_determined : TermInfo → Bool
unfolding literal_determined
is_fully_determined i = if i.degraded then false else elim i.kind [
  | unknown ↦ false
  | iri ↦ true
  | blank_node ↦ true
  | literal ↦ literal_determined i
]

abbrev pub tag_iri : Bytes
tag_iri = b'I' ∷ []

abbrev pub tag_blank_node : Bytes
tag_blank_node = b'B' ∷ []

abbrev pub tag_literal_untyped : Bytes
tag_literal_untyped = b'L' ∷ []

literal_tag : TermInfo → Bytes
literal_tag i =
    if not (is_empty i.lang)
    then b'@' ∷ i.lang
    else if not (is_empty i.datatype_iri)
    then b'D' ∷ i.datatype_iri
    else tag_literal_untyped

unfoldable pub encode_tag : TermInfo → Bytes
unfolding is_fully_determined literal_tag
encode_tag i = if not (is_fully_determined i) then [] else elim i.kind [
  | iri ↦ tag_iri
  | blank_node ↦ tag_blank_node
  | unknown ↦ []
  | literal ↦ literal_tag i
]

-- The tests on `tag[0]`, behind those for the three whole tags.
decode_prefix : ℕ → Bytes → TermInfo
decode_prefix c rest =
    if c == b'@'
    then record default {
      kind = literal;
      lang = rest;
      datatype_iri = rdf_lang_string;
      maybe_lang_tagged = true;
    }
    else if c == b'D'
    then record default { kind = literal; datatype_iri = rest }
    else default

unfoldable pub decode_tag : Bytes → TermInfo
unfolding decode_prefix equal
decode_tag [] = default
decode_tag (c ∷ rest) =
    if equal (c ∷ rest) tag_iri
    then record default { kind = iri }
    else if equal (c ∷ rest) tag_blank_node
    then record default { kind = blank_node }
    else if equal (c ∷ rest) tag_literal_untyped
    then record default { kind = literal }
    else decode_prefix c rest

-- The record sticky in every result: something below disagreed.
unfoldable pub disagree : TermInfo → TermInfo → Bool
disagree a b =
    a.degraded
    || (b.degraded
        || (not (kind_eq a.kind b.kind)
            || (not (equal a.datatype_iri b.datatype_iri) || not (equal a.lang b.lang))))

unfoldable pub meet : TermInfo → TermInfo → TermInfo
unfolding disagree
meet a b =
    let out = record default { degraded = disagree a b } in
    let kind = if kind_eq a.kind b.kind then a.kind else unknown in
    if kind_eq kind unknown then out else record out {
      kind = kind;
      datatype_iri = if equal a.datatype_iri b.datatype_iri then a.datatype_iri else [];
      lang = if equal a.lang b.lang then a.lang else [];
      maybe_lang_tagged = a.maybe_lang_tagged || b.maybe_lang_tagged;
    }
