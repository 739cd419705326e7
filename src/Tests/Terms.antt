-- ===== src/Tests/Terms.antt =====
-- Term annotations and quoting: TermInfo.cpp, DuckDbDialect.cpp.
use sql2rdf.Base.{
  List, [], ◌∷◌, Option, none, All, true, ◌++◌, some, codes, equal, ◌≡◌, refl, inl, inr,
}
use sql2rdf.Term
use sql2rdf.Term.{TermInfo, default, meet, disagree, is_fully_determined, encode_tag, decode_tag}
use sql2rdf.Term.Xsd
use sql2rdf.Term.Xsd.{rdf_lang_string}
use sql2rdf.RelColumns.{
  SchemaColumn, sources_of, meet_across_arms, HasTerm, meet_across_arms-HasTerm,
}
use sql2rdf.Term.Lattice.{IsWellFormed, meet_assoc, meet-determined}
use sql2rdf.Term.Tag.{decode_tag-encode_tag}
use sql2rdf.Dialect.{escape_and_wrap, string_literal}
use sql2rdf.Dialect.Quote.{read_quoted, read_quoted-escape_and_wrap}

abbrev integer_literal : TermInfo
integer_literal = record default { kind = Term.literal; datatype_iri = Xsd.integer }

abbrev english : TermInfo
english = record default {
  kind = Term.literal;
  datatype_iri = rdf_lang_string;
  lang = codes "en";
  maybe_lang_tagged = true;
}

integer_literal-IsWellFormed : IsWellFormed integer_literal
integer_literal-IsWellFormed = record {
  literal_only = inl refl;
  tagged = inl refl;
  sticky = inl refl;
}

english-IsWellFormed : IsWellFormed english
english-IsWellFormed = record {
  literal_only = inl refl;
  tagged = inr (refl, refl);
  sticky = inr (inr refl);
}

english_tag : encode_tag english ≡ codes "@en"
unfolding encode_tag
english_tag = refl

-- The two arms that disagree leave a literal without a datatype, and mark it.
meet_example :
    meet integer_literal english
    ≡ record default { kind = Term.literal; maybe_lang_tagged = true; degraded = true }
unfolding meet equal Xsd.integer rdf_lang_string
meet_example = refl

english_determined : is_fully_determined english ≡ true
unfolding is_fully_determined
english_determined = refl

abbrev arm : List SchemaColumn
arm = record { var = codes "v"; term = english } ∷ []

abbrev arms : List (Option (List SchemaColumn))
arms = some arm ∷ none ∷ some [] ∷ some arm ∷ []

arms_meet : meet_across_arms (codes "v") arms ≡ english
unfolding meet_across_arms rdf_lang_string
arms_meet = refl

english_arms : is_fully_determined (meet_across_arms (codes "v") arms) ≡ true
unfolding meet_across_arms is_fully_determined rdf_lang_string
english_arms = refl

meet_across_arms-HasTerm_example :
    All (HasTerm (meet_across_arms (codes "v") arms)) (sources_of (codes "v") arms)
meet_across_arms-HasTerm_example =
    meet_across_arms-HasTerm (codes "v") arms
      (unfold sources_of in (english-IsWellFormed, (tt, (tt, (english-IsWellFormed, tt)))))
      english_arms

meet_assoc_example :
    meet (meet english integer_literal) english ≡ meet english (meet integer_literal english)
meet_assoc_example =
    meet_assoc english integer_literal english english-IsWellFormed integer_literal-IsWellFormed
      english-IsWellFormed

english_met : is_fully_determined (meet english english) ≡ true
unfolding is_fully_determined meet equal rdf_lang_string
english_met = refl

meet-determined_example : (meet english english ≡ english) × (english ≡ english)
meet-determined_example =
    meet-determined english english english-IsWellFormed english-IsWellFormed english_met

decode_tag-encode_tag_example : decode_tag (encode_tag english) ≡ english
decode_tag-encode_tag_example =
    decode_tag-encode_tag english english-IsWellFormed english_determined

quoted_name : string_literal (codes "O'Neil") ≡ codes "'O''Neil'"
unfolding string_literal
quoted_name = refl

read_quoted-escape_and_wrap_example :
    read_quoted b'"' (escape_and_wrap (codes "a\"b") b'"' ++ codes ".x")
    ≡ some (codes "a\"b", codes ".x")
read_quoted-escape_and_wrap_example =
    read_quoted-escape_and_wrap b'"' (codes "a\"b") (codes ".x") refl
