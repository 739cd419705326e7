-- ===== src/Term/Tag.antt =====
-- The runtime tag and the annotation that it stands for.
use sql2rdf.Base.{true, not, ◌≡◌, sym, ap, ◌∙◌, arith, is_empty, equal_iff}
use sql2rdf.Term.{TermInfo, is_fully_determined, encode_tag, decode_tag}
use sql2rdf.Term.Xsd.{rdf_lang_string}
use sql2rdf.Term.Lattice.{IsWellFormed}

-- A tag is empty exactly for an annotation that is not fully determined.
is_empty-encode_tag : (i : TermInfo) → is_empty (encode_tag i) ≡ not (is_fully_determined i)
unfolding encode_tag
is_empty-encode_tag i = ground arith

-- The tag of a fully determined annotation decodes to that annotation.
pub decode_tag-encode_tag :
    (i : TermInfo) → IsWellFormed i → is_fully_determined i ≡ true → decode_tag (encode_tag i) ≡ i
unfolding encode_tag decode_tag
decode_tag-encode_tag i w h = ground (arith, equal_iff i.datatype_iri rdf_lang_string)

-- Two fully determined annotations with one tag are equal.
pub encode_tag-injective :
    (i j : TermInfo)
    → IsWellFormed i
    → IsWellFormed j
    → is_fully_determined i ≡ true
    → is_fully_determined j ≡ true
    → encode_tag i ≡ encode_tag j
    → i ≡ j
encode_tag-injective i j w v h k e =
    sym (decode_tag-encode_tag i w h) ∙ ap decode_tag e ∙ decode_tag-encode_tag j v k
