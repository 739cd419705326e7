-- ===== src/Term/Xsd.antt =====
-- The datatype IRIs of src/sparql2sql/TermInfo.cpp (namespace `xsd`, `kRdfLangString`), and the
-- tests on them. The constants stay shut: the proofs use only which of them a text equals.
use sql2rdf.Base.{Bool, ◌||◌, Bytes, codes, equal}

unfoldable pub integer : Bytes
integer = codes "http://www.w3.org/2001/XMLSchema#integer"

unfoldable pub decimal : Bytes
decimal = codes "http://www.w3.org/2001/XMLSchema#decimal"

unfoldable pub double : Bytes
double = codes "http://www.w3.org/2001/XMLSchema#double"

unfoldable pub float : Bytes
float = codes "http://www.w3.org/2001/XMLSchema#float"

unfoldable pub string : Bytes
string = codes "http://www.w3.org/2001/XMLSchema#string"

unfoldable pub boolean : Bytes
boolean = codes "http://www.w3.org/2001/XMLSchema#boolean"

unfoldable pub date_time : Bytes
date_time = codes "http://www.w3.org/2001/XMLSchema#dateTime"

unfoldable pub date : Bytes
date = codes "http://www.w3.org/2001/XMLSchema#date"

unfoldable pub time : Bytes
time = codes "http://www.w3.org/2001/XMLSchema#time"

unfoldable pub long : Bytes
long = codes "http://www.w3.org/2001/XMLSchema#long"

unfoldable pub int : Bytes
int = codes "http://www.w3.org/2001/XMLSchema#int"

unfoldable pub short : Bytes
short = codes "http://www.w3.org/2001/XMLSchema#short"

unfoldable pub byte : Bytes
byte = codes "http://www.w3.org/2001/XMLSchema#byte"

unfoldable pub hex_binary : Bytes
hex_binary = codes "http://www.w3.org/2001/XMLSchema#hexBinary"

unfoldable pub rdf_lang_string : Bytes
rdf_lang_string = codes "http://www.w3.org/1999/02/22-rdf-syntax-ns#langString"

unfoldable pub is_integral_iri : Bytes → Bool
is_integral_iri iri =
    equal iri integer || (equal iri long || (equal iri int || (equal iri short || equal iri byte)))

unfoldable pub is_numeric_iri : Bytes → Bool
is_numeric_iri iri =
    is_integral_iri iri || (equal iri decimal || (equal iri double || equal iri float))

unfoldable pub is_temporal_iri : Bytes → Bool
is_temporal_iri iri = equal iri date || equal iri date_time

unfoldable pub is_cast_iri : Bytes → Bool
is_cast_iri iri =
    is_numeric_iri iri || (equal iri string || (equal iri boolean || is_temporal_iri iri))
