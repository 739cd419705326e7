-- ===== src/Lib.antt =====
-- Verification of sql2rdf: the parts of the program that decide which RDF terms rows of a database
-- stand for, and which SQL a SPARQL query over those terms becomes.
--
-- The program
--   R2RML mappings (src/r2rml) turn the rows of logical tables into RDF statements. A template term
--   map expands `{COLUMN}` placeholders, percent-encoding the values for an IRI. A mapping is built
--   from the triples of an R2RML document. Queries are tokenized and parsed by src/sparql-parser. The
--   SPARQL translator (src/sparql2sql) works against the same mappings: it parses the templates again,
--   inverts them on the constants of a query to find conditions on columns, prunes pairs of
--   templates that never make equal terms, keeps for every column what is known of its term (kind,
--   datatype, language), splits filters into conjuncts, and writes SQL through a dialect.
--
-- Files
--   Base.antt and Base/: tests on numbers, lists and byte strings that all parts share. A
--   `std::string` is a list of bytes (`Bytes`); an index into a string is the suffix that is left.
--   Percent.antt: AbstractMap::percentEncode (src/r2rml/AbstractMap.cpp), percentDecode
--   (src/sparql2sql/TemplateUtil.cpp). Percent/RoundTrip and Percent/Alphabet hold the proofs.
--   Node.antt: TermType (include/r2rml/TermMap.h) and the nodes handed to Serd.
--   Template.antt: TemplateSegment, parseTemplate, referencedColumns (TemplateUtil.cpp). The loop's
--   `i = end + 1` is a counter of bytes to skip, so that the loops are structural and need no fuel.
--     Template/Expand: TemplateTermMap::generateRDFTerm (src/r2rml/TemplateTermMap.cpp).
--     Template/Normal: the segment lists that parsing returns, and printing them.
--     Template/Invert, Template/Invert/Complete, Template/Ends: invertTemplate, startsWithAt.
--     Template/Anchors: templatesCanEverMatch and its two helpers.
--     Template/Flaws: templates with an unclosed brace, values that hold the delimiter.
--     Template/Shape and its children: sameTemplateShape.
--     Template/Projection: buildProjectionSql.
--   Term.antt, Term/Xsd: TermInfo, the tests on datatype IRIs, isFullyDetermined, encodeTag,
--   decodeTag, meet (src/sparql2sql/TermInfo.cpp); Term/Lattice and Term/Tag hold the proofs.
--   Expr.antt: the expression AST (include/sparql-parser/ast/Expression.h) and collectVarRefs,
--   containsExists, splitConjuncts (src/sparql2sql/ExprAnalysis.cpp); Expr/Conjuncts: proofs.
--     Expr/Infer, Expr/Infer/Sound: inferExprTermInfo and its helpers
--     (src/sparql2sql/TermInference.cpp), with the literal case of termInfoOfTerm (TermMapSql.cpp).
--   Dialect.antt: the SQL text of src/sparql2sql/DuckDbDialect.cpp; Dialect/Quote: its quoting.
--   Catalog.antt: src/sparql2sql/TypeCatalog.cpp; a map is the list of its entries in walking order.
--   Catalog/Laws: proofs.
--   NativeKey.antt: nativeKeyPairs (src/sparql2sql/ir/NativeKey.cpp), which uses the catalog and
--   sameTemplateShape; NativeKey/Sound: proofs.
--   Graph.antt: forEachGraphNode (src/r2rml/GraphMap.cpp), with the writer's callback as a function on
--   a state; Graph/Order: proofs.
--   SqlRow.antt: StringSQLValue, MapSQLRow, and ColumnTermMap and TermMap's computeDatatypeIRI
--   (src/r2rml/*.cpp of these names).
--   Lexer.antt and Lexer/: the tokenizer (src/sparql-parser/Lexer.cpp). Lexer/Cursor is its state and
--   its steps, an error is a value; Lexer/Scan, Names, Literals, Next are its functions. The loops run
--   down the bytes that are left and need no fuel, `skip` counts those that a round has taken.
--     Lexer/Escapes, Lexer/Escapes/RoundTrip: preprocessCodepointEscapes, in front of the tokenizer,
--     with its proofs.
--     Lexer/Progress and its children, Lexer/Strings: proofs. Lexer/Total: a client of `next`; its
--     fuel counts calls, and one more than there are bytes left is enough.
--   Mapping.antt: the objects of an R2RML mapping, their terms and their isValid (src/r2rml/*.cpp,
--   include/r2rml/*.h); the pointer to a parent triples map is its place in the mapping's list.
--   Generate.antt, Generate/Process: processDatabase, generateTriples, processRow, getJoinedRows, as a
--   run on the statements written so far. What the writer takes and how a query ends
--   (a result set, the null pointer, or an exception that nothing catches) are parameters.
--   A run in which a triples map is its own parent is followed up to the call that refills the buffer
--   its subject node points into.
--     Generate/Statements: a description of the statements of a database and of the queries that
--     fail in between, as a list; it is written for the proofs.
--     Generate/Keeps: what every step of a run keeps, a run keeps. Generate/Writing, Refinement,
--     Outcome, Every, Complete, Written, Joins, Subjects: proofs; the last is about a mapping from the
--     R2RML parser.
--   Build.antt, Build/Maps, Build/Document: the build phase of src/r2rml/R2RMLParser.cpp, from the
--   triples of a document to a mapping with its errors; Build/Subjects, Build/Parents and
--   its child: proofs. The parent pointers, which the source sets last, are set at once.
--   RelColumns.antt: column, meetColumns and meetAcrossArms of src/sparql2sql/ir/RelNode.cpp, with
--   their proofs.
--   Ast.antt: the syntax trees of queries (include/sparql-parser/ast).
--   Parser.antt and Parser/: the SPARQL parser, src/sparql-parser/Parser.cpp, ParserExpressions.cpp,
--   ParserGraphPatterns.cpp and ParserPaths.cpp, with the headers' Parser.h. A method is an action on
--   the cursor of the tokenizer, the current token, the prologue and the counter of blank nodes.
--     Parser/State: advance, check, matchType, expectType, error, and loops with a bound.
--     Parser/Iris, Literals, Paths, Builtins, Expressions, Operators, Numbers, Clone, Triples,
--     Patterns, Clauses, Queries: the methods, which take the recursive ones as a record of
--     Parser/Calls. Parser/Knot fills it, so many calls deep, and has parseString. A call is made
--     only behind a token that has been read, so that one call for each byte is enough.
--     Parser/Total and its children, Parser/Yields and its children, Parser/Clone/Same and
--     Parser/Prologue: proofs.
--   Printer.antt, Printer/Trees: src/sparql-parser/PrettyPrinter.cpp; Printer/Keywords: proofs.
--   Tests and Tests/: runs on concrete inputs.
--
-- Not modelled
--   Serd, DuckDB and the YAML library are called but not part of the repository: what the writer takes
--   and what a query gives are parameters, a node is what is handed to Serd, and the triples of a
--   document are where the R2RML parser starts. A node is a value: the buffer of the term map that it
--   points into is not modelled, except that Generate.antt marks where the subject's is refilled.
--   The values of a row are those of StringSQLValue; a value class of a connection that keeps the empty
--   datatypeIRI of SQLValue.h is not modelled. `expand` is the text of a template before it is handed to
--   Serd as a C string, which ends in front of the first NUL.
--   Patterns inside EXISTS are a parameter of the expression trees. limitOffsetClause prints signed
--   64-bit numbers and is left out. Of the parser, parseFile, which reads a file, is left out. YARRRML,
--   the translation of triple patterns and expressions to SQL, the optimizer with its renderer, and the
--   command line are not modelled.
pub mod Base
pub mod Ast
pub mod Parser
pub mod Printer
pub mod Percent
pub mod Node
pub mod Template
pub mod Term
pub mod SqlRow
pub mod Graph
pub mod Mapping
pub mod Generate
pub mod Build
pub mod Lexer
pub mod Dialect
pub mod Catalog
pub mod NativeKey
pub mod RelColumns
pub mod Expr
mod Tests
