-- ===== src/Lexer.antt =====
-- The tokenizer of SPARQL, src/sparql-parser/Lexer.cpp. A loop runs down the bytes that are left,
-- beside the cursor; where a round takes more than one of them, `skip` counts the others.
pub mod Cursor
pub mod Token
pub mod Scan
pub mod Names
pub mod Literals
pub mod Next
pub mod Progress
pub mod Total
pub mod Strings
pub mod Escapes
