-- ===== src/Tests.antt =====
-- Runs of the model on concrete inputs, and the theorems at inputs that meet their hypotheses.
mod Templates
mod Terms
mod Expressions
mod Catalogs
mod Graphs
mod Lexers
mod Generation
mod Documents
mod Queries
mod Printers
