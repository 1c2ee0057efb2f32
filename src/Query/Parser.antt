-- ===== src/Query/Parser.antt =====
-- The parser of queries of query-parser/src/parser.rs.
pub mod Text
pub mod Nom
pub mod Grammar
pub mod Ended
pub mod Primitives
pub mod Termination
pub mod Printer
pub mod Steps
pub mod Lists
pub mod Words
pub mod Follows
pub mod Factors
pub mod Expressions
pub mod RoundTrip
pub mod Samples
mod Tests
