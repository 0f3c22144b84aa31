-- ===== src/Query.antt =====
-- src/query.cc: escaping and building of query text, and the rows of a result.
pub mod Escape
pub mod EscapeLaws
pub mod Decimal
pub mod Build
pub mod BuildLaws
pub mod Rows
pub mod RowLaws
pub mod Buffered
pub mod Run
pub mod BufferLaws
