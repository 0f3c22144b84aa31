-- ===== src/Statement.antt =====
-- src/statement.cc and src/statement_getset.cc: prepared statements, their parameters and rows.
pub mod Types
pub mod Params
pub mod Pack
pub mod Writes
pub mod PackLaws
pub mod Laid
pub mod PacketLaws
pub mod HeadLaws
pub mod ExecuteLaws
pub mod Run
pub mod Commands
pub mod ParamLaws
pub mod Row
pub mod Getters
pub mod Texts
pub mod RowLaws
pub mod GetterLaws
pub mod TextLaws
