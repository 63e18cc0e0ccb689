-- ===== src/ResultSet.antt =====
-- src/pysqlbridge/tds/result.py: describing and encoding a result set.
pub mod Types
pub mod Rows
pub mod Answer
pub mod Client
pub mod Cells
pub mod Carried
pub mod Values
pub mod Read
pub mod Shape
pub mod Items
pub mod Tokens
pub mod Whole
pub mod Stream
pub mod Empty
pub mod Many
mod Tests
