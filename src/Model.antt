-- ===== src/Model.antt =====
-- src/model/: rows and their encoding.
pub mod EncodedRow
pub mod Row
pub mod Value
pub mod Write
pub mod Read
pub mod Frame
