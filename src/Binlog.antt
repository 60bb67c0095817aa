-- ===== src/Binlog.antt =====
-- The binlog engine of the agent (internal/binlog).
pub mod Types
pub mod Library
pub mod Transaction
pub mod Filter
pub mod Engine
pub mod Files
mod Tests
