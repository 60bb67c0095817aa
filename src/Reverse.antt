-- ===== src/Reverse.antt =====
-- The reverse-SQL generator of the agent (internal/reverse).
pub mod Types
pub mod Literal
pub mod Where
pub mod Generate
mod Tests
