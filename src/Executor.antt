-- ===== src/Executor.antt =====
-- The executor of the agent (internal/executor): it runs a plan of reverse SQL in batches, with a
-- checkpoint after each committed batch.
pub mod Types
pub mod Store
pub mod Files
pub mod Run
