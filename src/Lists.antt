-- ===== src/Lists.antt =====
-- The two list pages: how their rows are made, and their state.
pub mod Rows
pub mod Expand
pub mod View
pub mod Artifacts
pub mod Executions
