-- ===== src/Tests.antt =====
-- Runs of the model on small inputs, and each theorem at an input where its hypotheses hold.
pub mod Table
pub mod Rows
pub mod Filters
pub mod Shell
pub mod Pages
pub mod Lists
pub mod Schedule
pub mod Views
pub mod Server
pub mod Service
pub mod Schemas
pub mod Watcher
pub mod Sdk
