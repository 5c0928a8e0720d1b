-- ===== src/Table.antt =====
-- components/CustomTable.tsx, one child for each concern.
pub mod State
pub mod Events
pub mod Schedule
pub mod Selection
pub mod Row
pub mod View
