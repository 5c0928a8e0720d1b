-- ===== src/Widgets.antt =====
-- The smaller components under frontend/src/components and frontend/src/atoms.
pub mod Toolbar
pub mod Banner
pub mod Tabs
pub mod Info
pub mod Atoms
pub mod ModelInfo
