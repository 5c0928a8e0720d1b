-- ===== src/Utils.antt =====
-- lib/Utils.tsx: one child for each group of functions.
pub mod Group
pub mod Compare
pub mod Filter
pub mod Messages
