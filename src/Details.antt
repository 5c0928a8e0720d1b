-- ===== src/Details.antt =====
-- pages/ArtifactDetails.tsx and pages/ExecutionDetails.tsx.
pub mod Events
pub mod Artifact
pub mod Execution
pub mod Section
pub mod View
