-- ===== src/Projects.antt =====
-- controller/internal/projects: the projects in Valkey's hash and their runs in lists.
pub mod Records
pub mod Edit
pub mod Schedule
pub mod Execution
pub mod Invariant
pub mod Tests
