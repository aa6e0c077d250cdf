-- ===== src/Jobs.antt =====
-- controller/internal/jobs.
pub mod Selector
pub mod Envelope
pub mod Store
pub mod Exec
pub mod Manager
mod Tests
