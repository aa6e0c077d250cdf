-- ===== src/Notifications.antt =====
-- controller/internal/notifications.
pub mod Ulid
pub mod Sanitize
pub mod Result
pub mod Detail
pub mod Validate
pub mod Store
pub mod Snapshot
pub mod Lifecycle
pub mod Service
mod Tests
