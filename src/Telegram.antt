-- ===== src/Telegram.antt =====
-- controller/internal/telegram.
pub mod Chunk
pub mod Users
mod Tests
