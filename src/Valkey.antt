-- ===== src/Valkey.antt =====
-- controller/internal/valkey: the client of the RESP2 protocol. Texts are lists of bytes here.
pub mod Reply
pub mod Client
pub mod Tests
