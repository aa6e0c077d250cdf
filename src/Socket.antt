-- ===== src/Socket.antt =====
-- controller/internal/ws: the websocket frames, the loop that reads them, and the hub.
pub mod Bytes
pub mod Frame
pub mod Loop
pub mod Hub
pub mod Tests
