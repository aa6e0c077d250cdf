-- ===== src/Agent.antt =====
-- controller/internal/agent.
pub mod Budget
pub mod Tests
