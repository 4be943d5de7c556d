-- ===== src/Deadline.antt =====
-- internal/deadline: the clocks that a confirmed commitment starts.
pub mod Compute
pub mod Engine
pub mod Handlers
pub mod Events
pub mod Lasting
pub mod Handling
pub mod Justified
pub mod Payments
pub mod Clocks
pub mod Escalation
mod Tests
mod EngineTests
