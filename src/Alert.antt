-- ===== src/Alert.antt =====
-- internal/alert: what the user is told, and how urgently.
pub mod Policy
pub mod Alerter
pub mod Sweep
pub mod Urgency
mod Tests
