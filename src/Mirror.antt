-- ===== src/Mirror.antt =====
-- internal/responder/mirror: which transactions should exist on both chains.
pub mod Policy
pub mod Allowlist
mod Tests
