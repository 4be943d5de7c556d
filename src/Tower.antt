-- ===== src/Tower.antt =====
-- internal/responder/tower: whether a watchtower covers a channel.
pub mod Coverage
pub mod Covered
mod Tests
