-- ===== src/Api.antt =====
-- internal/api: what the dashboard says.
pub mod Headline
pub mod Calm
mod Tests
