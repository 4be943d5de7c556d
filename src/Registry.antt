-- ===== src/Registry.antt =====
-- internal/registry: which channels are exposed on the other chain.
pub mod Relevance
pub mod ShortId
pub mod Merge
pub mod Apply
pub mod Sources
pub mod Polled
pub mod Written
pub mod Lasting
pub mod Shared
pub mod Exposure
mod Tests
