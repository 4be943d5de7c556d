-- ===== src/ChainView.antt =====
-- internal/chainview: the vocabulary that the two chain views share, and their verification.
pub mod Types
pub mod Verify
pub mod Branches
pub mod Samples
mod Tests
