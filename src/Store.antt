-- ===== src/Store.antt =====
-- internal/store: the vocabulary of the records that the decision logic reads.
pub mod Types
pub mod Deadlines
pub mod Upsert
pub mod Spends
pub mod SpendLaws
pub mod Alerts
