-- ===== src/Sentinel.antt =====
-- internal/sentinel: decides whether the two chains have separated.
pub mod Phase
pub mod Cadence
pub mod State
pub mod Track
pub mod Anchor
pub mod Decide
pub mod Kept
pub mod Transitions
pub mod Record
pub mod Effects
pub mod Agreement
pub mod Rejected
pub mod AnchorBounds
pub mod Candidates
pub mod LowestBase
pub mod AnchorCandidates
pub mod Clocks
pub mod Silence
pub mod Outage
pub mod Depths
pub mod Evidence
pub mod Pace
pub mod HeaderCache
pub mod ForkPoint
pub mod ForkWalk
pub mod ForkSearch
pub mod CacheLaws
mod Examples
mod Tests
mod EvidenceTests
mod SearchTests
