-- ===== src/Registry/Exposure.antt =====
-- internal/registry/relevance.go: when a channel counts as not exposed.
use forktower.Common.{true, false, ◌≡◌, ◌↔◌, ◌⊎◌, inl, inr, pos, ◌≤ℤ◌, ◌<ℤ◌, arith}
use forktower.Store.Types.{irrelevant}
use forktower.Registry.Relevance.{Facts, classify}

-- The channel's funding output is not to be found unspent on the other chain: its close confirmed
-- in history that both chains share, or it was funded above the separation on one chain only.
pub data Safe (f : Facts) : Type 0 where
  closed_on_both : pos 0 <ℤ f.close_height → f.close_height ≤ℤ f.fork_height → Safe f
  never_funded_there :
      pos 0 <ℤ f.open_height
      → f.fork_height <ℤ f.open_height
      → f.funding_seen_on_sq ≡ false
      → Safe f

irrelevant-cases :
    (f : Facts)
    → (classify f).0 ≡ irrelevant
    → (f.fork_known ≡ true)
      × ((pos 0 <ℤ f.close_height) × (f.close_height ≤ℤ f.fork_height)
          ⊎ (pos 0 <ℤ f.open_height)
            × (f.fork_height <ℤ f.open_height)
            × (f.funding_seen_on_sq ≡ false))
unfolding classify
irrelevant-cases f h = ground arith

irrelevant-Safe : (f : Facts) → (classify f).0 ≡ irrelevant → (f.fork_known ≡ true) × Safe f
irrelevant-Safe f h =
    let (known, why) = irrelevant-cases f h in
    (known, elim why [ inl (p, q) ↦ closed_on_both p q | inr (p, q, r) ↦ never_funded_there p q r ])

Safe-irrelevant : (f : Facts) → f.fork_known ≡ true → Safe f → (classify f).0 ≡ irrelevant
unfolding classify
Safe-irrelevant f k (closed_on_both p q) = ground arith
Safe-irrelevant f k (never_funded_there p q r) = ground arith

-- A channel is classified as irrelevant exactly if the fork height is known and the channel closed
-- at a positive height not above the fork, or was funded above the fork and its funding was not
-- seen on the other chain.
pub irrelevant_iff : (f : Facts) → ((classify f).0 ≡ irrelevant) ↔ ((f.fork_known ≡ true) × Safe f)
irrelevant_iff f = (irrelevant-Safe f, λ e. Safe-irrelevant f e.0 e.1)
