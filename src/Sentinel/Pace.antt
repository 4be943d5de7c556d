-- ===== src/Sentinel/Pace.antt =====
-- What the cadence estimate guarantees: its reference point, its sample count and the stall test.
use forktower.Common.{
  true, List, [], ◌∷◌, All, ◌≡◌, refl, sym, ap, subst, ◌∙◌, ℤ, pos, ◌≤ℤ◌, ◌<ℤ◌, sub64, sub64_parts,
  Fits, half64, Float64, arith,
}
use forktower.Sentinel.Cadence.{
  Cadence, max_int64, observe, stalled, effective_factor, expected_interval, quot, second,
}

module _ (F : Float64) where
  open F use {Carrier, of_int, below}

  pub observe-last :
      (c : Cadence F) (t : ℤ)
      → pos 0 ≤ℤ c.last_block_time
      → pos 0 <ℤ t
      → (observe F c t).last_block_time ≡ max_int64 c.last_block_time t
  unfolding observe
  observe-last c t p q = ground arith

  -- The state after a sequence of header timestamps.
  unfoldable pub observe_all : Cadence F → List ℤ → Cadence F
  observe_all c [] = c
  observe_all c (t ∷ ts) = observe_all (observe F c t) ts

  unfoldable pub latest : ℤ → List ℤ → ℤ
  latest best [] = best
  latest best (t ∷ ts) = latest (max_int64 best t) ts

  max_int64-nonneg : (a b : ℤ) → pos 0 ≤ℤ a → pos 0 ≤ℤ max_int64 a b
  unfolding max_int64
  max_int64-nonneg a b h = ground arith

  observe_all-latest :
      (c : Cadence F) (ts : List ℤ)
      → pos 0 ≤ℤ c.last_block_time
      → All (λ t. pos 0 <ℤ t) ts
      → (observe_all c ts).last_block_time ≡ latest c.last_block_time ts
  unfolding observe_all latest
  observe_all-latest c [] p h = refl
  observe_all-latest c (t ∷ ts) p h =
      let e = observe-last c t p h.0 in
      observe_all-latest (observe F c t) ts
        (subst (λ x. pos 0 ≤ℤ x) (sym e) (max_int64-nonneg c.last_block_time t p)) h.1
      ∙ ap (λ x. latest x ts) e

  max_int64-le : (a b : ℤ) → (a ≤ℤ max_int64 a b) × (b ≤ℤ max_int64 a b)
  unfolding max_int64
  max_int64-le a b = ground arith

  latest-bound :
      (best : ℤ) (ts : List ℤ) → (best ≤ℤ latest best ts) × All (λ t. t ≤ℤ latest best ts) ts
  unfolding latest
  latest-bound best [] = (omega arith, tt {0})
  latest-bound best (t ∷ ts) =
      let (a, b) = latest-bound (max_int64 best t) ts in
      (omega (arith, max_int64-le best t), (omega (arith, max_int64-le best t), b))

  -- After any list of positive header times the time of the last block of a cadence is not before
  -- the one it started with, which is not negative, nor before any of the list.
  pub observe_all-bound :
      (c : Cadence F) (ts : List ℤ)
      → pos 0 ≤ℤ c.last_block_time
      → All (λ t. pos 0 <ℤ t) ts
      → (c.last_block_time ≤ℤ (observe_all c ts).last_block_time)
        × All (λ t. t ≤ℤ (observe_all c ts).last_block_time) ts
  observe_all-bound c ts p h = rw (observe_all-latest c ts p h) (latest-bound c.last_block_time ts)

  -- A chain that has stalled is stalled at every later int64 time with the same last block, if the
  -- comparison of floats is monotone in the converted integer.
  pub stalled_later :
      (c : Cadence F) (now later last_block_at : ℤ) (factor : Carrier)
      → ((x : Carrier) (a b : ℤ) → a ≤ℤ b → below x (of_int a) ≡ true → below x (of_int b) ≡ true)
      → Fits half64 later
      → now ≤ℤ later
      → stalled F c now last_block_at factor ≡ true
      → stalled F c later last_block_at factor ≡ true
  unfolding stalled
  stalled_later c now later last factor mono fits h e = ground (
    arith,
    mono (F.times (of_int (quot (expected_interval F c) second)) (effective_factor F factor))
        (sub64 now last) (sub64 later last),
    sub64_parts now last,
    sub64_parts later last,
  )
