-- ===== src/Sentinel/Cadence.antt =====
-- internal/sentinel/cadence.go: the running estimate of a chain's block interval. Floating point
-- is a parameter; durations are int64 nanoseconds.
use forktower.Common.{
  ℕ, ◌+◌, ◌/◌, Bool, false, ◌||◌, ℤ, pos, negsuc, ltb_ℤ, leb_ℤ, eqb_ℤ, sub64, add64, negate,
  Float64, if◌then◌else◌,
}

-- nominalInterval and cadenceMaxInterval, in seconds.
abbrev pub nominal_secs : ℕ
nominal_secs = 600

abbrev pub max_interval_secs : ℕ
max_interval_secs = 86400

-- time.Second, in nanoseconds.
abbrev pub second : ℕ
second = 1000000000

-- Go's integer division, by a positive number: it truncates towards zero.
unfoldable pub quot : ℤ → ℕ → ℤ
quot (pos n) d = pos (n / d)
quot (negsuc n) d = let q = (n + 1) / d in negate q

-- maxInt64
unfoldable pub max_int64 : ℤ → ℤ → ℤ
max_int64 a b = if ltb_ℤ b a then a else b

module _ (F : Float64) where
  open F use {Carrier, of_int, ratio, plus, times, larger, below, to_int}

  pub record Cadence : Type 0 where
    pub interval_secs : Carrier
    pub last_block_time : ℤ
    pub samples : ℤ

  unfoldable pub new_cadence : Cadence
  new_cadence = record { interval_secs = ratio 600 1; last_block_time = pos 0; samples = pos 0 }

  -- `Measured`
  unfoldable pub measured : Cadence → Bool
  measured c = ltb_ℤ (pos 0) c.samples

  -- The interval is cut to a day before it is folded in with weight 3/10.
  unfoldable pub fold_interval : Cadence → ℤ → Carrier
  fold_interval c header_time =
      let raw = of_int (sub64 header_time c.last_block_time) in
      let interval = if below (ratio 86400 1) raw then ratio 86400 1 else raw in
      plus (times (ratio 3 10) interval) (times (ratio 7 10) c.interval_secs)

  -- `Observe`
  unfoldable pub observe : Cadence → ℤ → Cadence
  unfolding fold_interval max_int64
  observe c header_time =
      if eqb_ℤ c.last_block_time (pos 0)
      then record c { last_block_time = header_time }
      else if leb_ℤ header_time c.last_block_time
      then if ltb_ℤ (pos 0) header_time
        then record c { last_block_time = max_int64 c.last_block_time header_time }
        else c
      else record c {
        interval_secs = fold_interval c header_time;
        last_block_time = header_time;
        samples = add64 c.samples (pos 1);
      }

  -- `ExpectedInterval`, a duration in nanoseconds.
  unfoldable pub expected_interval : Cadence → ℤ
  expected_interval c = to_int (times (larger c.interval_secs (ratio 600 1)) (ratio 1000000000 1))

  -- The stall factor, or the default of 6 where it is not positive.
  unfoldable pub effective_factor : Carrier → Carrier
  effective_factor factor = if below (ratio 0 1) factor then factor else ratio 6 1

  -- `Stalled`
  unfoldable pub stalled : Cadence → ℤ → ℤ → Carrier → Bool
  unfolding effective_factor
  stalled c now last_block_at factor =
      if leb_ℤ last_block_at (pos 0) || leb_ℤ now last_block_at
      then false
      else let threshold =
          times (of_int (quot (expected_interval c) second)) (effective_factor factor) in
        below threshold (of_int (sub64 now last_block_at))
