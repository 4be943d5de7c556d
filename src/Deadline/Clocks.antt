-- ===== src/Deadline/Clocks.antt =====
-- What Compute and Earliest promise: no clock is left out, and the soonest one is picked.
use forktower.Common.{
  ℕ, suc, ◌+◌, true, false, Option, none, some, List, [], ◌∷◌, length, All, Any, ◌≡◌, refl, ◌⊎◌,
  inl, inr, ◌≢◌, ℤ, pos, pos_part, ◌≤ℤ◌, ◌<ℤ◌, add32, add32_parts, sub32_parts, Fits, half32, arith,
  Bool-cases, Option-cases, ◌-◌, sym, ◌∙◌,
}
use forktower.Store.Types.{commitment_ours, is_csv, HtlcSnapshot}
use forktower.Deadline.Compute.{
  Inputs, Computed, applicable_delay, compute_csv, htlc_kind, compute_htlc, compute_htlcs, compute,
  sooner, earliest_from, earliest, remaining,
}

-- How many of the payments point in a direction that is known.
unfoldable pub known_directions : List HtlcSnapshot → ℕ
known_directions [] = 0
known_directions (h ∷ hs) = elim (htlc_kind h.direction) [
  | none ↦ known_directions hs
  | some _ ↦ suc (known_directions hs)
]

length-compute_htlcs :
    (in' : Inputs) (hs : List HtlcSnapshot) → length (compute_htlcs in' hs) ≡ known_directions hs
unfolding compute_htlcs compute_htlc known_directions
length-compute_htlcs in' [] = refl
length-compute_htlcs in' (h ∷ hs) = ground (arith, length-compute_htlcs in' hs)

-- Compute returns one clock for the commitment and one for each payment in flight whose direction
-- is known.
pub length-compute : (in' : Inputs) → length (compute in') ≡ 1 + known_directions in'.htlcs
unfolding compute
length-compute in' = omega (arith, length-compute_htlcs in' in'.htlcs)

applicable_delay_range :
    (in' : Inputs) (d : ℤ) → applicable_delay in' ≡ some d → (pos 0 <ℤ d) × (d <ℤ pos 65536)
unfolding applicable_delay
applicable_delay_range in' d h = (ground arith, ground arith)

compute_csv-height :
    (in' : Inputs)
    → (d : ℤ) × ((compute_csv in').height ≡ add32 in'.confirm_height d)
      × (pos 0 <ℤ d)
      × (d <ℤ pos 65536)
unfolding compute_csv
compute_csv-height in' = elim (Option-cases (applicable_delay in')) [
  | inl e ↦ (pos 144, rw (e, compute_csv), omega arith, omega arith)
  | inr (d, e) ↦ (
    d,
    rw (e, compute_csv),
    (applicable_delay_range in' d e).0,
    (applicable_delay_range in' d e).1,
  )
]

-- The clock of a commitment that confirmed at a height from 0 to below 2^31 - 2^16 runs out above
-- that height, whatever the delays say.
pub compute_csv_ahead :
    (in' : Inputs)
    → pos 0 ≤ℤ in'.confirm_height
    → in'.confirm_height <ℤ pos 2147418112
    → in'.confirm_height <ℤ (compute_csv in').height
compute_csv_ahead in' p q =
    let (d, e, lo, hi) = compute_csv-height in' in
    rw e (ground (arith, add32_parts in'.confirm_height d))

-- Whose delay counts: the other one can be anything.
pub compute_csv_own :
    (in' : Inputs) (d : Option ℤ)
    → in'.shape ≡ commitment_ours
    → compute_csv (record in' { csv_delay_remote = d }) ≡ compute_csv in'
unfolding compute_csv applicable_delay
compute_csv_own in' d e = ground arith

pub compute_csv_theirs :
    (in' : Inputs) (d : Option ℤ)
    → in'.shape ≢ commitment_ours
    → compute_csv (record in' { csv_delay_local = d }) ≡ compute_csv in'
unfolding compute_csv applicable_delay
compute_csv_theirs in' d e = ground arith

-- At the height of `c`, the clock `b` is not the worse choice.
abbrev pub Beats : Computed → Computed → Type 0
Beats b c = (is_csv c.kind ≡ false) ⊎ ((b.height <ℤ c.height) ⊎ (is_csv b.kind ≡ true))

-- `b` is one of the clocks, none is sooner, and at its height a commitment's own clock wins.
pub record IsEarliest (b : Computed) (cs : List Computed) : Type 0 where
  pub listed : Any (λ c. c ≡ b) cs
  pub soonest : All (λ c. b.height ≤ℤ c.height) cs
  pub tie : All (λ c. Beats b c) cs

sooner-choice : (best c : Computed) → (sooner (some best) c ≡ best) ⊎ (sooner (some best) c ≡ c)
unfolding sooner
sooner-choice best c = ground arith

sooner-le :
    (best c : Computed)
    → ((sooner (some best) c).height ≤ℤ best.height) × ((sooner (some best) c).height ≤ℤ c.height)
unfolding sooner
sooner-le best c = ground arith

sooner-Beats :
    (best c : Computed) → Beats (sooner (some best) c) best × Beats (sooner (some best) c) c
unfolding sooner
sooner-Beats best c = (ground arith, ground arith)

Beats-self : (b : Computed) → Beats b b
Beats-self b = elim (Bool-cases (is_csv b.kind)) [ inl e ↦ inr (inr e) | inr e ↦ inl e ]

Beats-trans :
    (b s c : Computed)
    → b.height ≤ℤ s.height
    → s.height ≤ℤ c.height
    → Beats b s
    → Beats s c
    → Beats b c
Beats-trans b s c p q x y = ground arith

earliest_from-IsEarliest :
    (best : Computed) (cs : List Computed)
    → (b : Computed) × (earliest_from (some best) cs ≡ some b) × IsEarliest b (best ∷ cs)
unfolding earliest_from
earliest_from-IsEarliest best [] = (
  best,
  refl,
  record { listed = inl refl; soonest = (omega arith, tt); tie = (Beats-self best, tt) },
)
earliest_from-IsEarliest best (c ∷ cs) =
    let s = sooner (some best) c in
    let (b, e, v) = earliest_from-IsEarliest s cs in
    let (le_best, le_c) = sooner-le best c in
    let (beats_best, beats_c) = sooner-Beats best c in
    (
      b,
      e,
      record {
        listed = elim v.listed [
          | inl here ↦ elim (sooner-choice best c) [
            | inl old ↦ inl (sym old ∙ here)
            | inr new ↦ inr (inl (sym new ∙ here))
          ]
          | inr later ↦ inr (inr later)
        ];
        soonest = (omega (arith, v.soonest.0), (omega (arith, v.soonest.0), v.soonest.1));
        tie = (
          Beats-trans b s best v.soonest.0 le_best v.tie.0 beats_best,
          (Beats-trans b s c v.soonest.0 le_c v.tie.0 beats_c, v.tie.1),
        );
      },
    )

-- Of a list that is not empty Earliest picks a clock of the list, none being sooner, and at its
-- height a commitment's own clock is preferred.
pub earliest-IsEarliest :
    (c : Computed) (cs : List Computed)
    → (b : Computed) × (earliest (c ∷ cs) ≡ some b) × IsEarliest b (c ∷ cs)
unfolding earliest earliest_from sooner
earliest-IsEarliest c cs = earliest_from-IsEarliest c cs

-- For int32 heights that are not negative, Remaining is the deadline less the tip, and zero where
-- the tip is not below the deadline.
pub remaining_parts :
    (deadline tip : ℤ)
    → pos 0 ≤ℤ deadline
    → pos 0 ≤ℤ tip
    → Fits half32 deadline
    → Fits half32 tip
    → remaining deadline tip ≡ pos (pos_part deadline - pos_part tip)
unfolding remaining
remaining_parts deadline tip p q f g = ground (arith, sub32_parts deadline tip)
