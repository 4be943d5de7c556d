-- ===== src/Deadline/Compute.antt =====
-- internal/deadline/compute.go: which deadlines there are, how long is left and how urgent it is.
use forktower.Common.{
  ℕ, Bool, true, false, ◌&&◌, ◌||◌, Option, none, some, List, [], ◌∷◌, ℤ, pos, ltb_ℤ, leb_ℤ, eqb_ℤ,
  sub32, add32, Float64, ite, if◌then◌else◌,
}
use forktower.Store.Types.{
  SpendShape, commitment_ours, SpendShape-discrete, DeadlineKind, csv, htlc_incoming, htlc_outgoing,
  is_csv, Direction, incoming, outgoing, other, HtlcSnapshot, assumed_deadline_floor,
}

-- Levels of escalation, int32 in the source.
abbrev pub level_detected : ℕ
level_detected = 1

abbrev pub level_half : ℕ
level_half = 2

abbrev pub level_urgent : ℕ
level_urgent = 3

-- maxSaneDelay, 1 << 16
abbrev pub max_sane_delay : ℤ
max_sane_delay = pos 65536

pub record Inputs : Type 0 where
  pub confirm_height : ℤ
  pub shape : SpendShape
  pub csv_delay_local : Option ℤ
  pub csv_delay_remote : Option ℤ
  pub htlcs : List HtlcSnapshot

pub record Computed : Type 0 where
  pub kind : DeadlineKind
  pub height : ℤ
  pub assumed : Bool

-- The delay that applicableDelay picks, before it is judged.
unfoldable pub chosen_delay : Inputs → Option ℤ
chosen_delay in' =
    ite (SpendShape-discrete in'.shape commitment_ours) in'.csv_delay_local in'.csv_delay_remote

-- applicableDelay; `none` is the source's false.
unfoldable pub applicable_delay : Inputs → Option ℤ
unfolding chosen_delay
applicable_delay in' = elim (chosen_delay in') [
  | none ↦ none
  | some delay ↦ if leb_ℤ delay (pos 0) || leb_ℤ max_sane_delay delay then none else some delay
]

-- computeCSV
unfoldable pub compute_csv : Inputs → Computed
compute_csv in' = elim (applicable_delay in') [
  | none ↦ record {
    kind = csv;
    height = add32 in'.confirm_height (pos assumed_deadline_floor);
    assumed = true;
  }
  | some delay ↦ record { kind = csv; height = add32 in'.confirm_height delay; assumed = false }
]

-- htlcKind
unfoldable pub htlc_kind : Direction → Option DeadlineKind
htlc_kind incoming = some htlc_incoming
htlc_kind outgoing = some htlc_outgoing
htlc_kind (other _) = none

-- computeHTLC
unfoldable pub compute_htlc : Inputs → HtlcSnapshot → Option Computed
compute_htlc in' h = elim (htlc_kind h.direction) [
  | none ↦ none
  | some kind ↦ some (
      if leb_ℤ h.cltv_expiry (pos 0)
      then record {
        kind = kind;
        height = add32 in'.confirm_height (pos assumed_deadline_floor);
        assumed = true;
      }
      else record { kind = kind; height = h.cltv_expiry; assumed = false })
]

-- The loop of Compute over the payments in flight.
unfoldable pub compute_htlcs : Inputs → List HtlcSnapshot → List Computed
compute_htlcs in' [] = []
compute_htlcs in' (h ∷ hs) =
    let rest = compute_htlcs in' hs in
    elim (compute_htlc in' h) [ none ↦ rest | some computed ↦ computed ∷ rest ]

-- Compute
unfoldable pub compute : Inputs → List Computed
compute in' = compute_csv in' ∷ compute_htlcs in' in'.htlcs

-- One round of the loop of Earliest.
unfoldable pub sooner : Option Computed → Computed → Computed
sooner none c = c
sooner (some best) c =
    if ltb_ℤ c.height best.height
    then c
    else if eqb_ℤ c.height best.height && is_csv c.kind
    then c
    else best

unfoldable pub earliest_from : Option Computed → List Computed → Option Computed
earliest_from best [] = best
earliest_from best (c ∷ cs) = earliest_from (some (sooner best c)) cs

-- Earliest
unfoldable pub earliest : List Computed → Option Computed
earliest cs = earliest_from none cs

-- Remaining
unfoldable pub remaining : ℤ → ℤ → ℤ
remaining deadline_height tip_height =
    if leb_ℤ deadline_height tip_height then pos 0 else sub32 deadline_height tip_height

module _ (F : Float64) where
  open F use {of_int, ratio, over, below}

  -- Level
  unfoldable pub level : ℤ → ℤ → ℕ
  level left window =
      if leb_ℤ left (pos 0)
      then level_urgent
      else if leb_ℤ window (pos 0)
      then level_detected
      else if below (over (of_int left) (of_int window)) (ratio 1 5)
      then level_urgent
      else if below (over (of_int left) (of_int window)) (ratio 1 2)
      then level_half
      else level_detected
