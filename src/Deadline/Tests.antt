-- ===== src/Deadline/Tests.antt =====
-- The deadline theorems at a concrete close.
use forktower.Common.{false, some, [], ◌∷◌, ◌≡◌, ◌≢◌, pos, arith}
use forktower.Common.Fractions.{fractions}
use forktower.Store.Types.{commitment_ours, commitment_unknown, csv, htlc_incoming, incoming, other}
use forktower.Deadline.Compute.{Inputs, Computed, earliest}
use forktower.Deadline.Clocks.{IsEarliest, earliest-IsEarliest}
use forktower.Deadline.Escalation.{DividesExactly}

abbrev their_close : Inputs
their_close = record {
  confirm_height = pos 1000;
  shape = commitment_unknown;
  csv_delay_local = some (pos 720);
  csv_delay_remote = some (pos 144);
  htlcs =
      record { direction = incoming; amount_msat = pos 5; cltv_expiry = pos 1080; payment_hash = 1 }
      ∷ record {
        direction = other 3;
        amount_msat = pos 6;
        cltv_expiry = pos 1090;
        payment_hash = 2;
      }
      ∷ [];
}

abbrev own_close : Inputs
own_close = record their_close { shape = commitment_ours }

theirs : their_close.shape ≢ commitment_ours
theirs e = cc

abbrev own_clock : Computed
own_clock = record { kind = csv; height = pos 1080; assumed = false }

abbrev payment_clock : Computed
payment_clock = record { kind = htlc_incoming; height = pos 1080; assumed = false }

earliest-IsEarliest_example :
    (b : Computed) × (earliest (payment_clock ∷ own_clock ∷ []) ≡ some b)
    × IsEarliest b (payment_clock ∷ own_clock ∷ [])
earliest-IsEarliest_example = earliest-IsEarliest payment_clock (own_clock ∷ [])

fractions-DividesExactly : DividesExactly fractions
fractions-DividesExactly = record {
  fifth = λ left window p h. ground arith;
  half = λ left window p h. ground arith;
}
