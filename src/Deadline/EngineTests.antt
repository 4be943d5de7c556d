-- ===== src/Deadline/EngineTests.antt =====
-- The engine on one countdown that nobody answers, and on two payments.
use forktower.Common.{Bool, false, some, none, List, [], ◌∷◌, ◌≡◌, ◌≢◌, refl, ℤ, pos, All}
use forktower.Common.Fractions.{fractions}
use forktower.ChainView.Types.{sq}
use forktower.Store.Types.{confirmed, commitment_revoked, csv, htlc_incoming}
use forktower.Store.Deadlines.{counting, Deadline, lookup, upsert_deadline}
use forktower.Store.Upsert.{Found, lookup-upsert_deadline}
use forktower.Deadline.Compute.{Computed}
use forktower.Deadline.Engine.{Spend, Channel, Backing, running_of, advance}
use forktower.Deadline.Handlers.{as_deadline, improve}
use forktower.Deadline.Events.{Event, branch_extended, Engine, handle_all}
use forktower.Deadline.Lasting.{Lasts}
use forktower.Deadline.Handling.{handle_all-Lasts}
use forktower.Deadline.Justified.{Justified, advance-Justified}
use forktower.Deadline.Payments.{later_payment_replaces}

abbrev breach : Spend
breach = record {
  channel_id = pos 5;
  spend_txid = 77;
  block_height = pos 1000;
  shape = commitment_revoked;
  status = confirmed;
}

abbrev lost_channel : Channel
lost_channel = record {
  capacity_sat = pos 200000;
  csv_delay_local = none;
  csv_delay_remote = some (pos 144);
}

abbrev sound : Backing
sound = record {
  get_spend = λ id. some breach;
  get_channel = λ id. some lost_channel;
  list_htlcs = λ id. some [];
  new_id = λ rows. pos 9;
  upsert_fails = λ d. false;
  list_fails = false;
  state_fails = λ id. false;
  escalation_fails = λ id. false;
  tip = pos 1144;
  now = pos 70000;
}

abbrev clock : Deadline
clock = record {
  id = pos 1;
  spend_event_id = pos 3;
  kind = csv;
  deadline_height = pos 1144;
  state = counting;
  escalation = 1;
  assumed = false;
  resolved_by = none;
  updated_at = pos 60000;
}

abbrev engine : Engine
engine = record { tip_height = pos 1001; rows = clock ∷ [] }

abbrev events : List (Backing × Event)
events = (sound, branch_extended sq (pos 1120)) ∷ (sound, branch_extended sq (pos 1144)) ∷ []

handle_all-Lasts_example : Lasts engine.rows (handle_all fractions sq engine events).rows
handle_all-Lasts_example = handle_all-Lasts fractions sq engine events

advance-Justified_example :
    All (Justified sound (running_of sound (clock ∷ []))) (advance fractions sound (clock ∷ [])).1
advance-Justified_example = advance-Justified fractions sound (clock ∷ [])

no_spend : clock.spend_event_id ≢ pos 0
no_spend e = cc

lookup-upsert_deadline_example :
    (result : ℤ × Bool) × (after : List Deadline) × (upsert_deadline sound.new_id (clock ∷ []) clock
      ≡ some (result, after))
    × Found clock after
lookup-upsert_deadline_example = lookup-upsert_deadline sound.new_id (clock ∷ []) clock no_spend

abbrev sooner_payment : Computed
sooner_payment = record { kind = htlc_incoming; height = pos 1050; assumed = false }

abbrev later_payment : Computed
later_payment = record { kind = htlc_incoming; height = pos 1300; assumed = false }

later_payment_replaces_example :
    (row : Deadline) × (lookup
        (as_deadline sound (pos 3) sooner_payment)
        (improve sound (pos 3) (sooner_payment ∷ later_payment ∷ []) (clock ∷ []))
      ≡ some row)
    × (row.deadline_height ≡ later_payment.height)
later_payment_replaces_example =
    later_payment_replaces sound (pos 3) sooner_payment later_payment (clock ∷ []) no_spend refl
      refl
