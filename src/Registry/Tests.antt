-- ===== src/Registry/Tests.antt =====
-- The classifier and polls at concrete channels.
use forktower.Common.{true, ◌≡◌, ◌≢◌, refl, ◌↔◌, ℕ, pos, Option, some, none, [], ◌∷◌, arith}
use forktower.Store.Types.{force_closed, pending_close, open_channel, irrelevant, unknown}
use forktower.Tower.Coverage.{anchors}
use forktower.Registry.Relevance.{Facts, funded_after_fork, classify}
use forktower.Registry.Merge.{
  Channel, ChannelRecord, merge_type, merge, is_valid_type, stored_facts,
}
use forktower.Registry.Apply.{Answers, Poll, apply}
use forktower.Registry.Polled.{apply-forgets}
use forktower.Registry.Sources.{point_of, same_point, Row, find_row, Snapshot, poll_all}
use forktower.Registry.Lasting.{IsOwn, IsKept, poll_all-IsKept}
use forktower.Registry.Exposure.{Safe, irrelevant_iff}

abbrev closed_before : Facts
closed_before = record {
  fork_known = true;
  fork_height = pos 900000;
  open_height = pos 800000;
  close_state = force_closed;
  close_height = pos 890000;
  funding_seen_on_sq = true;
}

irrelevant_iff_example :
    ((classify closed_before).0 ≡ irrelevant)
    ↔ ((closed_before.fork_known ≡ true) × Safe closed_before)
irrelevant_iff_example = irrelevant_iff closed_before

-- A channel that was opened after the fork and whose node restarts in the middle of closing.
abbrev stored : Channel
stored = record {
  funding_txid = 7;
  funding_vout = pos 1;
  funding_script_hex = none;
  capacity_sat = pos 500000;
  chan_type = some anchors;
  csv_delay_local = some (pos 144);
  csv_delay_remote = some (pos 720);
  peer_pubkey = some 3;
  peer_alias = none;
  open_height = pos 900100;
  scid = some 12;
  close_state = pending_close;
  close_txid = none;
  close_height = pos 0;
  relevance = some irrelevant;
  relevance_reason = some funded_after_fork;
}

abbrev silent : ChannelRecord
silent = record {
  funding_txid = 7;
  funding_vout = pos 1;
  funding_script_hex = none;
  capacity_sat = pos 0;
  chan_type = none;
  csv_delay_local = none;
  csv_delay_remote = some (pos 0);
  peer_pubkey = none;
  peer_alias = none;
  open_height = pos 0;
  scid = none;
  close_state = open_channel;
  close_txid = none;
}

abbrev answered : Answers
answered = record { upsert = true; close = true; relevance = true }

abbrev poll : Poll
poll = record { answers = answered; fork_known = true; fork_height = pos 900000; rec = silent }

abbrev clean : Option ℕ → Option ℕ
clean alias = alias

abbrev stored_row : Row
stored_row = record { node = 1; channel = stored }

-- Its node names the channel, and another node names none.
abbrev own_snapshot : Snapshot
own_snapshot = record { answered = true; node = 1; polls = poll ∷ [] }

abbrev other_snapshot : Snapshot
other_snapshot = record { answered = true; node = 2; polls = [] }

own_snapshot-IsOwn : IsOwn (point_of stored) 1 own_snapshot
unfolding same_point
own_snapshot-IsOwn = record { once = omega arith; alone = λ n. absurd (n refl) }

other_snapshot-IsOwn : IsOwn (point_of stored) 1 other_snapshot
other_snapshot-IsOwn = record { once = omega arith; alone = λ n. refl }

poll_all-IsKept_example :
    IsKept
      (point_of stored)
      stored_row
      (poll_all clean (own_snapshot ∷ other_snapshot ∷ own_snapshot ∷ []) (stored_row ∷ []))
unfolding find_row same_point
poll_all-IsKept_example =
    poll_all-IsKept clean (own_snapshot ∷ other_snapshot ∷ own_snapshot ∷ []) (point_of stored)
      (stored_row ∷ []) stored_row refl
      (own_snapshot-IsOwn, (other_snapshot-IsOwn, (own_snapshot-IsOwn, tt)))

poll_type : is_valid_type (merge stored silent).chan_type ≡ true
unfolding is_valid_type merge merge_type
poll_type = refl

apply-forgets_example :
    ((apply clean poll stored).relevance ≡ some unknown)
    × ((apply clean poll stored).open_height ≡ stored.open_height)
    × ((classify (stored_facts true poll.fork_height (apply clean poll stored))).0 ≢ unknown)
apply-forgets_example =
    apply-forgets clean poll stored refl refl refl refl poll_type (omega arith) refl
