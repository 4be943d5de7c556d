-- ===== src/Registry/Merge.antt =====
-- internal/registry/registry.go: what a poll does to the row of one channel. A text that is empty in
-- the source is `none` here, as is a pointer that is nil; whether a write of the database is answered
-- is an argument of the operation that makes it.
use forktower.Common.{
  ℕ, Bool, true, false, Option, none, some, ℤ, pos, ltb_ℤ, leb, eqb_ℤ, if◌then◌else◌,
}
use forktower.Store.Types.{
  CloseState, open_channel, pending_close, coop_closed, force_closed, breach_closed, unset,
  Relevance, relevant,
}
use forktower.Tower.Coverage.{ChanType, type_unknown, other_type}
use forktower.Registry.Relevance.{Facts, Reason, funded_after_fork_but_mirrored}

-- store.Channel, the columns that a poll writes or reads.
pub record Channel : Type 0 where
  pub funding_txid : ℕ
  pub funding_vout : ℤ
  pub funding_script_hex : Option ℕ
  pub capacity_sat : ℤ
  pub chan_type : Option ChanType
  pub csv_delay_local : Option ℤ
  pub csv_delay_remote : Option ℤ
  pub peer_pubkey : Option ℕ
  pub peer_alias : Option ℕ
  pub open_height : ℤ
  pub scid : Option ℕ
  pub close_state : CloseState
  pub close_txid : Option ℕ
  pub close_height : ℤ
  pub relevance : Option Relevance
  pub relevance_reason : Option Reason

-- ChannelRecord
pub record ChannelRecord : Type 0 where
  pub funding_txid : ℕ
  pub funding_vout : ℤ
  pub funding_script_hex : Option ℕ
  pub capacity_sat : ℤ
  pub chan_type : Option ChanType
  pub csv_delay_local : Option ℤ
  pub csv_delay_remote : Option ℤ
  pub peer_pubkey : Option ℕ
  pub peer_alias : Option ℕ
  pub open_height : ℤ
  pub scid : Option ℕ
  pub close_state : CloseState
  pub close_txid : Option ℕ

-- firstNonEmpty
unfoldable pub first_non_empty {ℓ} : {A : Type ℓ} → Option A → Option A → Option A
first_non_empty (some a) b = some a
first_non_empty none b = b

-- firstNonZero64 and firstNonZero32
unfoldable pub first_non_zero : ℤ → ℤ → ℤ
first_non_zero a b = if eqb_ℤ a (pos 0) then b else a

-- A delay that is set and positive.
unfoldable pub known_delay : Option ℤ → Option ℤ
known_delay none = none
known_delay (some d) = if ltb_ℤ (pos 0) d then some d else none

-- firstKnownDelay
unfoldable pub first_known_delay : Option ℤ → Option ℤ → Option ℤ
unfolding known_delay first_non_empty
first_known_delay a b = first_non_empty (known_delay a) (known_delay b)

-- The type of the channel in merge: one that was recognised once is kept.
unfoldable pub merge_type : Option ChanType → Option ChanType → ChanType
merge_type none none = type_unknown
merge_type none (some p) = p
merge_type (some type_unknown) none = type_unknown
merge_type (some type_unknown) (some p) = p
merge_type (some t) p = t

-- merge
unfoldable pub merge : Channel → ChannelRecord → Channel
merge prior rec = record {
  funding_txid = rec.funding_txid;
  funding_vout = rec.funding_vout;
  funding_script_hex = first_non_empty rec.funding_script_hex prior.funding_script_hex;
  capacity_sat = first_non_zero rec.capacity_sat prior.capacity_sat;
  chan_type = some (merge_type rec.chan_type prior.chan_type);
  csv_delay_local = first_known_delay rec.csv_delay_local prior.csv_delay_local;
  csv_delay_remote = first_known_delay rec.csv_delay_remote prior.csv_delay_remote;
  peer_pubkey = first_non_empty rec.peer_pubkey prior.peer_pubkey;
  peer_alias = first_non_empty rec.peer_alias prior.peer_alias;
  open_height = first_non_zero rec.open_height prior.open_height;
  scid = first_non_empty rec.scid prior.scid;
  close_state = unset;
  close_txid = none;
  close_height = pos 0;
  relevance = none;
  relevance_reason = none;
}

-- closeRank
unfoldable pub close_rank : CloseState → ℕ
close_rank pending_close = 1
close_rank coop_closed = 2
close_rank force_closed = 2
close_rank breach_closed = 2
close_rank _ = 0

-- The current close state in advanceClose: open where none is stored.
unfoldable pub current_close : CloseState → CloseState
current_close unset = open_channel
current_close c = c

-- advanceClose: the close state in force, and whether the closing was published. `answered` tells
-- whether the write of the close is answered.
unfoldable pub advance_close : Bool → ChannelRecord → Channel → CloseState × Bool
unfolding current_close close_rank
advance_close answered rec prior =
    if leb (close_rank rec.close_state) (close_rank (current_close prior.close_state))
    then (current_close prior.close_state, false)
    else if answered
    then (rec.close_state, true)
    else (current_close prior.close_state, false)

-- fundingSeenOnSQ
unfoldable pub funding_seen_on_sq : Channel → Bool
funding_seen_on_sq c = mirrored c.relevance c.relevance_reason
  where
    mirrored : Option Relevance → Option Reason → Bool
    mirrored (some relevant) (some funded_after_fork_but_mirrored) = true
    mirrored _ _ = false

-- The facts of Registry.classify: the height is the one of the record.
unfoldable pub polled_facts : Bool → ℤ → ChannelRecord → Channel → CloseState → Facts
polled_facts known fork rec prior close = record {
  fork_known = known;
  fork_height = fork;
  open_height = rec.open_height;
  close_state = close;
  close_height = prior.close_height;
  funding_seen_on_sq = funding_seen_on_sq prior;
}

-- The facts of reclassifyAll: every one is read from the row.
unfoldable pub stored_facts : Bool → ℤ → Channel → Facts
stored_facts known fork c = record {
  fork_known = known;
  fork_height = fork;
  open_height = c.open_height;
  close_state = c.close_state;
  close_height = c.close_height;
  funding_seen_on_sq = funding_seen_on_sq c;
}

-- ChanType.Valid
unfoldable pub is_valid_type : Option ChanType → Bool
is_valid_type none = false
is_valid_type (some other_type) = false
is_valid_type (some t) = true
