-- ===== src/Registry/Sources.antt =====
-- internal/registry/registry.go: a poll of one Lightning node over the table of channels. The rows
-- are read once, by node, and are written by outpoint alone, which the schema makes unique.
use forktower.Common.{
  ℕ, Bool, true, false, ◌&&◌, ◌==◌, Option, none, some, List, [], ◌∷◌, ℤ, pos, eqb_ℤ, if◌then◌else◌,
}
use forktower.Store.Types.{open_channel, unset, unknown}
use forktower.Tower.Coverage.{
  ChanType, legacy, static_remote, anchors, taproot, type_unknown, other_type,
}
use forktower.Registry.Merge.{Channel, ChannelRecord}
use forktower.Registry.Apply.{Poll, apply_to, is_stored}

-- `outpoint`
pub record ChannelPoint : Type 0 where
  pub txid : ℕ
  pub vout : ℤ

-- outpointOf
abbrev pub point_of_record : ChannelRecord → ChannelPoint
point_of_record rec = record { txid = rec.funding_txid; vout = rec.funding_vout }

abbrev pub point_of : Channel → ChannelPoint
point_of c = record { txid = c.funding_txid; vout = c.funding_vout }

unfoldable pub same_point : ChannelPoint → ChannelPoint → Bool
same_point a b = a.txid == b.txid && eqb_ℤ a.vout b.vout

-- A row of the table, with the node that it is stored under.
pub record Row : Type 0 where
  pub node : ℕ
  pub channel : Channel

unfoldable pub find_row : ChannelPoint → List Row → Option Row
find_row k [] = none
find_row k (row ∷ rows) = if same_point k (point_of row.channel) then some row else find_row k rows

-- store.Channel{}
abbrev pub no_channel : Channel
no_channel = record {
  funding_txid = 0;
  funding_vout = pos 0;
  funding_script_hex = none;
  capacity_sat = pos 0;
  chan_type = none;
  csv_delay_local = none;
  csv_delay_remote = none;
  peer_pubkey = none;
  peer_alias = none;
  open_height = pos 0;
  scid = none;
  close_state = unset;
  close_txid = none;
  close_height = pos 0;
  relevance = none;
  relevance_reason = none;
}

abbrev pub of_node : ℕ → Row → Channel
of_node node row = if row.node == node then row.channel else no_channel

-- priorChannels, at one outpoint: the empty channel unless the row stands under the node.
unfoldable pub prior_channel : ℕ → ChannelPoint → List Row → Channel
prior_channel node k rows = elim (find_row k rows) [
  | none ↦ no_channel
  | some row ↦ of_node node row
]

abbrev pub type_code : ChanType → ℕ
type_code legacy = 0
type_code static_remote = 1
type_code anchors = 2
type_code taproot = 3
type_code type_unknown = 4
type_code other_type = 5

abbrev pub same_number : Option ℕ → Option ℕ → Bool
same_number none none = true
same_number (some a) (some b) = a == b
same_number _ _ = false

abbrev pub same_delay : Option ℤ → Option ℤ → Bool
same_delay none none = true
same_delay (some a) (some b) = eqb_ℤ a b
same_delay _ _ = false

abbrev pub same_type : Option ChanType → Option ChanType → Bool
same_type none none = true
same_type (some a) (some b) = type_code a == type_code b
same_type _ _ = false

-- The columns that UpsertChannel compares are as they were, so that it writes nothing.
unfoldable pub same_facts : Channel → Channel → Bool
same_facts a b =
    same_number a.funding_script_hex b.funding_script_hex
    && eqb_ℤ a.capacity_sat b.capacity_sat
    && same_type a.chan_type b.chan_type
    && same_delay a.csv_delay_local b.csv_delay_local
    && same_delay a.csv_delay_remote b.csv_delay_remote
    && same_number a.peer_pubkey b.peer_pubkey
    && same_number a.peer_alias b.peer_alias
    && eqb_ℤ a.open_height b.open_height
    && same_number a.scid b.scid

-- The row of a channel that is not stored yet, with the defaults of the schema.
abbrev pub new_channel : ChannelRecord → Channel
new_channel rec = record no_channel {
  funding_txid = rec.funding_txid;
  funding_vout = rec.funding_vout;
  close_state = open_channel;
  relevance = some unknown;
}

-- Registry.apply at the row that has the outpoint.
unfoldable pub apply_row : (Option ℕ → Option ℕ) → ℕ → Poll → Channel → Row → Row
unfolding same_facts
apply_row clean node p prior row =
    if is_stored p prior
    then record {
      node = if same_facts (apply_to clean p prior row.channel) row.channel then row.node else node;
      channel = apply_to clean p prior row.channel;
    }
    else row

-- Registry.apply, over the table.
unfoldable pub apply_table : (Option ℕ → Option ℕ) → ℕ → Poll → Channel → List Row → List Row
unfolding apply_row same_point
apply_table clean node p prior [] =
    if is_stored p prior
    then record { node = node; channel = apply_to clean p prior (new_channel p.rec) } ∷ []
    else []
apply_table clean node p prior (row ∷ rows) =
    if same_point (point_of_record p.rec) (point_of row.channel)
    then apply_row clean node p prior row ∷ rows
    else row ∷ apply_table clean node p prior rows

-- The loop of pollSource, with the rows that priorChannels read.
unfoldable pub apply_records :
    (Option ℕ → Option ℕ) → ℕ → List Row → List Poll → List Row → List Row
unfolding apply_table prior_channel
apply_records clean node read [] rows = rows
apply_records clean node read (p ∷ ps) rows =
    apply_records clean node read ps
      (apply_table clean node p (prior_channel node (point_of_record p.rec) read) rows)

-- A snapshot of a node; `answered` where the node identified itself and the writes and reads before
-- the loop of pollSource are answered.
pub record Snapshot : Type 0 where
  pub answered : Bool
  pub node : ℕ
  pub polls : List Poll

-- pollSource
unfoldable pub poll_source : (Option ℕ → Option ℕ) → Snapshot → List Row → List Row
unfolding apply_records
poll_source clean snap rows =
    if snap.answered then apply_records clean snap.node rows snap.polls rows else rows

-- Polls of the sources, one after the other.
unfoldable pub poll_all : (Option ℕ → Option ℕ) → List Snapshot → List Row → List Row
unfolding poll_source
poll_all clean [] rows = rows
poll_all clean (snap ∷ snaps) rows = poll_all clean snaps (poll_source clean snap rows)
