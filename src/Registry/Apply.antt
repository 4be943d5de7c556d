-- ===== src/Registry/Apply.antt =====
-- internal/registry/registry.go: polls of one channel, with the writes of internal/store/channels.go that
-- they make. `clean` stands for cleanAlias, whose work on characters is not modelled; the payments in
-- flight and the event ChannelUpserted are left out.
use forktower.Common.{ℕ, Bool, false, not, ◌&&◌, ◌==◌, Option, some, ℤ, pos, if◌then◌else◌}
use forktower.Store.Types.{Relevance, relevant, irrelevant, unknown}
use forktower.Registry.Relevance.{
  Reason, provisional, funded_before_fork, closed_only_on_sf, closed_before_fork, funded_after_fork,
  funded_after_fork_but_mirrored, open_height_unknown, classify,
}
use forktower.Registry.Merge.{
  Channel, ChannelRecord, merge, advance_close, polled_facts, is_valid_type,
}

-- Which writes of a poll the database answers.
pub record Answers : Type 0 where
  pub upsert : Bool
  pub close : Bool
  pub relevance : Bool

-- What a poll brings: the answers, the fork as it is known, and what the node says.
pub record Poll : Type 0 where
  pub answers : Answers
  pub fork_known : Bool
  pub fork_height : ℤ
  pub rec : ChannelRecord

-- A number for each value, to compare by.
unfoldable pub relevance_code : Relevance → ℕ
relevance_code relevant = 0
relevance_code irrelevant = 1
relevance_code unknown = 2

unfoldable pub reason_code : Reason → ℕ
reason_code provisional = 0
reason_code funded_before_fork = 1
reason_code closed_only_on_sf = 2
reason_code closed_before_fork = 3
reason_code funded_after_fork = 4
reason_code funded_after_fork_but_mirrored = 5
reason_code open_height_unknown = 6

-- `rel == prior.Relevance && reason == prior.RelevanceReason`
unfoldable pub same_exposure : Relevance × Reason → Option Relevance → Option Reason → Bool
unfolding relevance_code reason_code
same_exposure decided (some r) (some w) =
    relevance_code decided.0 == relevance_code r && reason_code decided.1 == reason_code w
same_exposure decided _ _ = false

-- The row that is stored, after UpsertChannel, SetChannelCloseSF and SetChannelRelevance have written
-- what follows from the record and from the row that was read before.
unfoldable pub apply_to : (Option ℕ → Option ℕ) → Poll → Channel → Channel → Channel
unfolding same_exposure
apply_to clean p prior stored =
    let m = merge prior p.rec in
    let closing = advance_close p.answers.close p.rec prior in
    let decided = classify (polled_facts p.fork_known p.fork_height p.rec prior closing.0) in
    let exposed =
      p.answers.relevance && not (same_exposure decided prior.relevance prior.relevance_reason) in
    record {
      funding_txid = stored.funding_txid;
      funding_vout = stored.funding_vout;
      funding_script_hex = m.funding_script_hex;
      capacity_sat = m.capacity_sat;
      chan_type = m.chan_type;
      csv_delay_local = m.csv_delay_local;
      csv_delay_remote = m.csv_delay_remote;
      peer_pubkey = m.peer_pubkey;
      peer_alias = clean m.peer_alias;
      open_height = m.open_height;
      scid = m.scid;
      close_state = if closing.1 then p.rec.close_state else stored.close_state;
      close_txid = if closing.1 then p.rec.close_txid else stored.close_txid;
      close_height = if closing.1 then pos 0 else stored.close_height;
      relevance = if exposed then some decided.0 else stored.relevance;
      relevance_reason = if exposed then some decided.1 else stored.relevance_reason;
    }

-- UpsertChannel is answered, for a type that the schema accepts.
unfoldable pub is_stored : Poll → Channel → Bool
is_stored p prior = p.answers.upsert && is_valid_type (merge prior p.rec).chan_type

-- Registry.apply, where the row that was read before is the one that is stored.
unfoldable pub apply : (Option ℕ → Option ℕ) → Poll → Channel → Channel
unfolding apply_to is_stored
apply clean p prior = if is_stored p prior then apply_to clean p prior prior else prior
