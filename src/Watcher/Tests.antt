-- ===== src/Watcher/Tests.antt =====
-- internal/watcher: runs at fixed inputs, and the theorems at work on them.
use forktower.Common.{
  sub32, wrap, ◌-ℤ◌, ◌≡◌, refl, inl, ℕ, true, false, some, [], ◌∷◌, pos, map, arith, All, ◌↔◌, ◌==◌,
  if_either,
}
use forktower.ChainView.Types.{BlockMeta}
use forktower.Store.Types.{
  SpendShape, SpendStatus, commitment_unknown, commitment_revoked, justice, confirmed, reorged_out,
  unknown_role,
}
use forktower.Store.Spends.{
  Spend, find_spend, record_found, record_spend, get_spend, set_status, update_spend_status,
  set_shape, update_spend_shape, add_watch_outpoint, with_confirmed, list_confirmed,
}
use forktower.Watcher.State.{Watch, Answers, say}
use forktower.Watcher.Record.{
  is_commitment, close_txid_in, our_close_txid, shape_by_kind, commitment_outputs, watch_outputs,
  follow_commitment, read_spend, with_rows, resolve_found, resolve_source, announce_by_kind,
  confirm_rows, update_status, confirm_found, after_saving, record_match, record_matches,
}
use forktower.Watcher.Classify.{
  classify_shape, classify_sweep, input_at, top_byte, looks_like_commitment, is_plain_payment,
  is_two_of_two, is_mutual_close_input, looks_like_mutual_close, is_our_close, classify_close,
  is_one, takes_revocation_path, takes_delayed_path, sweep_by_role, sweep_by_witness,
}
use forktower.Watcher.Targets.{
  build, outpoint_of, lookup, put_target, add_channel_at, add_channel, is_funding_at, add_output,
  add_channels, add_outputs,
}
use forktower.Watcher.Coverage.{build-watched}
use forktower.Watcher.Scan.{scan_block, is_coinbase_input, found_at, scan_inputs, scan_tx, scan_txs}
use forktower.Watcher.Finding.{scan_block-IsMatch, IsMatch}
use forktower.Watcher.Blocks.{
  process_block, process_to, rebuild_from, rebuild, scan_passes, scan_read, scan_if_possible,
  process_watched, attempts, commit_mark, stall, close_standing, clear_stall,
}
use forktower.Watcher.BlockDone.{has_spend, process_block-has_spend}
use forktower.Store.SpendLaws.{GivesNewIds}
use forktower.Watcher.Answered.{AllAnswered, process_block-succeeds}
use forktower.Watcher.Marks.{
  mark_after, Reached, process_to-Reached, process_to-reaches, IsReadable,
}
use forktower.Watcher.Reorg.{
  Backend, roll_back, roll_back_each, roll_back_above, height_in, add_if_new, add_recent,
  last_entry, known_hashes, walk, walk_known, after_walk, still_there, is_same_block, catch_up,
}
use forktower.Watcher.Tip.{
  handle_tip, is_fresh, health_now, backend_state, keep_health, stray_chainstate,
  close_standing_once, own_mark, follow_tip, handle_known,
}
use forktower.Watcher.Kept.{has_row}
use forktower.Watcher.KeptTip.{handle_tip-has_row}
use forktower.Watcher.Shapes.{classify_sweep-justice_iff, RevocationSpend}
use forktower.Watcher.Sweep.{queue_sweep, widened, queue_range}
use forktower.Watcher.Sweeping.{InRange, queue_sweep-covers}
use forktower.Watcher.Replaced.{IsKnownAt, walk_back-known}
use forktower.Watcher.Samples.{
  funding_outpoint, channel, commitment, justice_tx, block_txs, commitment_output,
  next_id-GivesNewIds, silent, answering, second_time, reading, last_block, tip_block, watch,
  config, backend, other_block, old_spend, largest_id, next_id,
}

abbrev shape_and_status : Spend → SpendShape × SpendStatus
shape_and_status sp = (sp.shape, sp.status)

-- A block with a commitment and the justice transaction that answers it, read at the second attempt:
-- both spends are recorded, and the commitment is known to have been revoked.
reads_justice :
    map shape_and_status (process_to reading (tip_block ∷ []) watch).spends
    ≡ (commitment_revoked, confirmed) ∷ (justice, confirmed) ∷ []
unfolding find_spend record_found record_spend get_spend set_status update_spend_status set_shape
    update_spend_shape add_watch_outpoint with_confirmed list_confirmed top_byte
    looks_like_commitment is_plain_payment is_two_of_two is_mutual_close_input
    looks_like_mutual_close is_our_close classify_close is_one takes_revocation_path
    takes_delayed_path sweep_by_role sweep_by_witness classify_shape classify_sweep input_at
    close_txid_in our_close_txid shape_by_kind commitment_outputs watch_outputs is_commitment
    follow_commitment read_spend with_rows resolve_found resolve_source announce_by_kind
    confirm_rows update_status confirm_found after_saving record_match record_matches outpoint_of
    lookup put_target add_channel_at add_channel is_funding_at add_output add_channels add_outputs
    build is_coinbase_input found_at scan_inputs scan_tx scan_txs scan_block say largest_id next_id
    rebuild_from rebuild scan_passes scan_read scan_if_possible process_watched attempts commit_mark
    stall close_standing clear_stall process_to
reads_justice = refl

-- No block holds anything that is watched.
abbrev quiet_backend : Backend
quiet_backend = record backend {
  reading = record reading { answers = λ h n. record silent { match_block = λ k ts. some false } };
}

-- A branch that replaces one block drops a spend that was confirmed a hundred blocks below it.
drops_old_spend :
    map shape_and_status
      (handle_tip quiet_backend config false
        (pos 0)
        (some (false, pos 500))
        other_block
        (record watch { spends = old_spend ∷ [] })).spends
    ≡ (commitment_unknown, reorged_out) ∷ []
unfolding find_spend record_found record_spend get_spend set_status update_spend_status set_shape
    update_spend_shape add_watch_outpoint with_confirmed list_confirmed top_byte
    looks_like_commitment is_plain_payment is_two_of_two is_mutual_close_input
    looks_like_mutual_close is_our_close classify_close is_one takes_revocation_path
    takes_delayed_path sweep_by_role sweep_by_witness classify_shape classify_sweep input_at
    close_txid_in our_close_txid shape_by_kind commitment_outputs watch_outputs is_commitment
    follow_commitment read_spend with_rows resolve_found resolve_source announce_by_kind
    confirm_rows update_status confirm_found after_saving record_match record_matches outpoint_of
    lookup put_target add_channel_at add_channel is_funding_at add_output add_channels add_outputs
    build is_coinbase_input found_at scan_inputs scan_tx scan_txs scan_block say largest_id next_id
    rebuild_from rebuild scan_passes scan_read scan_if_possible process_watched attempts commit_mark
    stall close_standing clear_stall process_to roll_back roll_back_each roll_back_above height_in
    add_if_new add_recent last_entry known_hashes walk walk_known after_walk still_there
    is_same_block catch_up is_fresh health_now backend_state keep_health stray_chainstate
    close_standing_once own_mark follow_tip handle_known handle_tip sub32 wrap ◌-ℤ◌
drops_old_spend = refl

-- The database names its rows in order and every call is answered in the second attempt.
answering-AllAnswered : AllAnswered answering tip_block
answering-AllAnswered = record {
  matches = λ ts. refl;
  reads = refl;
  saves = λ sp. refl;
  reads_spends = λ id. refl;
  updates = λ id. refl;
}

tip_block-IsReadable : IsReadable reading tip_block
tip_block-IsReadable = record {
  attempt = 1;
  in_time = omega arith;
  answered = answering-AllAnswered;
}

process_block-has_spend_example :
    has_spend tip_block funding_outpoint commitment
      (process_block answering tip_block watch).1.spends
    ≡ true
unfolding lookup put_target add_channel_at add_channel outpoint_of add_outputs add_channels build
    is_coinbase_input
process_block-has_spend_example =
    process_block-has_spend answering tip_block funding_outpoint commitment block_txs watch
      next_id-GivesNewIds tt refl refl (inl refl) refl refl refl
      (process_block-succeeds answering tip_block answering-AllAnswered next_id-GivesNewIds watch
        tt)

second_time-GivesNewIds : (n : ℕ) → GivesNewIds (second_time n).new_id
second_time-GivesNewIds n =
    if_either (λ (ans : Answers). GivesNewIds ans.new_id) (n == 2) (λ e. next_id-GivesNewIds)
      (λ e. next_id-GivesNewIds)

process_to-reaches_example :
    ((process_to reading (tip_block ∷ []) watch).last ≡ mark_after (tip_block ∷ []) last_block)
    × ((process_to reading (tip_block ∷ []) watch).progress.stalled ≡ false)
process_to-reaches_example =
    process_to-reaches reading (λ ref. refl) (λ h n. second_time-GivesNewIds n) (tip_block ∷ [])
      watch tt (tip_block-IsReadable, tt)

process_to-Reached_example :
    Reached reading
      (tip_block ∷ other_block ∷ [])
      watch
      (process_to reading (tip_block ∷ other_block ∷ []) watch)
process_to-Reached_example =
    process_to-Reached reading (λ ref. refl) (tip_block ∷ other_block ∷ []) watch

build-watched_example :
    is_funding_at (lookup funding_outpoint (build (channel ∷ []) (commitment_output ∷ []))) ≡ true
unfolding outpoint_of
build-watched_example =
    build-watched (channel ∷ []) (commitment_output ∷ []) funding_outpoint (inl (refl, refl))

scan_block-IsMatch_example :
    All (IsMatch watch.watched block_txs) (scan_block watch.watched block_txs)
scan_block-IsMatch_example = scan_block-IsMatch watch.watched block_txs

handle_tip-has_row_example :
    has_row
      (pos 4)
      funding_outpoint
      50
      (handle_tip backend config false
        (pos 0)
        (some (false, pos 500))
        other_block
        (record watch { spends = old_spend ∷ [] })).spends
    ≡ true
handle_tip-has_row_example =
    handle_tip-has_row backend config false (pos 0) (some (false, pos 500)) other_block
      (record watch { spends = old_spend ∷ [] }) (pos 4) funding_outpoint 50 refl

walk_back-known_example : IsKnownAt last_block (899, pos 0)
unfolding height_in add_if_new add_recent last_entry known_hashes walk walk_known
walk_back-known_example =
    walk_back-known backend config other_block last_block (record { hash = 899; height = pos 0 })
      (other_block ∷ []) refl

-- A hundred and one blocks after the last one.
abbrev far_block : BlockMeta
far_block = record { hash = 990; height = pos 601; prev_hash = 989; time = pos 0 }

classify_sweep-justice_iff_example :
    (classify_sweep justice_tx 0 (some unknown_role) (pos 501) (pos 0) ≡ justice)
    ↔ RevocationSpend justice_tx.inputs 0
classify_sweep-justice_iff_example =
    classify_sweep-justice_iff justice_tx 0 (some unknown_role) (pos 501) (pos 0)

-- A range that is still to be scanned from 450 to 480, widened to all from 400 to the mark.
abbrev sweeping : Watch
sweeping = record watch { sweep = record { next = pos 450; target = pos 480 } }

queue_sweep-covers_example : InRange (pos 420) (queue_sweep (pos 400) sweeping).1.sweep
unfolding queue_sweep widened queue_range
queue_sweep-covers_example =
    queue_sweep-covers (pos 400) (pos 420) sweeping (record { next = pos 400; target = pos 500 })
      refl (inl (omega arith, omega arith))
