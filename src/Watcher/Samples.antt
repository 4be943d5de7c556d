-- ===== src/Watcher/Samples.antt =====
-- internal/watcher: a channel, a block that closes it, and a watcher at work.
use forktower.Common.{
  ◌≡◌, refl, ℕ, suc, ◌<◌, ltb, ◌==◌, true, false, none, some, List, [], ◌∷◌, ℤ, pos, pos_part, any,
  arith, if◌then◌else◌,
}
use forktower.ChainView.Types.{BlockRef, BlockMeta}
use forktower.Store.Types.{relevant, commitment_unknown, confirmed, unknown_role}
use forktower.Store.Spends.{Outpoint, Spend, WatchOutpoint}
use forktower.Store.SpendLaws.{has_id, GivesNewIds}
use forktower.Watcher.Types.{Tx}
use forktower.Watcher.Targets.{Channel, spelled, build}
use forktower.Watcher.State.{Watch, Answers}
use forktower.Watcher.Blocks.{Reading}
use forktower.Watcher.Reorg.{Config, Backend}

abbrev pub funding_outpoint : Outpoint
funding_outpoint = record { hash = 11; index = 1 }

abbrev pub channel : Channel
channel = record {
  id = pos 7;
  funding_txid = spelled 11;
  funding_vout = pos 1;
  funding_script = 0x00 ∷ 0x20 ∷ [];
  relevance = relevant;
  close_txid = none;
}

-- A commitment: an anchor and one more output, and the marks of BOLT 3.
abbrev pub commitment : Tx
commitment = record {
  id = 50;
  inputs = record { previous = funding_outpoint; sequence = 2147483648; witness = [] } ∷ [];
  outputs =
      record { value = pos 330; script = 0x51 ∷ [] }
      ∷ record { value = pos 90000; script = 0x00 ∷ [] }
      ∷ [];
  lock_time = 536870929;
}

abbrev pub commitment_output : WatchOutpoint
commitment_output = record {
  outpoint = record { hash = 50; index = 1 };
  script = 0x00 ∷ [];
  source_spend_event_id = pos 1;
  role = unknown_role;
}

-- A justice transaction: it takes the second output of the commitment by the revocation branch.
abbrev pub justice_tx : Tx
justice_tx = record {
  id = 51;
  inputs =
      record {
        previous = record { hash = 50; index = 1 };
        sequence = 4294967295;
        witness = (1 ∷ 2 ∷ []) ∷ (1 ∷ []) ∷ (3 ∷ []) ∷ [];
      }
      ∷ [];
  outputs = record { value = pos 89000; script = 0x00 ∷ [] } ∷ [];
  lock_time = 0;
}

abbrev pub block_txs : List Tx
block_txs = commitment ∷ justice_tx ∷ []

-- A database that gives the ids in order.
unfoldable pub largest_id : List Spend → ℕ
largest_id [] = 0
largest_id (row ∷ rows) =
    let rest = largest_id rows in if ltb rest (pos_part row.id) then pos_part row.id else rest

unfoldable pub next_id : List Spend → ℤ
unfolding largest_id
next_id rows = pos (suc (largest_id rows))

no_larger_id : (rows : List Spend) (n : ℕ) → largest_id rows < n → any (has_id (pos n)) rows ≡ false
unfolding largest_id
no_larger_id [] n h = refl
no_larger_id (row ∷ rows) n h = ground (arith, no_larger_id rows n)

pub next_id-GivesNewIds : GivesNewIds next_id
unfolding next_id
next_id-GivesNewIds rows = no_larger_id rows (suc (largest_id rows)) (omega arith)

abbrev pub silent : Answers
silent = record {
  match_block = λ h ts. none;
  block = λ h. none;
  channels = some (channel ∷ []);
  lists_outpoints = true;
  saves_spend = λ sp. true;
  new_id = next_id;
  reads_spend = λ id. true;
  updates_status = λ id. true;
  updates_shape = λ id. true;
  adds_outpoint = λ o. true;
}

abbrev pub answering : Answers
answering = record silent { match_block = λ h ts. some true; block = λ h. some block_txs }

-- The first attempt at a block gets no answer, and the second does.
abbrev pub second_time : ℕ → Answers
second_time n = if n == 2 then answering else silent

abbrev pub reading : Reading
reading = record { answers = λ h n. second_time n; block_attempts = 3; saves_mark = λ ref. true }

abbrev pub last_block : BlockRef
last_block = record { hash = 900; height = pos 500 }

abbrev pub tip_block : BlockMeta
tip_block = record { hash = 901; height = pos 501; prev_hash = 900; time = pos 0 }

abbrev pub watch : Watch
watch = record {
  spends = [];
  outputs = [];
  watched = build (channel ∷ []) [];
  last = last_block;
  progress = record {
    height = pos 500;
    stalled = false;
    stalled_at = pos 0;
    rescan_next = pos 0;
    rescan_target = pos 0;
  };
  sweep = record { next = pos 0; target = pos 0 };
  blocked_sweep = false;
  checked_standing = true;
  cached = none;
  effects = [];
}

abbrev pub config : Config
config = record { max_reorg_depth = pos 100; max_forward_gap = pos 2000 }

-- A backend that recalls the block before the last one.
abbrev pub backend : Backend
backend = record {
  hash_by_height = λ height. none;
  header = λ h. none;
  recent_hashes = some (spelled 899 ∷ []);
  lists_spends = true;
  updates_status = λ id. true;
  reading = reading;
}

-- A block that replaces the last one.
abbrev pub other_block : BlockMeta
other_block = record { hash = 910; height = pos 500; prev_hash = 899; time = pos 0 }

-- A spend that was confirmed a hundred blocks before.
abbrev pub old_spend : Spend
old_spend = record {
  id = pos 4;
  channel_id = pos 7;
  outpoint = funding_outpoint;
  spend_txid = 50;
  block_hash = some 800;
  block_height = pos 400;
  shape = commitment_unknown;
  status = confirmed;
}
