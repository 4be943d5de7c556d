-- ===== src/Watcher/Mempool.antt =====
-- internal/watcher/mempool.go: a transaction seen before any block contains it.
use forktower.Common.{Bool, true, false, none, List, [], ◌∷◌, ℤ, pos, if◌then◌else◌}
use forktower.Store.Types.{SpendShape, mempool}
use forktower.Store.Spends.{Spend, record_spend}
use forktower.Watcher.Types.{Tx, Found}
use forktower.Watcher.Scan.{scan_tx}
use forktower.Watcher.State.{Watch, Answers, say, mempool_sighting}
use forktower.Watcher.Record.{shape_of, vout_in_range}

-- The row of a sighting: it names no block.
abbrev pub sighted_spend : Found → SpendShape → Spend
sighted_spend m shape = record {
  id = pos 0;
  channel_id = m.target.channel_id;
  outpoint = m.target.outpoint;
  spend_txid = m.tx.id;
  block_hash = none;
  block_height = pos 0;
  shape = shape;
  status = mempool;
}

unfoldable pub after_sighting : Found → SpendShape → (ℤ × Bool) × List Spend → Watch → Watch
unfolding say
after_sighting m shape ((id, true), rows) st = record st { spends = rows }
after_sighting m shape ((id, false), rows) st =
    say (mempool_sighting id m.target.channel_id m.tx.id shape) (record st { spends = rows })

unfoldable pub sight : Answers → Found → Watch → Watch
unfolding after_sighting
sight ans m st =
    let shape = shape_of ans.channels (pos 0) m in
    let sp = sighted_spend m shape in
    if vout_in_range m
    then if ans.saves_spend sp
      then after_sighting m shape (record_spend ans.new_id st.spends sp) st
      else st
    else st

unfoldable pub sight_all : Answers → List Found → Watch → Watch
unfolding sight
sight_all ans [] st = st
sight_all ans (m ∷ ms) st = sight_all ans ms (sight ans m st)

-- handleMempoolTx, of whether the guard has paused it.
unfoldable pub handle_mempool_tx : Answers → Bool → Tx → Watch → Watch
unfolding sight_all
handle_mempool_tx ans paused tx st =
    if paused then st else sight_all ans (scan_tx st.watched tx 0) st
