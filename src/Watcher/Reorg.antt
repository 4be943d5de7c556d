-- ===== src/Watcher/Reorg.antt =====
-- internal/watcher/reorg.go: a tip that does not follow the last block processed.
use forktower.Common.{
  ℕ, zero, suc, ◌-◌, ◌==◌, Bool, true, false, Option, none, some, List, [], ◌∷◌, ◌++◌, take, ℤ, pos,
  pos_part, ◌-ℤ◌, ltb_ℤ, leb_ℤ, sub32, add32, if◌then◌else◌,
}
use forktower.ChainView.Types.{Hash, BlockRef, BlockMeta}
use forktower.Store.Types.{reorged_out}
use forktower.Store.Spends.{Spend, list_confirmed, update_spend_status}
use forktower.Watcher.Targets.{TxIdText, spelled, malformed}
use forktower.Watcher.State.{
  Watch, Progress, known, say, spend_reorged_out, raise_alert, watcher_deep_reorg,
}
use forktower.Watcher.Blocks.{Reading, process_to, commit_mark, ref_of, stall}

-- Config; a hash of the store is a text as a transaction id is.
pub record Config : Type 0 where
  pub max_reorg_depth : ℤ
  pub max_forward_gap : ℤ

-- What the backend and the database answer while a tip is handled. None is an error.
pub record Backend : Type 0 where
  pub hash_by_height : ℤ → Option Hash
  pub header : Hash → Option BlockMeta
  pub recent_hashes : Option (List TxIdText)
  pub lists_spends : Bool
  pub updates_status : ℤ → Bool
  pub reading : Reading

unfoldable pub roll_back : Backend → Spend → Option (List Spend) → Watch → Watch
unfolding say
roll_back b sp none st = st
roll_back b sp (some rows) st =
    if b.updates_status sp.id
    then say (spend_reorged_out sp.id) (record st { spends = rows })
    else st

-- The loop of rollBackAbove: a spend that cannot be marked is passed over.
unfoldable pub roll_back_each : Backend → ℤ → List Spend → Watch → Watch
unfolding roll_back
roll_back_each b height [] st = st
roll_back_each b height (sp ∷ sps) st = roll_back_each b height sps (
    if leb_ℤ sp.block_height height
    then st
    else roll_back b sp
        (update_spend_status sp.id reorged_out sp.block_hash sp.block_height st.spends) st)

-- rollBackAbove
unfoldable pub roll_back_above : Backend → ℤ → Watch → Watch
unfolding roll_back_each
roll_back_above b height st =
    if b.lists_spends then roll_back_each b height (list_confirmed st.spends) st else st

-- The map of knownHashes, as a list of its entries.
unfoldable pub height_in : Hash → List (Hash × ℤ) → Option ℤ
height_in h [] = none
height_in h (e ∷ es) = if e.0 == h then some e.1 else height_in h es

unfoldable pub add_if_new : Hash → Option ℤ → List (Hash × ℤ) → List (Hash × ℤ)
add_if_new h (some already) out = out
add_if_new h none out = out ++ (h, pos 0) ∷ []

unfoldable pub add_recent : List TxIdText → List (Hash × ℤ) → List (Hash × ℤ)
unfolding height_in add_if_new
add_recent [] out = out
add_recent (spelled h ∷ hs) out = add_recent hs (add_if_new h (height_in h out) out)
add_recent (malformed _ ∷ hs) out = add_recent hs out

unfoldable pub last_entry : BlockRef → List (Hash × ℤ)
last_entry last = if known last then (last.hash, last.height) ∷ [] else []

-- knownHashes, of the hashes that the database lists: as many as the depth.
unfoldable pub known_hashes : Config → BlockRef → List TxIdText → List (Hash × ℤ)
unfolding add_recent last_entry
known_hashes cfg last recent =
    add_recent (take (pos_part cfg.max_reorg_depth) recent) (last_entry last)

-- What walkBack gives: the path with where it attaches, an error, or the error of a chain that was
-- replaced too deep.
pub data Walk : Type 0 where
  attached : List BlockMeta → BlockRef → Walk
  lost : Walk
  too_deep : Walk

-- The loop of walkBack, with the path oldest first.
unfoldable pub walk : Backend → List (Hash × ℤ) → ℕ → BlockMeta → List BlockMeta → Walk
walk b hashes zero current path = too_deep
walk b hashes (suc n) current path = elim (height_in current.prev_hash hashes) [
  | some height ↦ attached path (record { hash = current.prev_hash; height = height })
  | none ↦ if leb_ℤ current.height (pos 1) then lost else elim (b.header current.prev_hash) [
    | none ↦ lost
    | some parent ↦ walk b hashes n parent (parent ∷ path)
  ]
]

unfoldable pub walk_known : Backend → Config → BlockMeta → BlockRef → Option (List TxIdText) → Walk
unfolding known_hashes walk
walk_known b cfg tip last none = lost
walk_known b cfg tip last (some recent) =
    walk b (known_hashes cfg last recent) (pos_part cfg.max_reorg_depth) tip (tip ∷ [])

-- walkBack
abbrev pub walk_back : Backend → Config → BlockMeta → BlockRef → Walk
walk_back b cfg tip last = walk_known b cfg tip last b.recent_hashes

abbrev deep_from : ℤ → Progress → Progress
deep_from height p = record p { stalled = true; stalled_at = height }

-- deepReorg
unfoldable pub deep_reorg : BlockMeta → Watch → Watch
unfolding say
deep_reorg tip st = record (say (raise_alert watcher_deep_reorg) st) {
  progress = deep_from tip.height st.progress;
}

-- The blocks that grewForward reads, or the height that it could not.
pub data Forward : Type 0 where
  path : List BlockMeta → Forward
  unread : ℤ → Forward

unfoldable pub onto : BlockMeta → Forward → Forward
onto meta (path metas) = path (meta ∷ metas)
onto meta (unread height) = unread height

-- The loop of grewForward over the given number of heights.
unfoldable pub read_forward : Backend → ℕ → ℤ → Forward
unfolding onto
read_forward b zero height = path []
read_forward b (suc n) height = elim (b.hash_by_height height) [
  | none ↦ unread height
  | some h ↦ elim (b.header h) [
    | none ↦ unread height
    | some meta ↦ onto meta (read_forward b n (add32 height (pos 1)))
  ]
]

unfoldable pub process_forward : Backend → BlockMeta → Forward → Watch → Watch
process_forward b tip (unread height) st = stall height st
process_forward b tip (path metas) st = process_to b.reading (metas ++ tip ∷ []) st

-- grewForward
unfoldable pub grew_forward : Backend → Config → BlockMeta → BlockRef → Watch → Watch
unfolding read_forward process_forward
grew_forward b cfg tip last st =
    let gap = sub32 tip.height last.height in
    if ltb_ℤ cfg.max_forward_gap gap
    then commit_mark (b.reading.saves_mark (ref_of tip)) (ref_of tip) st
    else process_forward b tip
        (read_forward b (pos_part (tip.height -ℤ last.height) - 1) (add32 last.height (pos 1))) st

unfoldable pub after_walk : Backend → BlockMeta → BlockRef → Walk → Watch → Watch
unfolding roll_back_above deep_reorg
after_walk b tip last lost st = stall tip.height st
after_walk b tip last too_deep st = stall tip.height (deep_reorg tip st)
after_walk b tip last (attached metas attach) st =
    process_to b.reading metas
      (if ltb_ℤ attach.height last.height then roll_back_above b attach.height st else st)

unfoldable pub is_same_block : Hash → Option Hash → Bool
is_same_block h none = false
is_same_block h (some still) = still == h

-- The last block is still on the chain, as catchUp asks of a higher tip.
unfoldable pub still_there : Backend → BlockMeta → BlockRef → Bool
unfolding is_same_block
still_there b tip last =
    if ltb_ℤ last.height tip.height
    then is_same_block last.hash (b.hash_by_height last.height)
    else false

-- catchUp
unfoldable pub catch_up : Backend → Config → BlockMeta → BlockRef → Watch → Watch
unfolding still_there grew_forward after_walk walk_known
catch_up b cfg tip last st =
    if still_there b tip last
    then grew_forward b cfg tip last st
    else after_walk b tip last (walk_back b cfg tip last) st
