-- ===== src/Watcher/Blocks.antt =====
-- internal/watcher/reorg.go: blocks processed in order, with retries, and the mark of how far
-- scanning has got.
use forktower.Common.{
  ℕ, zero, suc, Bool, true, false, not, ◌&&◌, ◌||◌, Option, none, some, List, [], ◌∷◌, ℤ, pos,
  eqb_ℤ, if◌then◌else◌,
}
use forktower.ChainView.Types.{Hash, BlockRef, BlockMeta}
use forktower.Watcher.Types.{Tx, Target}
use forktower.Watcher.Targets.{Channel, build}
use forktower.Watcher.Scan.{scan_block}
use forktower.Watcher.State.{
  Watch, Progress, Answers, say, watcher_stalled, watcher_deep_reorg, raise_alert, resolve_alert,
}
use forktower.Watcher.Record.{record_matches}

unfoldable pub rebuild_from : Option (List Channel) → Watch → Watch
rebuild_from none st = st
rebuild_from (some channels) st = record st { watched = build channels st.outputs }

-- Watcher.rebuild: where something cannot be read the previous set stays.
unfoldable pub rebuild : Answers → Watch → Watch
unfolding rebuild_from
rebuild ans st = if ans.lists_outpoints then rebuild_from ans.channels st else st

-- maxSamePasses
abbrev pub max_same_passes : ℕ
max_same_passes = 8

-- The passes of processBlock: false is its error.
unfoldable pub scan_passes : Answers → BlockMeta → List Tx → Bool → ℕ → Watch → Bool × Watch
scan_passes ans meta txs again zero st = (true, st)
scan_passes ans meta txs again (suc n) st =
    let start = if again then rebuild ans st else st in
    let r = record_matches ans meta (scan_block start.watched txs) 0 start in
    elim r.0 [
      | none ↦ (false, r.1)
      | some zero ↦ (true, r.1)
      | some (suc k) ↦ scan_passes ans meta txs true n r.1
    ]

unfoldable pub scan_read : Answers → BlockMeta → Option (List Tx) → Watch → Bool × Watch
unfolding scan_passes
scan_read ans meta none st = (false, st)
scan_read ans meta (some txs) st = scan_passes ans meta txs false max_same_passes st

unfoldable pub scan_if_possible : Answers → BlockMeta → Option Bool → Watch → Bool × Watch
unfolding scan_read
scan_if_possible ans meta none st = (false, st)
scan_if_possible ans meta (some false) st = (true, st)
scan_if_possible ans meta (some true) st = scan_read ans meta (ans.block meta.hash) st

-- processBlock, of a set that is not empty.
unfoldable pub process_watched : Answers → BlockMeta → List Target → Watch → Bool × Watch
unfolding scan_if_possible
process_watched ans meta [] st = (true, st)
process_watched ans meta (t ∷ ts) st =
    scan_if_possible ans meta (ans.match_block meta.hash (t ∷ ts)) st

-- processBlock
abbrev pub process_block : Answers → BlockMeta → Watch → Bool × Watch
process_block ans meta st = process_watched ans meta st.watched st

-- processWithRetries, from the given attempt on: each attempt is answered anew. There is one at
-- least: withDefaults sees to that.
unfoldable pub attempts : (ℕ → Answers) → BlockMeta → ℕ → ℕ → Watch → Bool × Watch
attempts answers meta attempt zero st = (false, st)
attempts answers meta attempt (suc left) st =
    let r = process_block (answers attempt) meta st in
    elim r.0 [ true ↦ r | false ↦ attempts answers meta (suc attempt) left r.1 ]

abbrev pub process_with_retries : (ℕ → Answers) → ℕ → BlockMeta → Watch → Bool × Watch
process_with_retries answers block_attempts meta st = attempts answers meta 1 block_attempts st

-- commitMark, of whether both of its writes succeed.
unfoldable pub commit_mark : Bool → BlockRef → Watch → Watch
commit_mark saved ref st =
    if saved
    then record st { last = ref; progress = record st.progress { height = ref.height } }
    else st

abbrev pub stalled_from : ℤ → Progress → Progress
stalled_from height p = record p { stalled = true; stalled_at = height }

abbrev pub stalled_here : ℤ → Progress → Bool
stalled_here height p = p.stalled && eqb_ℤ p.stalled_at height

unfoldable pub stall : ℤ → Watch → Watch
unfolding say
stall height st =
    let after = record st { progress = stalled_from height st.progress } in
    if stalled_here height st.progress then after else say (raise_alert watcher_stalled) after

unfoldable pub close_standing : Watch → Watch
unfolding say
close_standing st = say (resolve_alert watcher_deep_reorg) (say (resolve_alert watcher_stalled) st)

abbrev not_stalled : Progress → Progress
not_stalled p = record p { stalled = false; stalled_at = pos 0 }

-- clearStall, with takeStandingCheck.
unfoldable pub clear_stall : Watch → Watch
unfolding close_standing
clear_stall st =
    let after = record st { progress = not_stalled st.progress; checked_standing = true } in
    if st.progress.stalled || not st.checked_standing then close_standing after else after

-- The block that a mark of it names.
abbrev pub ref_of : BlockMeta → BlockRef
ref_of meta = record { hash = meta.hash; height = meta.height }

-- What is answered while a path of blocks is processed: `answers h n` in attempt n at the block h.
pub record Reading : Type 0 where
  pub answers : Hash → ℕ → Answers
  pub block_attempts : ℕ
  pub saves_mark : BlockRef → Bool

-- processTo
unfoldable pub process_to : Reading → List BlockMeta → Watch → Watch
unfolding attempts commit_mark stall clear_stall
process_to reading [] st = clear_stall st
process_to reading (meta ∷ metas) st =
    let r = process_with_retries (reading.answers meta.hash) reading.block_attempts meta st in
    elim r.0 [
      | false ↦ stall meta.height r.1
      | true ↦
          process_to reading metas
            (commit_mark (reading.saves_mark (ref_of meta)) (ref_of meta) r.1)
    ]
