-- ===== src/Watcher/Sweep.antt =====
-- internal/watcher/rescan.go: the sweep of blocks behind the mark.
use forktower.Common.{
  ℕ, zero, suc, Bool, true, false, not, ◌&&◌, ◌||◌, Option, none, some, ℤ, pos, ltb_ℤ, leb_ℤ, add32,
  if◌then◌else◌,
}
use forktower.ChainView.Types.{Hash, BlockMeta}
use forktower.Watcher.State.{Watch, Progress, Range, pending}
use forktower.Watcher.Blocks.{Reading, process_with_retries}

-- rescanChunk
abbrev pub rescan_chunk : ℕ
rescan_chunk = 25

abbrev pub no_range : Range
no_range = record { next = pos 0; target = pos 0 }

abbrev rescanning : Range → Progress → Progress
rescanning s p = record p { rescan_next = s.next; rescan_target = s.target }

-- setSweep, in memory.
unfoldable pub set_sweep : Range → Watch → Watch
set_sweep s st = record st {
  sweep = s;
  progress = rescanning s st.progress;
  blocked_sweep = st.blocked_sweep && not (pending s);
}

-- The range that queueSweep records; none where there is nothing to sweep.
unfoldable pub widened : ℤ → ℤ → Range → Option Range
widened from mark current =
    if leb_ℤ mark (pos 0) || ltb_ℤ mark from
    then none
    else some (record {
      next = if pending current && ltb_ℤ current.next from then current.next else from;
      target = if ltb_ℤ mark current.target then current.target else mark;
    })

abbrev pub from_first : ℤ → ℤ
from_first from = if ltb_ℤ from (pos 1) then pos 1 else from

unfoldable pub queue_range : Option Range → Watch → Option Range × Watch
unfolding set_sweep
queue_range none st = (none, st)
queue_range (some s) st = (some s, set_sweep s st)

-- queueSweep, with the range that it reports.
unfoldable pub queue_sweep : ℤ → Watch → Option Range × Watch
unfolding widened queue_range
queue_sweep from st = queue_range (widened (from_first from) st.last.height st.sweep) st

-- rescanFromFork, of the height of the fork block where it is known.
unfoldable pub rescan_from_fork : Option ℤ → Watch → Option Range × Watch
unfolding queue_sweep
rescan_from_fork none st = (none, st)
rescan_from_fork (some fork) st =
    if leb_ℤ fork (pos 0) then (none, st) else queue_sweep (add32 fork (pos 1)) st

-- blockSweep
unfoldable pub block_sweep : Watch → Watch
block_sweep st = record st { blocked_sweep = true }

-- The block that a sweep reads by its height alone.
abbrev pub at_height : Hash → ℤ → BlockMeta
at_height h height = record { hash = h; height = height; prev_hash = 0; time = pos 0 }

abbrev pub advance : Range → Range
advance s = record s { next = add32 s.next (pos 1) }

-- The loop of sweepSlice: the range that is left, or none where a block could not be read.
unfoldable pub sweep_blocks : Reading → (ℤ → Option Hash) → ℕ → Range → Watch → Option Range × Watch
unfolding set_sweep block_sweep
sweep_blocks reading hash_by_height zero s st = (some s, st)
sweep_blocks reading hash_by_height (suc n) s st = elim (pending s) [
  | false ↦ (some s, st)
  | true ↦ elim (hash_by_height s.next) [
    | none ↦ (none, block_sweep st)
    | some h ↦
        let r =
          process_with_retries (reading.answers h) reading.block_attempts (at_height h s.next) st in
        elim r.0 [
          | false ↦ (none, block_sweep r.1)
          | true ↦ sweep_blocks reading hash_by_height n (advance s) (set_sweep (advance s) r.1)
        ]
  ]
]

unfoldable pub after_slice : Option Range × Watch → Bool × Watch
unfolding set_sweep
after_slice (none, st) = (false, st)
after_slice (some s, st) = (true, if pending s then st else set_sweep no_range st)

-- sweepSlice: whether it did any work.
unfoldable pub sweep_slice : Reading → (ℤ → Option Hash) → Bool → Watch → Bool × Watch
unfolding sweep_blocks after_slice
sweep_slice reading hash_by_height paused st =
    if not (pending st.sweep) || st.blocked_sweep || paused
    then (false, st)
    else after_slice (sweep_blocks reading hash_by_height rescan_chunk st.sweep st)
