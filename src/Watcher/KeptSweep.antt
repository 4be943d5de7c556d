-- ===== src/Watcher/KeptSweep.antt =====
-- internal/watcher/rescan.go and mempool.go: the rows of spends across a sweep and a sighting.
use forktower.Common.{
  ◌≡◌, ℕ, zero, suc, Bool, true, false, not, ◌||◌, Option, none, some, List, [], ◌∷◌, ℤ, pos,
  Option-cases, Bool-cases, if_either, inl, inr,
}
use forktower.ChainView.Types.{Hash}
use forktower.Store.Types.{SpendShape}
use forktower.Store.Spends.{Outpoint, Spend, record_spend}
use forktower.Watcher.Types.{Tx, Found}
use forktower.Watcher.Scan.{scan_tx}
use forktower.Watcher.State.{Watch, Range, Answers, say, pending}
use forktower.Watcher.Record.{shape_of, vout_in_range}
use forktower.Watcher.Blocks.{Reading, process_with_retries}
use forktower.Watcher.Sweep.{
  no_range, set_sweep, block_sweep, at_height, advance, sweep_blocks, after_slice, sweep_slice,
  rescan_chunk,
}
use forktower.Watcher.Mempool.{sighted_spend, after_sighting, sight, sight_all, handle_mempool_tx}
use forktower.Watcher.Kept.{has_row, Holds, attempts-Holds, record_spend-has_row}

module _ (id : ℤ) (op : Outpoint) (txid : Hash) where
  set_sweep-Holds :
      (s : Range) (st : Watch) → Holds id op txid st → Holds id op txid (set_sweep s st)
  unfolding set_sweep Holds
  set_sweep-Holds s st h = h

  block_sweep-Holds : (st : Watch) → Holds id op txid st → Holds id op txid (block_sweep st)
  unfolding block_sweep Holds
  block_sweep-Holds st h = h

  sweep_blocks-Holds :
      (reading : Reading) (hash_by_height : ℤ → Option Hash) (n : ℕ) (s : Range) (st : Watch)
      → Holds id op txid st
      → Holds id op txid (sweep_blocks reading hash_by_height n s st).1
  unfolding sweep_blocks
  sweep_blocks-Holds reading hash_by_height zero s st h = h
  sweep_blocks-Holds reading hash_by_height (suc n) s st h = elim (Bool-cases (pending s)) [
    | inr e ↦ rw (e, sweep_blocks) h
    | inl e ↦ elim (Option-cases (hash_by_height s.next)) [
      | inl f ↦ rw (e, f, sweep_blocks) (block_sweep-Holds st h)
      | inr (k, f) ↦
          let r =
            process_with_retries (reading.answers k) reading.block_attempts (at_height k s.next)
              st in
          let j =
            attempts-Holds id op txid (reading.answers k) (at_height k s.next) 1
              reading.block_attempts st h in
          elim (Bool-cases r.0) [
            | inl g ↦
                rw (e, f, g, sweep_blocks)
                  (sweep_blocks-Holds reading hash_by_height n (advance s)
                    (set_sweep (advance s) r.1) (set_sweep-Holds (advance s) r.1 j))
            | inr g ↦ rw (e, f, g, sweep_blocks) (block_sweep-Holds r.1 j)
          ]
    ]
  ]

  after_slice-Holds :
      (r : Option Range × Watch) → Holds id op txid r.1 → Holds id op txid (after_slice r).1
  unfolding after_slice
  after_slice-Holds (none, st) h = h
  after_slice-Holds (some s, st) h =
      if_either (Holds id op txid) (pending s) (λ e. h) (λ e. set_sweep-Holds no_range st h)

  sweep_slice-Holds :
      (reading : Reading) (hash_by_height : ℤ → Option Hash) (paused : Bool) (st : Watch)
      → Holds id op txid st
      → Holds id op txid (sweep_slice reading hash_by_height paused st).1
  unfolding sweep_slice
  sweep_slice-Holds reading hash_by_height paused st h =
      if_either (λ (r : Bool × Watch). Holds id op txid r.1)
        (not (pending st.sweep) || st.blocked_sweep || paused) (λ e. h)
        (λ e.
          after_slice-Holds (sweep_blocks reading hash_by_height rescan_chunk st.sweep st)
            (sweep_blocks-Holds reading hash_by_height rescan_chunk st.sweep st h))

  after_sighting-Holds :
      (m : Found) (shape : SpendShape) (r : (ℤ × Bool) × List Spend) (st : Watch)
      → has_row id op txid r.1 ≡ true
      → Holds id op txid (after_sighting m shape r st)
  unfolding after_sighting say Holds
  after_sighting-Holds m shape ((k, true), rows) st h = h
  after_sighting-Holds m shape ((k, false), rows) st h = h

  sight-Holds :
      (ans : Answers) (m : Found) (st : Watch)
      → Holds id op txid st
      → Holds id op txid (sight ans m st)
  unfolding sight Holds
  sight-Holds ans m st h =
      let shape = shape_of ans.channels (pos 0) m in
      let sp = sighted_spend m shape in
      if_either (Holds id op txid) (vout_in_range m)
        (λ e.
          if_either (Holds id op txid) (ans.saves_spend sp)
            (λ f.
              after_sighting-Holds m shape (record_spend ans.new_id st.spends sp) st
                (record_spend-has_row id op txid ans.new_id st.spends sp h))
            (λ f. h))
        (λ e. h)

  sight_all-Holds :
      (ans : Answers) (ms : List Found) (st : Watch)
      → Holds id op txid st
      → Holds id op txid (sight_all ans ms st)
  unfolding sight_all
  sight_all-Holds ans [] st h = h
  sight_all-Holds ans (m ∷ ms) st h =
      sight_all-Holds ans ms (sight ans m st) (sight-Holds ans m st h)

  pub sweep_slice-has_row :
      (reading : Reading) (hash_by_height : ℤ → Option Hash) (paused : Bool) (st : Watch)
      → has_row id op txid st.spends ≡ true
      → has_row id op txid (sweep_slice reading hash_by_height paused st).1.spends ≡ true
  unfolding Holds
  sweep_slice-has_row reading hash_by_height paused st h =
      sweep_slice-Holds reading hash_by_height paused st h

  pub handle_mempool_tx-has_row :
      (ans : Answers) (paused : Bool) (tx : Tx) (st : Watch)
      → has_row id op txid st.spends ≡ true
      → has_row id op txid (handle_mempool_tx ans paused tx st).spends ≡ true
  unfolding handle_mempool_tx Holds
  handle_mempool_tx-has_row ans paused tx st h =
      if_either (Holds id op txid) paused (λ e. h)
        (λ e. sight_all-Holds ans (scan_tx st.watched tx 0) st h)
