-- ===== src/Watcher/Kept.antt =====
-- internal/watcher/reorg.go: the rows of spends across the processing of a block.
use forktower.Common.{
  ◌≡◌, ℕ, zero, suc, ◌==◌, Bool, true, not, ◌&&◌, ◌||◌, Option, none, some, List, [], ◌∷◌, ◌++◌, ℤ,
  eqb_ℤ, any, arith, Bool-cases, if_either, inl, inr,
}
use forktower.ChainView.Types.{Hash, BlockRef, BlockMeta}
use forktower.Store.Types.{SpendShape, SpendStatus, confirmed, commitment_revoked}
use forktower.Store.Spends.{
  Outpoint, Spend, same_outpoint, find_spend, record_found, record_spend, set_status, set_shape,
}
use forktower.Watcher.State.{Watch, Answers, say}
use forktower.Watcher.Blocks.{
  process_block, attempts, process_with_retries, commit_mark, stalled_here, stall, close_standing,
  clear_stall, ref_of, Reading, process_to,
}
use forktower.Watcher.Keeping.{keeps_process_block}

-- A row has the id, and is of the spend of the outpoint by the transaction.
abbrev pub has_row : ℤ → Outpoint → Hash → List Spend → Bool
has_row id op txid rows =
    any
      (λ (row : Spend). eqb_ℤ row.id id && same_outpoint row.outpoint op && row.spend_txid == txid)
      rows

module _ (id : ℤ) (op : Outpoint) (txid : Hash) where
  append-has_row :
      (rows : List Spend) (sp : Spend)
      → has_row id op txid rows ≡ true
      → has_row id op txid (rows ++ sp ∷ []) ≡ true
  append-has_row [] sp h = ground arith
  append-has_row (row ∷ rows) sp h = ground (arith, append-has_row rows sp)

  found-has_row :
      (new_id : List Spend → ℤ) (rows : List Spend) (sp : Spend) (o : Option Spend)
      → has_row id op txid rows ≡ true
      → has_row id op txid (record_found new_id rows sp o).1 ≡ true
  unfolding record_found
  found-has_row new_id rows sp none h = append-has_row rows (record sp { id = new_id rows }) h
  found-has_row new_id rows sp (some row) h = h

  pub record_spend-has_row :
      (new_id : List Spend → ℤ) (rows : List Spend) (sp : Spend)
      → has_row id op txid rows ≡ true
      → has_row id op txid (record_spend new_id rows sp).1 ≡ true
  unfolding record_spend
  record_spend-has_row new_id rows sp h = found-has_row new_id rows sp (find_spend sp rows) h

  pub set_status-has_row :
      (k : ℤ) (status : SpendStatus) (block : Option Hash) (height : ℤ) (rows : List Spend)
      → has_row id op txid rows ≡ true
      → has_row id op txid (set_status k status block height rows) ≡ true
  unfolding set_status
  set_status-has_row k status block height [] h = h
  set_status-has_row k status block height (row ∷ rows) h =
      ground (arith, set_status-has_row k status block height rows)

  set_shape-has_row :
      (k : ℤ) (shape : SpendShape) (rows : List Spend)
      → has_row id op txid rows ≡ true
      → has_row id op txid (set_shape k shape rows) ≡ true
  unfolding set_shape
  set_shape-has_row k shape [] h = h
  set_shape-has_row k shape (row ∷ rows) h = ground (arith, set_shape-has_row k shape rows)

  -- The watcher holds the row.
  unfoldable pub Holds : Watch → Type 0
  Holds st = has_row id op txid st.spends ≡ true

  process_block-Holds :
      (ans : Answers) (meta : BlockMeta) (st : Watch)
      → Holds st
      → Holds (process_block ans meta st).1
  unfolding Holds
  process_block-Holds ans meta st h =
      keeps_process_block (λ rows. has_row id op txid rows ≡ true) ans meta
        (λ rows sp k. record_spend-has_row ans.new_id rows sp k)
        (λ rows k j. set_status-has_row k confirmed (some meta.hash) meta.height rows j)
        (λ rows k j. set_shape-has_row k commitment_revoked rows j) st h

  pub attempts-Holds :
      (answers : ℕ → Answers) (meta : BlockMeta) (attempt left : ℕ) (st : Watch)
      → Holds st
      → Holds (attempts answers meta attempt left st).1
  unfolding attempts
  attempts-Holds answers meta attempt zero st h = h
  attempts-Holds answers meta attempt (suc left) st h =
      let j = process_block-Holds (answers attempt) meta st h in
      elim (Bool-cases (process_block (answers attempt) meta st).0) [
        | inl e ↦ rw (e, attempts) j
        | inr e ↦
            rw (e, attempts)
              (attempts-Holds answers meta (suc attempt) left
                (process_block (answers attempt) meta st).1 j)
      ]

  pub commit_mark-Holds :
      (b : Bool) (ref : BlockRef) (st : Watch) → Holds st → Holds (commit_mark b ref st)
  unfolding commit_mark Holds
  commit_mark-Holds b ref st h = if_either Holds b (λ e. h) (λ e. h)

  pub stall-Holds : (height : ℤ) (st : Watch) → Holds st → Holds (stall height st)
  unfolding stall say Holds
  stall-Holds height st h = if_either Holds (stalled_here height st.progress) (λ e. h) (λ e. h)

  clear_stall-Holds : (st : Watch) → Holds st → Holds (clear_stall st)
  unfolding clear_stall close_standing say Holds
  clear_stall-Holds st h =
      if_either Holds (st.progress.stalled || not st.checked_standing) (λ e. h) (λ e. h)

  pub process_to-Holds :
      (reading : Reading) (metas : List BlockMeta) (st : Watch)
      → Holds st
      → Holds (process_to reading metas st)
  unfolding process_to
  process_to-Holds reading [] st h = clear_stall-Holds st h
  process_to-Holds reading (meta ∷ metas) st h =
      let tries = process_with_retries (reading.answers meta.hash) reading.block_attempts meta st in
      let j = attempts-Holds (reading.answers meta.hash) meta 1 reading.block_attempts st h in
      elim (Bool-cases tries.0) [
        | inl e ↦
            rw (e, process_to)
              (process_to-Holds reading metas
                (commit_mark (reading.saves_mark (ref_of meta)) (ref_of meta) tries.1)
                (commit_mark-Holds (reading.saves_mark (ref_of meta)) (ref_of meta) tries.1 j))
        | inr e ↦ rw (e, process_to) (stall-Holds meta.height tries.1 j)
      ]
