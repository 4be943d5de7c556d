-- ===== src/Watcher/BlockDone.antt =====
-- internal/watcher/reorg.go: what has been recorded of a block once processBlock returns no error.
use forktower.Common.{
  ◌≡◌, ℕ, zero, suc, ◌==◌, leb, Bool, true, false, ◌&&◌, none, some, List, [], ◌∷◌, any, All, arith,
  pos, Option-cases, Bool-cases, is_some, inl, inr,
}
use forktower.ChainView.Types.{BlockMeta}
use forktower.Store.Spends.{Outpoint, Spend, same_outpoint}
use forktower.Store.SpendLaws.{HaveDistinctIds, GivesNewIds}
use forktower.Watcher.Types.{Tx, Target, Found, funding}
use forktower.Watcher.Targets.{lookup}
use forktower.Watcher.Scan.{scan_block}
use forktower.Watcher.State.{Watch, Answers}
use forktower.Watcher.Record.{confirmed_in, record_matches}
use forktower.Watcher.Blocks.{
  scan_passes, scan_read, scan_if_possible, process_watched, process_block,
}
use forktower.Watcher.Finding.{finds, Holds, spends, scan_block-finds}
use forktower.Watcher.Keeping.{keeps_scan_passes}
use forktower.Watcher.Recorded.{
  is_recorded, record_spend-is_recorded, set_status-is_recorded, set_shape-is_recorded,
}
use forktower.Watcher.Settled.{IsDone, record_matches-IsDone}

-- The spend of an outpoint by a transaction, as a match at the target.
abbrev as_match : Outpoint → Tx → Found
as_match op tx = record {
  target = record {
    outpoint = op;
    kind = funding;
    channel_id = pos 0;
    role = none;
    source_spend_event_id = pos 0;
    script = [];
  };
  tx = tx;
  tx_index = 0;
  input_index = 0;
}

-- A row says that the transaction spends the outpoint, confirmed in the block.
abbrev pub has_spend : BlockMeta → Outpoint → Tx → List Spend → Bool
has_spend meta op tx rows =
    any
      (λ (row : Spend).
        same_outpoint row.outpoint op && row.spend_txid == tx.id && confirmed_in meta row)
      rows

module _ (ans : Answers) (meta : BlockMeta) (op : Outpoint) (tx : Tx) where
  same_records :
      (m : Found) (rows : List Spend)
      → finds op tx m ≡ true
      → is_recorded meta m rows ≡ true
      → has_spend meta op tx rows ≡ true
  same_records m [] f h = h
  same_records m (row ∷ rows) f h = ground (arith, same_records m rows)

  settled_has_spend :
      (rows : List Spend) (ms : List Found)
      → leb op.index 2147483647 ≡ true
      → All (IsDone meta rows) ms
      → any (finds op tx) ms ≡ true
      → has_spend meta op tx rows ≡ true
  settled_has_spend rows [] v d h = ground arith
  settled_has_spend rows (m ∷ ms) v d h = elim (Bool-cases (finds op tx m)) [
    | inl e ↦ same_records m rows e (d.0 (ground arith))
    | inr e ↦ settled_has_spend rows ms v d.1 (ground arith)
  ]

  passes-keep :
      (txs : List Tx) (n : ℕ) (st : Watch)
      → has_spend meta op tx st.spends ≡ true
      → has_spend meta op tx (scan_passes ans meta txs true n st).1.spends ≡ true
  passes-keep txs n st h =
      keeps_scan_passes (λ rows. has_spend meta op tx rows ≡ true) ans meta
        (λ rows sp k. record_spend-is_recorded meta (as_match op tx) ans.new_id rows sp k)
        (set_status-is_recorded meta (as_match op tx)) (set_shape-is_recorded meta (as_match op tx))
        txs true n st h

  module _ (txs : List Tx) (st : Watch) (g : GivesNewIds ans.new_id) (d : HaveDistinctIds st.spends)
      (v : leb op.index 2147483647 ≡ true) (w : is_some (lookup op st.watched) ≡ true)
      (x : Holds tx txs) (s : spends op tx ≡ true) where
    first_pass :
        (k : ℕ)
        → (record_matches ans meta (scan_block st.watched txs) 0 st).0 ≡ some k
        → has_spend meta op tx (record_matches ans meta (scan_block st.watched txs) 0 st).1.spends
          ≡ true
    first_pass k e =
        settled_has_spend (record_matches ans meta (scan_block st.watched txs) 0 st).1.spends
          (scan_block st.watched txs) v
          (record_matches-IsDone ans meta (scan_block st.watched txs) 0 k st g d e)
          (scan_block-finds st.watched txs tx op w x s)

    passes-has_spend :
        (n : ℕ)
        → (scan_passes ans meta txs false (suc n) st).0 ≡ true
        → has_spend meta op tx (scan_passes ans meta txs false (suc n) st).1.spends ≡ true
    unfolding scan_passes
    passes-has_spend n =
        elim (Option-cases (record_matches ans meta (scan_block st.watched txs) 0 st).0) [
          | inl e ↦ rw (e, scan_passes) (λ f. cc)
          | inr (zero, e) ↦ rw (e, scan_passes) (λ f. first_pass zero e)
          | inr (suc k, e) ↦
              rw (e, scan_passes)
                (λ f.
                  passes-keep txs n (record_matches ans meta (scan_block st.watched txs) 0 st).1
                    (first_pass (suc k) e))
        ]

    read-has_spend :
        (ts : List Target)
        → ans.match_block meta.hash ts ≡ some true
        → ans.block meta.hash ≡ some txs
        → is_some (lookup op ts) ≡ true
        → (process_watched ans meta ts st).0 ≡ true
        → has_spend meta op tx (process_watched ans meta ts st).1.spends ≡ true
    unfolding process_watched scan_if_possible scan_read lookup
    read-has_spend [] e f l = cc
    read-has_spend (u ∷ us) e f l =
        rw (e, process_watched, f, scan_if_possible, scan_read) (passes-has_spend 7)

    -- When processBlock returns no error for a block that was read, every spend of a watched
    -- outpoint by a transaction of the block that is no coinbase has a row that is confirmed in
    -- this block, where the output index fits an int32, no two rows have one id, and the database
    -- gives new rows new ids.
    pub process_block-has_spend :
        ans.match_block meta.hash st.watched ≡ some true
        → ans.block meta.hash ≡ some txs
        → (process_block ans meta st).0 ≡ true
        → has_spend meta op tx (process_block ans meta st).1.spends ≡ true
    process_block-has_spend e f r = read-has_spend st.watched e f w r
