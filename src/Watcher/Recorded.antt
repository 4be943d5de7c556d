-- ===== src/Watcher/Recorded.antt =====
-- internal/watcher/reorg.go: what has been recorded of a block once it is processed.
use forktower.Common.{
  ◌≡◌, refl, subst, ◌==◌, Bool, true, false, ◌&&◌, inl, inr, Option, none, some, List, [], ◌∷◌,
  ◌++◌, ℤ, any, arith, if_either, some_if, some_branch, some_chosen, ==_self,
}
use forktower.ChainView.Types.{BlockMeta}
use forktower.Store.Types.{SpendShape, confirmed, commitment_revoked}
use forktower.Store.Spends.{
  Spend, same_outpoint, same_spend, find_spend, record_found, record_spend, set_status,
  update_spend_status, set_shape,
}
use forktower.Store.SpendLaws.{HaveDistinctIds, eqb_ℤ_self, get_spend-found, find_spend-same}
use forktower.Watcher.Types.{Found}
use forktower.Watcher.State.{Watch, Answers}
use forktower.Watcher.Record.{
  shape_of, read_spend, confirmed_in, confirm_rows, update_status, confirm_found, confirmed_spend,
  after_saving, vout_in_range, record_match, follow_commitment, announce,
}
use forktower.Watcher.Keeping.{
  keeps_record_match, keeps_after_saving, spends-announce, spends-follow_commitment,
}

-- A row is the spend of the match, confirmed in the block.
abbrev pub records : BlockMeta → Found → Spend → Bool
records meta m row =
    same_outpoint row.outpoint m.target.outpoint
    && row.spend_txid == m.tx.id
    && confirmed_in meta row

abbrev pub is_recorded : BlockMeta → Found → List Spend → Bool
is_recorded meta m rows = any (records meta m) rows

module _ (meta : BlockMeta) (m : Found) where
  append-is_recorded :
      (rows : List Spend) (sp : Spend)
      → is_recorded meta m rows ≡ true
      → is_recorded meta m (rows ++ sp ∷ []) ≡ true
  append-is_recorded [] sp h = ground arith
  append-is_recorded (row ∷ rows) sp h = ground (arith, append-is_recorded rows sp)

  new-is_recorded :
      (rows : List Spend) (sp : Spend)
      → records meta m sp ≡ true
      → is_recorded meta m (rows ++ sp ∷ []) ≡ true
  new-is_recorded [] sp h = ground arith
  new-is_recorded (row ∷ rows) sp h = ground (arith, new-is_recorded rows sp)

  found-is_recorded :
      (new_id : List Spend → ℤ) (rows : List Spend) (sp : Spend) (o : Option Spend)
      → is_recorded meta m rows ≡ true
      → is_recorded meta m (record_found new_id rows sp o).1 ≡ true
  unfolding record_found
  found-is_recorded new_id rows sp none h =
      append-is_recorded rows (record sp { id = new_id rows }) h
  found-is_recorded new_id rows sp (some row) h = h

  pub record_spend-is_recorded :
      (new_id : List Spend → ℤ) (rows : List Spend) (sp : Spend)
      → is_recorded meta m rows ≡ true
      → is_recorded meta m (record_spend new_id rows sp).1 ≡ true
  unfolding record_spend
  record_spend-is_recorded new_id rows sp h =
      found-is_recorded new_id rows sp (find_spend sp rows) h

  pub set_status-is_recorded :
      (rows : List Spend) (id : ℤ)
      → is_recorded meta m rows ≡ true
      → is_recorded meta m (set_status id confirmed (some meta.hash) meta.height rows) ≡ true
  unfolding set_status
  set_status-is_recorded [] id h = h
  set_status-is_recorded (row ∷ rows) id h = ground (arith, set_status-is_recorded rows id)

  pub set_shape-is_recorded :
      (rows : List Spend) (id : ℤ)
      → is_recorded meta m rows ≡ true
      → is_recorded meta m (set_shape id commitment_revoked rows) ≡ true
  unfolding set_shape
  set_shape-is_recorded [] id h = h
  set_shape-is_recorded (row ∷ rows) id h = ground (arith, set_shape-is_recorded rows id)

  stays_announced :
      (ans : Answers) (id : ℤ) (shape now : SpendShape) (rows : List Spend) (st : Watch)
      → is_recorded meta m rows ≡ true
      → is_recorded meta m
          (announce m id meta shape
            (follow_commitment ans id m now (record st { spends = rows }))).spends
        ≡ true
  stays_announced ans id shape now rows st h =
      rw
        (
          spends-announce m.target.kind m id meta shape
              (follow_commitment ans id m now (record st { spends = rows })),
          spends-follow_commitment ans id m now (record st { spends = rows }),
        )
        h

  pub record_match-stays :
      (ans : Answers) (n : Found) (st : Watch)
      → is_recorded meta m st.spends ≡ true
      → is_recorded meta m (record_match ans meta n st).1.spends ≡ true
  record_match-stays ans n st h =
      keeps_record_match (λ rows. is_recorded meta m rows ≡ true) ans meta
        (λ rows sp k. record_spend-is_recorded ans.new_id rows sp k) set_status-is_recorded
        set_shape-is_recorded n st h

  find-is_recorded :
      (sp row : Spend) (rows : List Spend)
      → find_spend sp rows ≡ some row
      → records meta m row ≡ true
      → is_recorded meta m rows ≡ true
  unfolding find_spend
  find-is_recorded sp row [] e h = cc
  find-is_recorded sp row (r ∷ rows) e h = elim (some_if (same_spend r sp) e) [
    | inl (t, f) ↦ rw (f, h) refl
    | inr f ↦ let k = find-is_recorded sp row rows f h in ground arith
  ]

  set_found-is_recorded :
      (sp row : Spend) (rows : List Spend)
      → find_spend sp rows ≡ some row
      → same_spend row (confirmed_spend m meta sp.shape) ≡ true
      → is_recorded meta m (set_status row.id confirmed (some meta.hash) meta.height rows) ≡ true
  unfolding find_spend set_status
  set_found-is_recorded sp row [] e h = cc
  set_found-is_recorded sp row (r ∷ rows) e h = elim (some_if (same_spend r sp) e) [
    | inl (t, f) ↦ rw f (let k = eqb_ℤ_self row.id in let j = ==_self meta.hash in ground arith)
    | inr f ↦ let k = set_found-is_recorded sp row rows f h in ground arith
  ]

  module _ (ans : Answers) (shape : SpendShape) where
    saved-is_recorded :
        (id : ℤ) (st : Watch)
        → is_recorded meta m
            (after_saving ans meta m shape
              ((id, false), st.spends ++ record (confirmed_spend m meta shape) { id = id } ∷ [])
              st).1.spends
          ≡ true
    saved-is_recorded id st =
        keeps_after_saving (λ rows. is_recorded meta m rows ≡ true) ans meta
          (λ rows sp k. record_spend-is_recorded ans.new_id rows sp k) set_status-is_recorded
          set_shape-is_recorded m shape
          ((id, false), st.spends ++ record (confirmed_spend m meta shape) { id = id } ∷ []) st
          (new-is_recorded st.spends (record (confirmed_spend m meta shape) { id = id })
            (let k = ==_self meta.hash in ground arith))

    -- Where there is no error, the spend is recorded.
    IsSettled : Option Bool × Watch → Type 0
    IsSettled r = (b : Bool) → r.0 ≡ some b → is_recorded meta m r.1.spends ≡ true

    none-IsSettled : (id : ℤ) (st : Watch) → IsSettled (confirm_found ans id m meta shape none st)
    unfolding confirm_found IsSettled
    none-IsSettled id st b g = cc

    module _ (row sp : Spend) (st : Watch) (e : find_spend sp st.spends ≡ some row)
        (h : same_spend row (confirmed_spend m meta sp.shape) ≡ true) where
      confirm_rows-IsSettled :
          (o : Option (List Spend))
          → update_status ans row.id meta st.spends ≡ o
          → IsSettled (confirm_rows ans row.id m meta shape row o st)
      unfolding confirm_rows update_status update_spend_status IsSettled
      confirm_rows-IsSettled none f b g = cc
      confirm_rows-IsSettled (some rows) f b g =
          stays_announced ans row.id shape row.shape rows st (
            subst (λ (rs : List Spend). is_recorded meta m rs ≡ true)
              (some_branch _ (some_chosen (ans.updates_status row.id) f)).1
              (set_found-is_recorded sp row st.spends e h))

      confirm_row-IsSettled : IsSettled (confirm_found ans row.id m meta shape (some row) st)
      unfolding confirm_found IsSettled
      confirm_row-IsSettled =
          if_either IsSettled (confirmed_in meta row)
            (λ t b g. find-is_recorded sp row st.spends e (ground arith))
            (λ t. confirm_rows-IsSettled (update_status ans row.id meta st.spends) refl)

      confirm_read-IsSettled :
          HaveDistinctIds st.spends
          → IsSettled (confirm_found ans row.id m meta shape (read_spend ans row.id st.spends) st)
      unfolding read_spend
      confirm_read-IsSettled d =
          if_either (λ (o : Option Spend). IsSettled (confirm_found ans row.id m meta shape o st))
            (ans.reads_spend row.id)
            (λ t. rw (get_spend-found sp row st.spends d e) confirm_row-IsSettled)
            (λ t. none-IsSettled row.id st)

    saved-IsSettled :
        (o : Option Spend) (st : Watch)
        → HaveDistinctIds st.spends
        → find_spend (confirmed_spend m meta shape) st.spends ≡ o
        → IsSettled (
            after_saving ans meta m shape
              (record_found ans.new_id st.spends (confirmed_spend m meta shape) o)
              st)
    unfolding after_saving record_found IsSettled
    saved-IsSettled (some row) st d e =
        confirm_read-IsSettled row (confirmed_spend m meta shape) st e
          (find_spend-same (confirmed_spend m meta shape) row st.spends e) d
    saved-IsSettled none st d e = λ b g. saved-is_recorded (ans.new_id st.spends) st

    match-IsSettled :
        (st : Watch)
        → HaveDistinctIds st.spends
        → IsSettled (
            after_saving ans meta m shape
              (record_spend ans.new_id st.spends (confirmed_spend m meta shape))
              st)
    unfolding record_spend
    match-IsSettled st d =
        saved-IsSettled (find_spend (confirmed_spend m meta shape) st.spends) st d refl

  record_match-IsSettled :
      (ans : Answers) (st : Watch)
      → vout_in_range m ≡ true
      → HaveDistinctIds st.spends
      → IsSettled ans (shape_of ans.channels meta.height m) (record_match ans meta m st)
  unfolding record_match IsSettled
  record_match-IsSettled ans st v d =
      let shape = shape_of ans.channels meta.height m in
      rw v (
        if_either (IsSettled ans shape) (ans.saves_spend (confirmed_spend m meta shape))
          (λ e. match-IsSettled ans shape st d) (λ e b g. cc))

  pub record_match-is_recorded :
      (ans : Answers) (st : Watch) (b : Bool)
      → HaveDistinctIds st.spends
      → (record_match ans meta m st).0 ≡ some b
      → vout_in_range m ≡ true
      → is_recorded meta m (record_match ans meta m st).1.spends ≡ true
  unfolding IsSettled
  record_match-is_recorded ans st b d e v = record_match-IsSettled ans st v d b e
