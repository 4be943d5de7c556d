-- ===== src/Watcher/Answered.antt =====
-- internal/watcher/reorg.go: an attempt at a block whose every call is answered succeeds, whatever
-- the attempts before it did.
use forktower.Common.{
  ◌≡◌, refl, sym, subst, ℕ, zero, suc, ◌+◌, ◌<◌, Bool, true, false, Option, none, some, List, [],
  ◌∷◌, any, arith, Option-cases, Bool-cases, if_either, is_some, inl, inr, ℤ, if◌then◌else◌,
}
use forktower.ChainView.Types.{BlockMeta}
use forktower.Store.Types.{SpendShape, confirmed, commitment_revoked}
use forktower.Store.Spends.{Spend, find_spend, record_found, record_spend, update_spend_status}
use forktower.Store.SpendLaws.{
  has_id, HaveDistinctIds, GivesNewIds, find_spend-id, get_spend-found,
  record_spend-HaveDistinctIds, set_status-HaveDistinctIds, set_shape-HaveDistinctIds,
}
use forktower.Watcher.Types.{Tx, Target, Found}
use forktower.Watcher.Scan.{scan_block}
use forktower.Watcher.State.{Watch, Answers}
use forktower.Watcher.Record.{
  shape_of, read_spend, confirmed_in, confirm_rows, update_status, confirm_found, confirmed_spend,
  after_saving, vout_in_range, record_match, record_matches,
}
use forktower.Watcher.Blocks.{
  rebuild, max_same_passes, scan_passes, scan_read, scan_if_possible, process_watched,
  process_block, attempts,
}
use forktower.Watcher.Keeping.{keeps_process_block, spends-rebuild}
use forktower.Watcher.Settled.{
  record_match-HaveDistinctIds, record_matches-HaveDistinctIds, record_matches-next,
}

-- Every call about the block is answered without an error.
pub record AllAnswered (ans : Answers) (meta : BlockMeta) : Type 0 where
  pub matches : (ts : List Target) → is_some (ans.match_block meta.hash ts) ≡ true
  pub reads : is_some (ans.block meta.hash) ≡ true
  pub saves : (sp : Spend) → ans.saves_spend sp ≡ true
  pub reads_spends : (id : ℤ) → ans.reads_spend id ≡ true
  pub updates : (id : ℤ) → ans.updates_status id ≡ true

module _ (ans : Answers) (meta : BlockMeta) (a : AllAnswered ans meta)
    (g : GivesNewIds ans.new_id) where
  Succeeds : Option Bool × Watch → Type 0
  Succeeds r = is_some r.0 ≡ true

  update_status-is_some :
      (id : ℤ) (rows : List Spend)
      → any (has_id id) rows ≡ true
      → is_some (update_status ans id meta rows) ≡ true
  unfolding update_status update_spend_status
  update_status-is_some id rows h = rw (a.updates id, h) refl

  confirm_rows-Succeeds :
      (id : ℤ) (m : Found) (shape : SpendShape) (sp : Spend) (o : Option (List Spend)) (st : Watch)
      → is_some o ≡ true
      → Succeeds (confirm_rows ans id m meta shape sp o st)
  unfolding confirm_rows Succeeds
  confirm_rows-Succeeds id m shape sp none st h = h
  confirm_rows-Succeeds id m shape sp (some rows) st h = refl

  module _ (m : Found) (shape : SpendShape) (sp row : Spend) (st : Watch)
      (d : HaveDistinctIds st.spends) (e : find_spend sp st.spends ≡ some row) where
    confirm_found-Succeeds : Succeeds (confirm_found ans row.id m meta shape (some row) st)
    unfolding confirm_found Succeeds
    confirm_found-Succeeds =
        if_either Succeeds (confirmed_in meta row) (λ t. refl)
          (λ t.
            confirm_rows-Succeeds row.id m shape row (update_status ans row.id meta st.spends) st
              (update_status-is_some row.id st.spends (find_spend-id sp row st.spends e)))

    confirm_read-Succeeds :
        Succeeds (confirm_found ans row.id m meta shape (read_spend ans row.id st.spends) st)
    unfolding read_spend
    confirm_read-Succeeds =
        rw (a.reads_spends row.id, get_spend-found sp row st.spends d e) confirm_found-Succeeds

  saved-Succeeds :
      (m : Found) (shape : SpendShape) (sp : Spend) (o : Option Spend) (st : Watch)
      → HaveDistinctIds st.spends
      → find_spend sp st.spends ≡ o
      → Succeeds (after_saving ans meta m shape (record_found ans.new_id st.spends sp o) st)
  unfolding after_saving record_found Succeeds
  saved-Succeeds m shape sp none st d e = refl
  saved-Succeeds m shape sp (some row) st d e = confirm_read-Succeeds m shape sp row st d e

  record_match-Succeeds :
      (m : Found) (st : Watch) → HaveDistinctIds st.spends → Succeeds (record_match ans meta m st)
  unfolding record_match record_spend Succeeds
  record_match-Succeeds m st d =
      let shape = shape_of ans.channels meta.height m in
      let sp = confirmed_spend m meta shape in
      if_either Succeeds (vout_in_range m)
        (λ e.
          if_either Succeeds (ans.saves_spend sp)
            (λ f. saved-Succeeds m shape sp (find_spend sp st.spends) st d refl)
            (λ f. let k = a.saves sp in cc))
        (λ e. refl)

  record_matches-Succeeds :
      (ms : List Found) (fresh : ℕ) (st : Watch)
      → HaveDistinctIds st.spends
      → is_some (record_matches ans meta ms fresh st).0 ≡ true
  unfolding record_matches Succeeds
  record_matches-Succeeds [] fresh st d = refl
  record_matches-Succeeds (m ∷ ms) fresh st d = elim (Option-cases (record_match ans meta m st).0) [
    | inl e ↦ let k = record_match-Succeeds m st d in cc
    | inr (b, e) ↦
        subst (λ (r : Option ℕ × Watch). is_some r.0 ≡ true)
          (sym (record_matches-next ans meta m ms fresh st b e))
          (record_matches-Succeeds ms (if b then suc fresh else fresh)
            (record_match ans meta m st).1 (record_match-HaveDistinctIds ans meta m st g d))
  ]

  start-HaveDistinctIds :
      (again : Bool) (st : Watch)
      → HaveDistinctIds st.spends
      → HaveDistinctIds (if again then rebuild ans st else st).spends
  start-HaveDistinctIds true st d = subst HaveDistinctIds (sym (spends-rebuild ans st)) d
  start-HaveDistinctIds false st d = d

  scan_passes-succeeds :
      (txs : List Tx) (again : Bool) (n : ℕ) (st : Watch)
      → HaveDistinctIds st.spends
      → (scan_passes ans meta txs again n st).0 ≡ true
  unfolding scan_passes
  scan_passes-succeeds txs again zero st d = refl
  scan_passes-succeeds txs again (suc n) st d =
      let start = if again then rebuild ans st else st in
      let d' = start-HaveDistinctIds again st d in
      let k = record_matches-Succeeds (scan_block start.watched txs) 0 start d' in
      elim (Option-cases (record_matches ans meta (scan_block start.watched txs) 0 start).0) [
        | inl e ↦ cc
        | inr (zero, e) ↦ rw (e, scan_passes) refl
        | inr (suc j, e) ↦
            rw (e, scan_passes)
              (scan_passes-succeeds txs true n
                (record_matches ans meta (scan_block start.watched txs) 0 start).1
                (record_matches-HaveDistinctIds ans meta (scan_block start.watched txs) 0 start g
                  d'))
      ]

  scan_if_possible-succeeds :
      (o : Option Bool) (b : Option (List Tx)) (st : Watch)
      → ans.block meta.hash ≡ b
      → is_some o ≡ true
      → is_some b ≡ true
      → HaveDistinctIds st.spends
      → (scan_if_possible ans meta o st).0 ≡ true
  unfolding scan_if_possible scan_read
  scan_if_possible-succeeds none b st e h k d = cc
  scan_if_possible-succeeds (some false) b st e h k d = refl
  scan_if_possible-succeeds (some true) none st e h k d = cc
  scan_if_possible-succeeds (some true) (some txs) st e h k d =
      rw (e, scan_read) (scan_passes-succeeds txs false max_same_passes st d)

  watched-succeeds :
      (ts : List Target) (st : Watch)
      → HaveDistinctIds st.spends
      → (process_watched ans meta ts st).0 ≡ true
  unfolding process_watched
  watched-succeeds [] st d = refl
  watched-succeeds (t ∷ ts) st d =
      scan_if_possible-succeeds (ans.match_block meta.hash (t ∷ ts)) (ans.block meta.hash) st refl
        (a.matches (t ∷ ts)) a.reads d

  pub process_block-succeeds :
      (st : Watch) → HaveDistinctIds st.spends → (process_block ans meta st).0 ≡ true
  process_block-succeeds st d = watched-succeeds st.watched st d

-- No attempt, failed or not, gives two rows one id.
pub process_block-HaveDistinctIds :
    (ans : Answers) (meta : BlockMeta) (st : Watch)
    → GivesNewIds ans.new_id
    → HaveDistinctIds st.spends
    → HaveDistinctIds (process_block ans meta st).1.spends
process_block-HaveDistinctIds ans meta st g d =
    keeps_process_block HaveDistinctIds ans meta
      (λ rows sp k. record_spend-HaveDistinctIds ans.new_id rows sp g k)
      (λ rows id k. set_status-HaveDistinctIds id confirmed (some meta.hash) meta.height rows k)
      (λ rows id k. set_shape-HaveDistinctIds id commitment_revoked rows k) st d

module _ (answers : ℕ → Answers) (meta : BlockMeta)
    (g : (n : ℕ) → GivesNewIds (answers n).new_id) where
  pub attempts-succeed :
      (k attempt left : ℕ) (st : Watch)
      → k < left
      → AllAnswered (answers (attempt + k)) meta
      → HaveDistinctIds st.spends
      → (attempts answers meta attempt left st).0 ≡ true
  unfolding attempts
  attempts-succeed k attempt zero st l a d = absurd (omega arith)
  attempts-succeed zero attempt (suc left) st l a d =
      rw
        (
          process_block-succeeds (answers attempt) meta
              (subst (λ (n : ℕ). AllAnswered (answers n) meta) (omega arith) a) (g attempt) st d,
          attempts,
        )
        (process_block-succeeds (answers attempt) meta
          (subst (λ (n : ℕ). AllAnswered (answers n) meta) (omega arith) a) (g attempt) st d)
  attempts-succeed (suc k) attempt (suc left) st l a d =
      elim (Bool-cases (process_block (answers attempt) meta st).0) [
        | inl e ↦ rw (e, attempts) e
        | inr e ↦
            rw (e, attempts)
              (attempts-succeed k (suc attempt) left (process_block (answers attempt) meta st).1
                (omega arith) (subst (λ (n : ℕ). AllAnswered (answers n) meta) (omega arith) a)
                (process_block-HaveDistinctIds (answers attempt) meta st (g attempt) d))
      ]
