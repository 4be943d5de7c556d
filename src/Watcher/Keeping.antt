-- ===== src/Watcher/Keeping.antt =====
-- internal/watcher/reorg.go: what every change to the rows of spends keeps is kept by the processing
-- of a block.
use forktower.Common.{
  ◌≡◌, refl, sym, ℕ, zero, suc, Bool, true, false, not, ◌&&◌, Option, none, some, List, [], ◌∷◌, ℤ,
  pos, eqb_ℤ, Option-cases, if_either, some_branch, some_chosen, subst, inl, inr, if◌then◌else◌,
}
use forktower.ChainView.Types.{BlockMeta}
use forktower.Store.Types.{SpendShape, confirmed, commitment_revoked}
use forktower.Store.Spends.{
  Spend, record_spend, set_status, update_spend_status, set_shape, update_spend_shape,
  WatchOutpoint,
}
use forktower.Watcher.Types.{Tx, Target, Found, Kind, funding, commitment_output}
use forktower.Watcher.Scan.{scan_block}
use forktower.Watcher.State.{Watch, Answers, say}
use forktower.Watcher.Record.{
  shape_of, watch_outputs, is_commitment, follow_commitment, read_spend, with_rows, is_justice,
  is_commitment_unknown, resolve_found, resolve_source, announce_by_kind, announce, confirmed_in,
  confirm_rows, update_status, confirm_found, confirmed_spend, after_saving, vout_in_range,
  record_match, record_matches, commitment_outputs,
}
use forktower.Watcher.Blocks.{
  rebuild_from, rebuild, max_same_passes, scan_passes, scan_read, scan_if_possible, process_watched,
  process_block,
}

-- Following a commitment and announcing a spend leave the rows of spends alone.
pub spends-watch_outputs :
    (ans : Answers) (os : List WatchOutpoint) (st : Watch)
    → (watch_outputs ans os st).spends ≡ st.spends
unfolding watch_outputs
spends-watch_outputs ans [] st = refl
spends-watch_outputs ans (o ∷ os) st =
    if_either (λ (w : Watch). (watch_outputs ans os w).spends ≡ st.spends) (ans.adds_outpoint o)
      (λ e. spends-watch_outputs ans os _) (λ e. spends-watch_outputs ans os st)

pub spends-follow_commitment :
    (ans : Answers) (id : ℤ) (m : Found) (shape : SpendShape) (st : Watch)
    → (follow_commitment ans id m shape st).spends ≡ st.spends
unfolding follow_commitment
spends-follow_commitment ans id m shape st =
    if_either (λ (w : Watch). w.spends ≡ st.spends) (is_commitment shape)
      (λ e. spends-watch_outputs ans (commitment_outputs m.tx.id id 0 m.tx.outputs) st) (λ e. refl)

pub spends-announce :
    (k : Kind) (m : Found) (id : ℤ) (meta : BlockMeta) (shape : SpendShape) (st : Watch)
    → (announce_by_kind k m id meta shape st).spends ≡ st.spends
unfolding announce_by_kind say
spends-announce funding m id meta shape st = refl
spends-announce commitment_output m id meta shape st = refl

pub spends-rebuild : (ans : Answers) (st : Watch) → (rebuild ans st).spends ≡ st.spends
unfolding rebuild rebuild_from
spends-rebuild ans st =
    if_either (λ (w : Watch). w.spends ≡ st.spends) ans.lists_outpoints
      (λ e. elim (Option-cases ans.channels) [ inl f ↦ rw f refl | inr (cs, f) ↦ rw f refl ])
      (λ e. refl)

module _ (P : List Spend → Type 0) (ans : Answers) (meta : BlockMeta)
    (on_record : (rows : List Spend) (sp : Spend) → P rows → P (record_spend ans.new_id rows sp).1)
    (on_status : (rows : List Spend) (id : ℤ)
      → P rows
      → P (set_status id confirmed (some meta.hash) meta.height rows))
    (on_shape : (rows : List Spend) (id : ℤ)
      → P rows
      → P (set_shape id commitment_revoked rows)) where
  keeps_shape :
      (id : ℤ) (rows rows' : List Spend)
      → P rows
      → update_spend_shape id commitment_revoked rows ≡ some rows'
      → P rows'
  unfolding update_spend_shape
  keeps_shape id rows rows' h e = subst P (some_branch _ e).1 (on_shape rows id h)

  keeps_with_rows :
      (id : ℤ) (o : Option (List Spend)) (st : Watch)
      → update_spend_shape id commitment_revoked st.spends ≡ o
      → P st.spends
      → P (with_rows o st).spends
  unfolding with_rows
  keeps_with_rows id none st e h = h
  keeps_with_rows id (some rows) st e h = keeps_shape id st.spends rows h e

  keeps_resolve_found :
      (o : Option Spend) (st : Watch) → P st.spends → P (resolve_found ans o st).spends
  unfolding resolve_found
  keeps_resolve_found none st h = h
  keeps_resolve_found (some source) st h =
      if_either (λ (w : Watch). P w.spends)
        (is_commitment_unknown source.shape && ans.updates_shape source.id)
        (λ e.
          keeps_with_rows source.id (update_spend_shape source.id commitment_revoked st.spends) st
            refl h)
        (λ e. h)

  keeps_resolve_source :
      (m : Found) (shape : SpendShape) (st : Watch)
      → P st.spends
      → P (resolve_source ans m shape st).spends
  unfolding resolve_source
  keeps_resolve_source m shape st h =
      if_either (λ (w : Watch). P w.spends)
        (is_justice shape && not (eqb_ℤ m.target.source_spend_event_id (pos 0)))
        (λ e. keeps_resolve_found (read_spend ans m.target.source_spend_event_id st.spends) st h)
        (λ e. h)

  pub keeps_follow :
      (id : ℤ) (m : Found) (shape : SpendShape) (st : Watch)
      → P st.spends
      → P (follow_commitment ans id m shape st).spends
  keeps_follow id m shape st h = subst P (sym (spends-follow_commitment ans id m shape st)) h

  pub keeps_announce :
      (m : Found) (id : ℤ) (shape : SpendShape) (st : Watch)
      → P st.spends
      → P (announce m id meta shape st).spends
  keeps_announce m id shape st h =
      subst P (sym (spends-announce m.target.kind m id meta shape st)) h

  keeps_update_status :
      (id : ℤ) (rows rows' : List Spend)
      → P rows
      → update_status ans id meta rows ≡ some rows'
      → P rows'
  unfolding update_status update_spend_status
  keeps_update_status id rows rows' h e =
      subst P (some_branch _ (some_chosen (ans.updates_status id) e)).1 (on_status rows id h)

  keeps_confirm_rows :
      (id : ℤ) (m : Found) (shape : SpendShape) (sp : Spend) (o : Option (List Spend)) (st : Watch)
      → update_status ans id meta st.spends ≡ o
      → P st.spends
      → P (confirm_rows ans id m meta shape sp o st).1.spends
  unfolding confirm_rows
  keeps_confirm_rows id m shape sp none st e h = h
  keeps_confirm_rows id m shape sp (some rows) st e h =
      keeps_announce m id shape (follow_commitment ans id m sp.shape (record st { spends = rows }))
        (keeps_follow id m sp.shape (record st { spends = rows })
          (keeps_update_status id st.spends rows h e))

  keeps_confirm_found :
      (id : ℤ) (m : Found) (shape : SpendShape) (o : Option Spend) (st : Watch)
      → P st.spends
      → P (confirm_found ans id m meta shape o st).1.spends
  unfolding confirm_found
  keeps_confirm_found id m shape none st h = h
  keeps_confirm_found id m shape (some sp) st h =
      if_either (λ (r : Option Bool × Watch). P r.1.spends) (confirmed_in meta sp) (λ e. h)
        (λ e. keeps_confirm_rows id m shape sp (update_status ans id meta st.spends) st refl h)

  pub keeps_after_saving :
      (m : Found) (shape : SpendShape) (r : (ℤ × Bool) × List Spend) (st : Watch)
      → P r.1
      → P (after_saving ans meta m shape r st).1.spends
  unfolding after_saving
  keeps_after_saving m shape ((id, true), rows) st h =
      keeps_confirm_found id m shape (read_spend ans id rows) (record st { spends = rows }) h
  keeps_after_saving m shape ((id, false), rows) st h =
      keeps_announce m id shape
        (resolve_source ans m shape
          (follow_commitment ans id m shape (record st { spends = rows })))
        (keeps_resolve_source m shape
          (follow_commitment ans id m shape (record st { spends = rows }))
          (keeps_follow id m shape (record st { spends = rows }) h))

  pub keeps_record_match :
      (m : Found) (st : Watch) → P st.spends → P (record_match ans meta m st).1.spends
  unfolding record_match
  keeps_record_match m st h =
      let shape = shape_of ans.channels meta.height m in
      let sp = confirmed_spend m meta shape in
      if_either (λ (r : Option Bool × Watch). P r.1.spends) (vout_in_range m)
        (λ e.
          if_either (λ (r : Option Bool × Watch). P r.1.spends) (ans.saves_spend sp)
            (λ f.
              keeps_after_saving m shape (record_spend ans.new_id st.spends sp) st
                (on_record st.spends sp h))
            (λ f. h))
        (λ e. h)

  pub keeps_record_matches :
      (ms : List Found) (fresh : ℕ) (st : Watch)
      → P st.spends
      → P (record_matches ans meta ms fresh st).1.spends
  unfolding record_matches
  keeps_record_matches [] fresh st h = h
  keeps_record_matches (m ∷ ms) fresh st h =
      let k = keeps_record_match m st h in
      elim (Option-cases (record_match ans meta m st).0) [
        | inl e ↦ rw (e, record_matches) k
        | inr (true, e) ↦
            rw (e, record_matches)
              (keeps_record_matches ms (suc fresh) (record_match ans meta m st).1 k)
        | inr (false, e) ↦
            rw (e, record_matches) (keeps_record_matches ms fresh (record_match ans meta m st).1 k)
      ]

  keeps_rebuild : (st : Watch) → P st.spends → P (rebuild ans st).spends
  keeps_rebuild st h = subst P (sym (spends-rebuild ans st)) h

  pub keeps_scan_passes :
      (txs : List Tx) (again : Bool) (n : ℕ) (st : Watch)
      → P st.spends
      → P (scan_passes ans meta txs again n st).1.spends
  unfolding scan_passes
  keeps_scan_passes txs again zero st h = h
  keeps_scan_passes txs again (suc n) st h =
      let start = if again then rebuild ans st else st in
      let k =
        keeps_record_matches (scan_block start.watched txs) 0 start
          (if_either (λ (w : Watch). P w.spends) again (λ e. keeps_rebuild st h) (λ e. h)) in
      elim (Option-cases (record_matches ans meta (scan_block start.watched txs) 0 start).0) [
        | inl e ↦ rw (e, scan_passes) k
        | inr (zero, e) ↦ rw (e, scan_passes) k
        | inr (suc j, e) ↦
            rw (e, scan_passes)
              (keeps_scan_passes txs true n
                (record_matches ans meta (scan_block start.watched txs) 0 start).1 k)
      ]

  keeps_scan_read :
      (o : Option (List Tx)) (st : Watch) → P st.spends → P (scan_read ans meta o st).1.spends
  unfolding scan_read
  keeps_scan_read none st h = h
  keeps_scan_read (some txs) st h = keeps_scan_passes txs false max_same_passes st h

  keeps_scan_if_possible :
      (o : Option Bool) (st : Watch) → P st.spends → P (scan_if_possible ans meta o st).1.spends
  unfolding scan_if_possible
  keeps_scan_if_possible none st h = h
  keeps_scan_if_possible (some false) st h = h
  keeps_scan_if_possible (some true) st h = keeps_scan_read (ans.block meta.hash) st h

  keeps_process_watched :
      (ts : List Target) (st : Watch) → P st.spends → P (process_watched ans meta ts st).1.spends
  unfolding process_watched
  keeps_process_watched [] st h = h
  keeps_process_watched (t ∷ ts) st h =
      keeps_scan_if_possible (ans.match_block meta.hash (t ∷ ts)) st h

  pub keeps_process_block : (st : Watch) → P st.spends → P (process_block ans meta st).1.spends
  keeps_process_block st h = keeps_process_watched st.watched st h
