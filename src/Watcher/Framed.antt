-- ===== src/Watcher/Framed.antt =====
-- internal/watcher/reorg.go: reading a block, however it ends, moves neither the mark nor the record
-- of progress.
use forktower.Common.{
  ◌≡◌, refl, ap, ℕ, zero, suc, Bool, true, false, not, ◌&&◌, Option, none, some, List, [], ◌∷◌, ℤ,
  pos, eqb_ℤ, Option-cases, Bool-cases, if_either, inl, inr, if◌then◌else◌,
}
use forktower.ChainView.Types.{BlockRef, BlockMeta}
use forktower.Store.Types.{SpendShape, commitment_revoked}
use forktower.Store.Spends.{Spend, record_spend, update_spend_shape, WatchOutpoint}
use forktower.Watcher.Types.{Tx, Target, Found, Kind, funding, commitment_output}
use forktower.Watcher.Scan.{scan_block}
use forktower.Watcher.State.{Watch, Progress, Answers, say}
use forktower.Watcher.Record.{
  shape_of, watch_outputs, is_commitment, follow_commitment, read_spend, with_rows, is_justice,
  is_commitment_unknown, resolve_found, resolve_source, announce_by_kind, confirmed_in,
  confirm_rows, update_status, confirm_found, confirmed_spend, after_saving, vout_in_range,
  record_match, record_matches, commitment_outputs,
}
use forktower.Watcher.Blocks.{
  rebuild_from, rebuild, max_same_passes, scan_passes, scan_read, scan_if_possible, process_watched,
  process_block, attempts,
}

-- The mark and the progress are those given.
SameMark : BlockRef × Progress → Watch → Type 0
SameMark k st = (st.last, st.progress) ≡ k

module _ (k : BlockRef × Progress) (ans : Answers) (meta : BlockMeta) where
  outputs-SameMark :
      (os : List WatchOutpoint) (st : Watch) → SameMark k st → SameMark k (watch_outputs ans os st)
  unfolding watch_outputs SameMark
  outputs-SameMark [] st h = h
  outputs-SameMark (o ∷ os) st h =
      if_either (λ (w : Watch). SameMark k (watch_outputs ans os w)) (ans.adds_outpoint o)
        (λ e. outputs-SameMark os _ h) (λ e. outputs-SameMark os st h)

  follow-SameMark :
      (id : ℤ) (m : Found) (shape : SpendShape) (st : Watch)
      → SameMark k st
      → SameMark k (follow_commitment ans id m shape st)
  unfolding follow_commitment
  follow-SameMark id m shape st h =
      if_either (SameMark k) (is_commitment shape)
        (λ e. outputs-SameMark (commitment_outputs m.tx.id id 0 m.tx.outputs) st h) (λ e. h)

  announce-SameMark :
      (kind : Kind) (m : Found) (id : ℤ) (shape : SpendShape) (st : Watch)
      → SameMark k st
      → SameMark k (announce_by_kind kind m id meta shape st)
  unfolding announce_by_kind say SameMark
  announce-SameMark funding m id shape st h = h
  announce-SameMark commitment_output m id shape st h = h

  with_rows-SameMark :
      (o : Option (List Spend)) (st : Watch) → SameMark k st → SameMark k (with_rows o st)
  unfolding with_rows SameMark
  with_rows-SameMark none st h = h
  with_rows-SameMark (some rows) st h = h

  resolve_found-SameMark :
      (o : Option Spend) (st : Watch) → SameMark k st → SameMark k (resolve_found ans o st)
  unfolding resolve_found
  resolve_found-SameMark none st h = h
  resolve_found-SameMark (some source) st h =
      if_either (SameMark k) (is_commitment_unknown source.shape && ans.updates_shape source.id)
        (λ e. with_rows-SameMark (update_spend_shape source.id commitment_revoked st.spends) st h)
        (λ e. h)

  resolve-SameMark :
      (m : Found) (shape : SpendShape) (st : Watch)
      → SameMark k st
      → SameMark k (resolve_source ans m shape st)
  unfolding resolve_source
  resolve-SameMark m shape st h =
      if_either (SameMark k)
        (is_justice shape && not (eqb_ℤ m.target.source_spend_event_id (pos 0)))
        (λ e. resolve_found-SameMark (read_spend ans m.target.source_spend_event_id st.spends) st h)
        (λ e. h)

  -- The state of a result keeps the mark.
  Framed : {A : Type 0} → A × Watch → Type 0
  Framed r = SameMark k r.1

  confirm_rows-Framed :
      (id : ℤ) (m : Found) (shape : SpendShape) (sp : Spend) (o : Option (List Spend)) (st : Watch)
      → SameMark k st
      → Framed (confirm_rows ans id m meta shape sp o st)
  unfolding confirm_rows Framed SameMark
  confirm_rows-Framed id m shape sp none st h = h
  confirm_rows-Framed id m shape sp (some rows) st h =
      announce-SameMark m.target.kind m id shape
        (follow_commitment ans id m sp.shape (record st { spends = rows }))
        (follow-SameMark id m sp.shape (record st { spends = rows }) h)

  confirm_found-Framed :
      (id : ℤ) (m : Found) (shape : SpendShape) (o : Option Spend) (st : Watch)
      → SameMark k st
      → Framed (confirm_found ans id m meta shape o st)
  unfolding confirm_found Framed
  confirm_found-Framed id m shape none st h = h
  confirm_found-Framed id m shape (some sp) st h =
      if_either Framed (confirmed_in meta sp) (λ e. h)
        (λ e. confirm_rows-Framed id m shape sp (update_status ans id meta st.spends) st h)

  after_saving-Framed :
      (m : Found) (shape : SpendShape) (r : (ℤ × Bool) × List Spend) (st : Watch)
      → SameMark k st
      → Framed (after_saving ans meta m shape r st)
  unfolding after_saving Framed SameMark
  after_saving-Framed m shape ((id, true), rows) st h =
      confirm_found-Framed id m shape (read_spend ans id rows) (record st { spends = rows }) h
  after_saving-Framed m shape ((id, false), rows) st h =
      announce-SameMark m.target.kind m id shape
        (resolve_source ans m shape
          (follow_commitment ans id m shape (record st { spends = rows })))
        (resolve-SameMark m shape (follow_commitment ans id m shape (record st { spends = rows }))
          (follow-SameMark id m shape (record st { spends = rows }) h))

  record_match-Framed :
      (m : Found) (st : Watch) → SameMark k st → Framed (record_match ans meta m st)
  unfolding record_match Framed
  record_match-Framed m st h =
      let shape = shape_of ans.channels meta.height m in
      let sp = confirmed_spend m meta shape in
      if_either Framed (vout_in_range m)
        (λ e.
          if_either Framed (ans.saves_spend sp)
            (λ f. after_saving-Framed m shape (record_spend ans.new_id st.spends sp) st h) (λ f. h))
        (λ e. h)

  record_matches-Framed :
      (ms : List Found) (fresh : ℕ) (st : Watch)
      → SameMark k st
      → SameMark k (record_matches ans meta ms fresh st).1
  unfolding record_matches Framed
  record_matches-Framed [] fresh st h = h
  record_matches-Framed (m ∷ ms) fresh st h =
      let j = record_match-Framed m st h in
      elim (Option-cases (record_match ans meta m st).0) [
        | inl e ↦ rw (e, record_matches) j
        | inr (true, e) ↦
            rw (e, record_matches)
              (record_matches-Framed ms (suc fresh) (record_match ans meta m st).1 j)
        | inr (false, e) ↦
            rw (e, record_matches) (record_matches-Framed ms fresh (record_match ans meta m st).1 j)
      ]

  rebuild-SameMark : (st : Watch) → SameMark k st → SameMark k (rebuild ans st)
  unfolding rebuild rebuild_from SameMark
  rebuild-SameMark st h =
      if_either (SameMark k) ans.lists_outpoints
        (λ e. elim (Option-cases ans.channels) [ inl f ↦ rw f h | inr (cs, f) ↦ rw f h ]) (λ e. h)

  scan_passes-Framed :
      (txs : List Tx) (again : Bool) (n : ℕ) (st : Watch)
      → SameMark k st
      → SameMark k (scan_passes ans meta txs again n st).1
  unfolding scan_passes
  scan_passes-Framed txs again zero st h = h
  scan_passes-Framed txs again (suc n) st h =
      let start = if again then rebuild ans st else st in
      let j =
        record_matches-Framed (scan_block start.watched txs) 0 start
          (if_either (SameMark k) again (λ e. rebuild-SameMark st h) (λ e. h)) in
      elim (Option-cases (record_matches ans meta (scan_block start.watched txs) 0 start).0) [
        | inl e ↦ rw (e, scan_passes) j
        | inr (zero, e) ↦ rw (e, scan_passes) j
        | inr (suc i, e) ↦
            rw (e, scan_passes)
              (scan_passes-Framed txs true n
                (record_matches ans meta (scan_block start.watched txs) 0 start).1 j)
      ]

  scan_read-Framed :
      (o : Option (List Tx)) (st : Watch) → SameMark k st → SameMark k (scan_read ans meta o st).1
  unfolding scan_read
  scan_read-Framed none st h = h
  scan_read-Framed (some txs) st h = scan_passes-Framed txs false max_same_passes st h

  scan_if_possible-Framed :
      (o : Option Bool) (st : Watch) → SameMark k st → SameMark k (scan_if_possible ans meta o st).1
  unfolding scan_if_possible
  scan_if_possible-Framed none st h = h
  scan_if_possible-Framed (some false) st h = h
  scan_if_possible-Framed (some true) st h = scan_read-Framed (ans.block meta.hash) st h

  watched-Framed :
      (ts : List Target) (st : Watch)
      → SameMark k st
      → SameMark k (process_watched ans meta ts st).1
  unfolding process_watched
  watched-Framed [] st h = h
  watched-Framed (t ∷ ts) st h = scan_if_possible-Framed (ans.match_block meta.hash (t ∷ ts)) st h

attempts-SameMark :
    (k : BlockRef × Progress) (answers : ℕ → Answers) (meta : BlockMeta) (attempt left : ℕ)
    (st : Watch)
    → SameMark k st
    → SameMark k (attempts answers meta attempt left st).1
unfolding attempts
attempts-SameMark k answers meta attempt zero st h = h
attempts-SameMark k answers meta attempt (suc left) st h =
    let j = watched-Framed k (answers attempt) meta st.watched st h in
    elim (Bool-cases (process_block (answers attempt) meta st).0) [
      | inl e ↦ rw (e, attempts) j
      | inr e ↦
          rw (e, attempts)
            (attempts-SameMark k answers meta (suc attempt) left
              (process_block (answers attempt) meta st).1 j)
    ]

pub last-attempts :
    (answers : ℕ → Answers) (meta : BlockMeta) (attempt left : ℕ) (st : Watch)
    → (attempts answers meta attempt left st).1.last ≡ st.last
unfolding SameMark
last-attempts answers meta attempt left st =
    ap (λ (k : BlockRef × Progress). k.0)
      (attempts-SameMark (st.last, st.progress) answers meta attempt left st refl)
