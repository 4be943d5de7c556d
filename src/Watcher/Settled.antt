-- ===== src/Watcher/Settled.antt =====
-- internal/watcher/reorg.go: that every match of a scan is recorded where the scan is processed
-- without an error.
use forktower.Common.{
  ◌≡◌, refl, sym, subst, ℕ, suc, Bool, true, false, inl, inr, Option, none, some, List, [], ◌∷◌,
  All, Option-cases, if◌then◌else◌,
}
use forktower.ChainView.Types.{BlockMeta}
use forktower.Store.Types.{confirmed, commitment_revoked}
use forktower.Store.Spends.{Spend}
use forktower.Store.SpendLaws.{
  HaveDistinctIds, GivesNewIds, record_spend-HaveDistinctIds, set_status-HaveDistinctIds,
  set_shape-HaveDistinctIds,
}
use forktower.Watcher.Types.{Found}
use forktower.Watcher.State.{Watch, Answers}
use forktower.Watcher.Record.{vout_in_range, record_match, record_matches}
use forktower.Watcher.Keeping.{keeps_record_match, keeps_record_matches}
use forktower.Watcher.Recorded.{
  is_recorded, record_spend-is_recorded, set_status-is_recorded, set_shape-is_recorded,
  record_match-is_recorded,
}

-- Every match of a list is recorded, where its index fits the column.
abbrev pub IsDone : BlockMeta → List Spend → Found → Type 0
IsDone meta rows m = vout_in_range m ≡ true → is_recorded meta m rows ≡ true

module _ (ans : Answers) (meta : BlockMeta) where
  pub record_match-HaveDistinctIds :
      (m : Found) (st : Watch)
      → GivesNewIds ans.new_id
      → HaveDistinctIds st.spends
      → HaveDistinctIds (record_match ans meta m st).1.spends
  record_match-HaveDistinctIds m st g d =
      keeps_record_match HaveDistinctIds ans meta
        (λ rows sp k. record_spend-HaveDistinctIds ans.new_id rows sp g k)
        (λ rows id k. set_status-HaveDistinctIds id confirmed (some meta.hash) meta.height rows k)
        (λ rows id k. set_shape-HaveDistinctIds id commitment_revoked rows k) m st d

  record_match-IsDone :
      (m : Found) (st : Watch) (b : Bool)
      → HaveDistinctIds st.spends
      → (record_match ans meta m st).0 ≡ some b
      → IsDone meta (record_match ans meta m st).1.spends m
  record_match-IsDone m st b d e v = record_match-is_recorded meta m ans st b d e v

  record_matches-stays :
      (m : Found) (ms : List Found) (fresh : ℕ) (st : Watch)
      → IsDone meta st.spends m
      → IsDone meta (record_matches ans meta ms fresh st).1.spends m
  record_matches-stays m ms fresh st h v =
      keeps_record_matches (λ rows. is_recorded meta m rows ≡ true) ans meta
        (λ rows sp k. record_spend-is_recorded meta m ans.new_id rows sp k)
        (set_status-is_recorded meta m) (set_shape-is_recorded meta m) ms fresh st (h v)

  pub record_matches-failed :
      (m : Found) (ms : List Found) (fresh : ℕ) (st : Watch)
      → (record_match ans meta m st).0 ≡ none
      → record_matches ans meta (m ∷ ms) fresh st ≡ (none, (record_match ans meta m st).1)
  unfolding record_matches
  record_matches-failed m ms fresh st e = rw (e, record_matches) refl

  pub record_matches-next :
      (m : Found) (ms : List Found) (fresh : ℕ) (st : Watch) (b : Bool)
      → (record_match ans meta m st).0 ≡ some b
      → record_matches ans meta (m ∷ ms) fresh st
        ≡ record_matches ans meta ms (if b then suc fresh else fresh) (record_match ans meta m st).1
  unfolding record_matches
  record_matches-next m ms fresh st true e = rw (e, record_matches) refl
  record_matches-next m ms fresh st false e = rw (e, record_matches) refl

  pub record_matches-IsDone :
      (ms : List Found) (fresh n : ℕ) (st : Watch)
      → GivesNewIds ans.new_id
      → HaveDistinctIds st.spends
      → (record_matches ans meta ms fresh st).0 ≡ some n
      → All (IsDone meta (record_matches ans meta ms fresh st).1.spends) ms
  record_matches-IsDone [] fresh n st g d = λ e. tt
  record_matches-IsDone (m ∷ ms) fresh n st g d =
      let after = (record_match ans meta m st).1 in
      let goal = λ (r : Option ℕ × Watch). r.0 ≡ some n → All (IsDone meta r.1.spends) (m ∷ ms) in
      let d' = record_match-HaveDistinctIds m st g d in
      elim (Option-cases (record_match ans meta m st).0) [
        | inl e ↦ subst goal (sym (record_matches-failed m ms fresh st e)) (λ f. cc)
        | inr (b, e) ↦ subst goal (sym (record_matches-next m ms fresh st b e)) (λ f. (
          record_matches-stays m ms (if b then suc fresh else fresh) after
              (record_match-IsDone m st b d e),
          record_matches-IsDone ms (if b then suc fresh else fresh) n after g d' f,
        ))
      ]

  pub record_matches-HaveDistinctIds :
      (ms : List Found) (fresh : ℕ) (st : Watch)
      → GivesNewIds ans.new_id
      → HaveDistinctIds st.spends
      → HaveDistinctIds (record_matches ans meta ms fresh st).1.spends
  record_matches-HaveDistinctIds ms fresh st g d =
      keeps_record_matches HaveDistinctIds ans meta
        (λ rows sp k. record_spend-HaveDistinctIds ans.new_id rows sp g k)
        (λ rows id k. set_status-HaveDistinctIds id confirmed (some meta.hash) meta.height rows k)
        (λ rows id k. set_shape-HaveDistinctIds id commitment_revoked rows k) ms fresh st d
