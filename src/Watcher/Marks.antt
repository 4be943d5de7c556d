-- ===== src/Watcher/Marks.antt =====
-- internal/watcher/reorg.go: where a path of blocks leaves the mark.
use forktower.Common.{
  ◌≡◌, refl, sym, ap, ◌∙◌, subst, ℕ, zero, suc, ◌+◌, ◌<◌, Bool, true, false, not, ◌||◌, List, [],
  ◌∷◌, ◌++◌, ℤ, All, Bool-cases, if_either, inl, inr,
}
use forktower.ChainView.Types.{BlockRef, BlockMeta, Hash}
use forktower.Store.SpendLaws.{HaveDistinctIds, GivesNewIds}
use forktower.Watcher.State.{Watch, Progress, Answers, say}
use forktower.Watcher.Blocks.{
  process_block, attempts, process_with_retries, commit_mark, stalled_here, stall, close_standing,
  clear_stall, ref_of, Reading, process_to,
}
use forktower.Watcher.Answered.{AllAnswered, attempts-succeed, process_block-HaveDistinctIds}
use forktower.Watcher.Attempts.{Failing, attempts-Succeeding, attempts-Failing}
use forktower.Watcher.Framed.{last-attempts}

-- The mark once these blocks have been committed in order.
unfoldable pub mark_after : List BlockMeta → BlockRef → BlockRef
mark_after [] last = last
mark_after (meta ∷ metas) last = mark_after metas (ref_of meta)

-- Nothing is left of the path and scanning is not stalled, or it is stalled at the first block left.
unfoldable pub IsStoppedAt : List BlockMeta → Progress → Type 0
IsStoppedAt [] p = p.stalled ≡ false
IsStoppedAt (meta ∷ rest) p = (p.stalled ≡ true) × (p.stalled_at ≡ meta.height)

-- An allowed attempt at the block, after others that failed, ends with no error and in this state.
pub record IsProcessed (reading : Reading) (meta : BlockMeta) (st end : Watch) : Type 0 where
  pub failed : ℕ
  pub in_time : failed < reading.block_attempts
  pub before : Watch
  pub failing : Failing (reading.answers meta.hash) meta 1 failed st before
  pub succeeds : process_block (reading.answers meta.hash (1 + failed)) meta before ≡ (true, end)

-- The blocks are processed in order, with the mark moved to each once it has been.
abbrev pub AreProcessed : Reading → List BlockMeta → Watch → Watch → Type 0
AreProcessed reading [] st end = st ≡ end
AreProcessed reading (meta ∷ metas) st end =
    (between : Watch) × IsProcessed reading meta st between
    × AreProcessed reading metas (commit_mark true (ref_of meta) between) end

-- Every allowed attempt at the first of the blocks failed, from this state; nothing if there is none.
abbrev pub IsGivenUp : Reading → List BlockMeta → Watch → Type 0
IsGivenUp reading [] st = Unit
IsGivenUp reading (meta ∷ rest) st =
    (end : Watch) × Failing (reading.answers meta.hash) meta 1 reading.block_attempts st end

-- A first part of the path has been processed and is behind the mark, and the rest, at the first
-- block of which every attempt failed, is what is left.
pub record Reached (reading : Reading) (path : List BlockMeta) (from end : Watch) : Type 0 where
  pub done : List BlockMeta
  pub rest : List BlockMeta
  pub parts : path ≡ done ++ rest
  pub between : Watch
  pub processed : AreProcessed reading done from between
  pub given_up : IsGivenUp reading rest between
  pub mark : end.last ≡ mark_after done from.last
  pub stopped : IsStoppedAt rest end.progress

clear_stall-last : (st : Watch) → (clear_stall st).last ≡ st.last
unfolding clear_stall close_standing say
clear_stall-last st =
    if_either (λ (w : Watch). w.last ≡ st.last) (st.progress.stalled || not st.checked_standing)
      (λ e. refl) (λ e. refl)

clear_stall-stalled : (st : Watch) → (clear_stall st).progress.stalled ≡ false
unfolding clear_stall close_standing say
clear_stall-stalled st =
    if_either (λ (w : Watch). w.progress.stalled ≡ false)
      (st.progress.stalled || not st.checked_standing) (λ e. refl) (λ e. refl)

stall-last : (height : ℤ) (st : Watch) → (stall height st).last ≡ st.last
unfolding stall say
stall-last height st =
    if_either (λ (w : Watch). w.last ≡ st.last) (stalled_here height st.progress) (λ e. refl)
      (λ e. refl)

stall-IsStoppedAt :
    (meta : BlockMeta) (rest : List BlockMeta) (st : Watch)
    → IsStoppedAt (meta ∷ rest) (stall meta.height st).progress
unfolding stall say IsStoppedAt
stall-IsStoppedAt meta rest st =
    if_either (λ (w : Watch). IsStoppedAt (meta ∷ rest) w.progress)
      (stalled_here meta.height st.progress) (λ e. (refl, refl)) (λ e. (refl, refl))

module _ (reading : Reading) (saved : (ref : BlockRef) → reading.saves_mark ref ≡ true) where
  tried : BlockMeta → Watch → Bool × Watch
  tried meta st = process_with_retries (reading.answers meta.hash) reading.block_attempts meta st

  last-tried : (meta : BlockMeta) (st : Watch) → (tried meta st).1.last ≡ st.last
  unfolding tried
  last-tried meta st = last-attempts (reading.answers meta.hash) meta 1 reading.block_attempts st

  tried-IsProcessed :
      (meta : BlockMeta) (st : Watch)
      → (tried meta st).0 ≡ true
      → IsProcessed reading meta st (tried meta st).1
  unfolding tried
  tried-IsProcessed meta st e =
      let s = attempts-Succeeding (reading.answers meta.hash) meta 1 reading.block_attempts st e in
      record {
        failed = s.failed;
        in_time = s.in_time;
        before = s.before;
        failing = s.failing;
        succeeds = s.succeeds;
      }

  tried-Failing :
      (meta : BlockMeta) (st : Watch)
      → (tried meta st).0 ≡ false
      → Failing (reading.answers meta.hash) meta 1 reading.block_attempts st (tried meta st).1
  unfolding tried
  tried-Failing meta st e =
      attempts-Failing (reading.answers meta.hash) meta 1 reading.block_attempts st e

  last-commit_mark :
      (meta : BlockMeta) (st : Watch)
      → (commit_mark (reading.saves_mark (ref_of meta)) (ref_of meta) st).last ≡ ref_of meta
  unfolding commit_mark
  last-commit_mark meta st = rw (saved (ref_of meta)) refl

  -- If the mark is always saved, then however reads and other writes fail, a first part of the
  -- path is processed in order, each block by an allowed attempt that ends with no error;
  -- processTo leaves the mark at the last block of that part, the mark it started from where the
  -- part is empty; at the first block of the rest every allowed attempt failed and scanning is
  -- stalled there, and it is not stalled where there is no rest.
  pub process_to-Reached :
      (path : List BlockMeta) (st : Watch) → Reached reading path st (process_to reading path st)
  unfolding process_to mark_after IsStoppedAt tried
  process_to-Reached [] st = record {
    done = [];
    rest = [];
    parts = refl;
    between = st;
    processed = refl;
    given_up = tt;
    mark = clear_stall-last st;
    stopped = clear_stall-stalled st;
  }
  process_to-Reached (meta ∷ metas) st =
      let after = commit_mark (reading.saves_mark (ref_of meta)) (ref_of meta) (tried meta st).1 in
      elim (Bool-cases (tried meta st).0) [
        | inl e ↦
            rw (e, process_to)
              (let r = process_to-Reached metas after in
                record {
                  done = meta ∷ r.done;
                  rest = r.rest;
                  parts = ap (λ (ms : List BlockMeta). meta ∷ ms) r.parts;
                  between = r.between;
                  processed = (
                    (tried meta st).1,
                    tried-IsProcessed meta st e,
                    subst
                        (λ b.
                          AreProcessed reading r.done
                            (commit_mark b (ref_of meta) (tried meta st).1) r.between)
                        (saved (ref_of meta)) r.processed,
                  );
                  given_up = r.given_up;
                  mark = r.mark ∙ ap (mark_after r.done) (last-commit_mark meta (tried meta st).1);
                  stopped = r.stopped;
                })
        | inr e ↦
            rw (e, process_to)
              (record {
                done = [];
                rest = meta ∷ metas;
                parts = refl;
                between = st;
                processed = refl;
                given_up = ((tried meta st).1, tried-Failing meta st e);
                mark = stall-last meta.height (tried meta st).1 ∙ last-tried meta st;
                stopped = stall-IsStoppedAt meta metas (tried meta st).1;
              })
      ]

-- One attempt at the block, of those that there are, has every call answered.
pub record IsReadable (reading : Reading) (meta : BlockMeta) : Type 0 where
  pub attempt : ℕ
  pub in_time : attempt < reading.block_attempts
  pub answered : AllAnswered (reading.answers meta.hash (1 + attempt)) meta

attempts-HaveDistinctIds :
    (answers : ℕ → Answers) (meta : BlockMeta) (attempt left : ℕ) (st : Watch)
    → ((n : ℕ) → GivesNewIds (answers n).new_id)
    → HaveDistinctIds st.spends
    → HaveDistinctIds (attempts answers meta attempt left st).1.spends
unfolding attempts
attempts-HaveDistinctIds answers meta attempt zero st g d = d
attempts-HaveDistinctIds answers meta attempt (suc left) st g d =
    let j = process_block-HaveDistinctIds (answers attempt) meta st (g attempt) d in
    elim (Bool-cases (process_block (answers attempt) meta st).0) [
      | inl e ↦ rw (e, attempts) j
      | inr e ↦
          rw (e, attempts)
            (attempts-HaveDistinctIds answers meta (suc attempt) left
              (process_block (answers attempt) meta st).1 g j)
    ]

spends-commit_mark :
    (b : Bool) (ref : BlockRef) (st : Watch) → (commit_mark b ref st).spends ≡ st.spends
unfolding commit_mark
spends-commit_mark b ref st =
    if_either (λ (w : Watch). w.spends ≡ st.spends) b (λ e. refl) (λ e. refl)

module _ (reading : Reading) (saved : (ref : BlockRef) → reading.saves_mark ref ≡ true)
    (g : (h : Hash) (n : ℕ) → GivesNewIds (reading.answers h n).new_id) where
  AtEnd : List BlockMeta → BlockRef → Watch → Type 0
  AtEnd path last st = (st.last ≡ mark_after path last) × (st.progress.stalled ≡ false)

  process_to-AtEnd :
      (path : List BlockMeta) (st : Watch)
      → HaveDistinctIds st.spends
      → All (IsReadable reading) path
      → AtEnd path st.last (process_to reading path st)
  unfolding process_to mark_after AtEnd
  process_to-AtEnd [] st d r = (clear_stall-last st, clear_stall-stalled st)
  process_to-AtEnd (meta ∷ metas) st d r =
      let tries = process_with_retries (reading.answers meta.hash) reading.block_attempts meta st in
      let after = commit_mark (reading.saves_mark (ref_of meta)) (ref_of meta) tries.1 in
      let e =
        attempts-succeed (reading.answers meta.hash) meta (g meta.hash) r.0.attempt 1
          reading.block_attempts st r.0.in_time r.0.answered d in
      let d' =
        subst HaveDistinctIds
          (sym (spends-commit_mark (reading.saves_mark (ref_of meta)) (ref_of meta) tries.1))
          (attempts-HaveDistinctIds (reading.answers meta.hash) meta 1 reading.block_attempts st
            (g meta.hash) d) in
      let k = process_to-AtEnd metas after d' r.1 in
      rw (e, process_to)
        (k.0 ∙ ap (mark_after metas) (last-commit_mark reading saved meta tries.1), k.1)

  -- If in some allowed attempt at each block of a path every read and write is answered, the mark
  -- is always saved, and ids are given as by the database, then processTo ends with the mark at
  -- the last block of the path and scanning not stalled, whatever the earlier attempts at a block
  -- did.
  pub process_to-reaches :
      (path : List BlockMeta) (st : Watch)
      → HaveDistinctIds st.spends
      → All (IsReadable reading) path
      → ((process_to reading path st).last ≡ mark_after path st.last)
        × ((process_to reading path st).progress.stalled ≡ false)
  unfolding AtEnd
  process_to-reaches path st d r = process_to-AtEnd path st d r
