-- ===== src/Watcher/Attempts.antt =====
-- internal/watcher/reorg.go: the attempts at one block, those that fail and the one that does not.
use forktower.Common.{
  ◌≡◌, refl, ap, subst, ℕ, zero, suc, ◌+◌, ◌<◌, Bool, true, false, arith, Bool-cases, inl, inr,
}
use forktower.ChainView.Types.{BlockMeta}
use forktower.Watcher.State.{Watch, Answers}
use forktower.Watcher.Blocks.{process_block, attempts}

-- The attempts at a block, the first so many of them, all end in an error and lead from one state to
-- the other.
abbrev pub Failing : (ℕ → Answers) → BlockMeta → ℕ → ℕ → Watch → Watch → Type 0
Failing answers meta attempt zero st end = st ≡ end
Failing answers meta attempt (suc n) st end =
    ((process_block (answers attempt) meta st).0 ≡ false)
    × Failing answers meta (suc attempt) n (process_block (answers attempt) meta st).1 end

-- Where the attempts, counted from one of them on, succeed.
pub record Succeeding (answers : ℕ → Answers) (meta : BlockMeta) (attempt left : ℕ) (st end : Watch)
    : Type 0 where
  pub failed : ℕ
  pub in_time : failed < left
  pub before : Watch
  pub failing : Failing answers meta attempt failed st before
  pub succeeds : process_block (answers (attempt + failed)) meta before ≡ (true, end)

pair-eq : (r : Bool × Watch) (b : Bool) → r.0 ≡ b → r ≡ (b, r.1)
pair-eq (a, w) b e = ap (λ (x : Bool). (x, w)) e

pub attempts-Succeeding :
    (answers : ℕ → Answers) (meta : BlockMeta) (attempt left : ℕ) (st : Watch)
    → (attempts answers meta attempt left st).0 ≡ true
    → Succeeding answers meta attempt left st (attempts answers meta attempt left st).1
unfolding attempts
attempts-Succeeding answers meta attempt zero st = λ e. cc
attempts-Succeeding answers meta attempt (suc left) st =
    let r = process_block (answers attempt) meta st in
    elim (Bool-cases r.0) [
      | inl e ↦
          rw (e, attempts)
            (λ f. record {
              failed = 0;
              in_time = omega arith;
              before = st;
              failing = refl;
              succeeds =
                  subst (λ n. process_block (answers n) meta st ≡ (true, r.1)) (omega arith)
                    (pair-eq r true e);
            })
      | inr e ↦
          rw (e, attempts)
            (λ f.
              let s = attempts-Succeeding answers meta (suc attempt) left r.1 f in
              record {
                failed = suc s.failed;
                in_time = omega (arith, s.in_time);
                before = s.before;
                failing = (e, s.failing);
                succeeds =
                    subst
                      (λ n.
                        process_block (answers n) meta s.before
                        ≡ (true, (attempts answers meta (suc attempt) left r.1).1))
                      (omega arith) s.succeeds;
              })
    ]

pub attempts-Failing :
    (answers : ℕ → Answers) (meta : BlockMeta) (attempt left : ℕ) (st : Watch)
    → (attempts answers meta attempt left st).0 ≡ false
    → Failing answers meta attempt left st (attempts answers meta attempt left st).1
unfolding attempts
attempts-Failing answers meta attempt zero st = λ e. refl
attempts-Failing answers meta attempt (suc left) st =
    let r = process_block (answers attempt) meta st in
    elim (Bool-cases r.0) [
      | inl e ↦ rw (e, attempts) (λ f. cc)
      | inr e ↦
          rw (e, attempts) (λ f. (refl, attempts-Failing answers meta (suc attempt) left r.1 f))
    ]
