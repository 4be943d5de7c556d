-- ===== src/ChainView/Branches.antt =====
-- What a branch check that passed has established.
use forktower.Common.{
  ℕ, suc, ◌==◌, Option, none, some, List, [], ◌∷◌, All, Any, ◌≡◌, refl, sym, ap, ◌∙◌, subst, ◌≢◌,
  ◌⊎◌, inl, inr, ℤ, pos, ◌<ℤ◌, add32, arith, if◌then◌else◌,
}
use forktower.ChainView.Types.{Hash, BlockRef}
use forktower.ChainView.Verify.{
  Answer, hash, not_found, broken, View, Verdict, passed, wrong_branch, wrong_network,
  cannot_verify_branch, unreadable, missing, branch_sample_heights, Compared, skipped, agreed,
  counted, stopped, compare_answers, shared_history, verify_shared_history, diverges,
  verify_divergence, after_shared, verify_branch,
}

-- Both views answered with one hash.
abbrev pub SameBlock : View → View → ℤ → Type 0
SameBlock sf sq h = (b : Hash) × (sf h ≡ hash b) × (sq h ≡ hash b)

abbrev pub Unread : View → View → ℤ → Type 0
Unread sf sq h = (sf h ≡ not_found) ⊎ (sq h ≡ not_found)

abbrev Meaning : View → View → ℤ → Compared → Type 0
Meaning sf sq h skipped = Unread sf sq h
Meaning sf sq h agreed = SameBlock sf sq h
Meaning sf sq h counted = SameBlock sf sq h × (pos 0 <ℤ h)
Meaning sf sq h (stopped v) = v ≢ passed

compare_hashes :
    (h : ℤ) (a b : Hash)
    → (((a ≡ b) × (compare_answers h (hash a) (hash b) ≡ counted)) × (pos 0 <ℤ h))
      ⊎ (((a ≡ b) × (compare_answers h (hash a) (hash b) ≡ agreed))
          ⊎ (compare_answers h (hash a) (hash b) ≡ stopped wrong_branch))
unfolding compare_answers
compare_hashes h a b = ground arith

compare_on :
    (sf sq : View) (h : ℤ) (a b : Answer)
    → sf h ≡ a
    → sq h ≡ b
    → Meaning sf sq h (compare_answers h a b)
unfolding compare_answers
compare_on sf sq h not_found b p q = inl p
compare_on sf sq h (broken e) b p q = λ x. cc
compare_on sf sq h (hash a) not_found p q = inr q
compare_on sf sq h (hash a) (broken e) p q = λ x. cc
compare_on sf sq h (hash a) (hash b) p q = elim (compare_hashes h a b) [
  | inl ((e, f), g) ↦ subst (Meaning sf sq h) (sym f) ((a, p, q ∙ ap hash (sym e)), g)
  | inr (inl (e, f)) ↦ subst (Meaning sf sq h) (sym f) (a, p, q ∙ ap hash (sym e))
  | inr (inr f) ↦ subst (Meaning sf sq h) (sym f) (λ x. cc)
]

-- One round of the loop, by what the comparison says.
next_count : View → View → ℕ → List ℤ → Compared → ℕ × Verdict
next_count sf sq compared hs skipped = shared_history sf sq compared hs
next_count sf sq compared hs agreed = shared_history sf sq compared hs
next_count sf sq compared hs counted = shared_history sf sq (suc compared) hs
next_count sf sq compared hs (stopped e) = (compared, e)

shared_history_next :
    (sf sq : View) (compared : ℕ) (h : ℤ) (hs : List ℤ) (k : Compared)
    → compare_answers h (sf h) (sq h) ≡ k
    → shared_history sf sq compared (h ∷ hs) ≡ next_count sf sq compared hs k
unfolding shared_history next_count
shared_history_next sf sq compared h hs skipped e = rw (e, shared_history) refl
shared_history_next sf sq compared h hs agreed e = rw (e, shared_history) refl
shared_history_next sf sq compared h hs counted e = rw (e, shared_history) refl
shared_history_next sf sq compared h hs (stopped v) e = rw (e, shared_history) refl

-- What a loop that ended without an error has found, given its first count.
Shown : View → View → ℕ → ℕ → List ℤ → Type 0
Shown sf sq compared n hs =
    All (λ h. SameBlock sf sq h ⊎ Unread sf sq h) hs
    × ((n ≡ compared) ⊎ Any (λ h. SameBlock sf sq h × (pos 0 <ℤ h)) hs)

next_count-Shown :
    (sf sq : View) (compared n : ℕ) (h : ℤ) (hs : List ℤ) (k : Compared)
    → ((c : ℕ) → shared_history sf sq c hs ≡ (n, passed) → Shown sf sq c n hs)
    → Meaning sf sq h k
    → next_count sf sq compared hs k ≡ (n, passed)
    → Shown sf sq compared n (h ∷ hs)
unfolding Shown next_count
next_count-Shown sf sq compared n h hs skipped ih m e =
    let (a, b) = ih compared e in ((inr m, a), elim b [ inl p ↦ inl p | inr p ↦ inr (inr p) ])
next_count-Shown sf sq compared n h hs agreed ih m e =
    let (a, b) = ih compared e in ((inl m, a), elim b [ inl p ↦ inl p | inr p ↦ inr (inr p) ])
next_count-Shown sf sq compared n h hs counted ih m e =
    let (a, b) = ih (suc compared) e in ((inl (m.0), a), inr (inl m))
next_count-Shown sf sq compared n h hs (stopped v) ih m e = absurd (m (ap (λ r. r.1) e))

shared_history-Shown :
    (sf sq : View) (compared n : ℕ) (hs : List ℤ)
    → shared_history sf sq compared hs ≡ (n, passed)
    → Shown sf sq compared n hs
unfolding shared_history Shown
shared_history-Shown sf sq compared n [] e = (tt, inl (sym (ap (λ r. r.0) e)))
shared_history-Shown sf sq compared n (h ∷ hs) e =
    next_count-Shown sf sq compared n h hs (compare_answers h (sf h) (sq h))
      (λ c p. shared_history-Shown sf sq c n hs p) (compare_on sf sq h (sf h) (sq h) refl refl)
      (sym (shared_history_next sf sq compared h hs (compare_answers h (sf h) (sq h)) refl) ∙ e)

-- after_shared of a shared history that passed, or not.
after_shared_passed :
    (sf sq : View) (fork : Option BlockRef) (r : ℕ × Verdict)
    → after_shared sf sq fork r ≡ passed
    → (n : ℕ) × (r ≡ (n, passed))
unfolding after_shared
after_shared_passed sf sq fork (n, passed) e = (n, refl)
after_shared_passed sf sq fork (n, wrong_network) e = absurd (cc)
after_shared_passed sf sq fork (n, wrong_branch) e = absurd (cc)
after_shared_passed sf sq fork (n, cannot_verify_branch) e = absurd (cc)
after_shared_passed sf sq fork (n, unreadable x) e = absurd (cc)
after_shared_passed sf sq fork (n, missing) e = absurd (cc)

-- Both views have a block right above the separation point, and the two blocks differ.
abbrev pub Separated : View → View → ℤ → Type 0
Separated sf sq h = (a b : Hash) × ((sf h ≡ hash a) × (sq h ≡ hash b)) × (a ≢ b)

diverges-Separated :
    (sf sq : View) (h : ℤ) (x y : Answer)
    → sf h ≡ x
    → sq h ≡ y
    → diverges x y ≡ passed
    → Separated sf sq h
unfolding diverges
diverges-Separated sf sq h (hash a) (hash b) p q e =
    (a, b, (p, q), let ne : a ≢ b = λ s. ground arith in ne)
diverges-Separated sf sq h not_found y p q e = absurd (cc)
diverges-Separated sf sq h (hash a) not_found p q e = absurd (cc)
diverges-Separated sf sq h (broken x) not_found p q e = absurd (cc)
diverges-Separated sf sq h (broken x) (hash b) p q e = absurd (cc)
diverges-Separated sf sq h (broken x) (broken b) p q e = absurd (cc)
diverges-Separated sf sq h (hash x) (broken b) p q e = absurd (cc)

-- A branch check that passes with a separation point known: at every sampled height the two views
-- have one block or one of them has none, and right above the separation point both have a block
-- and the two differ.
pub verify_branch-Separated :
    (sf sq : View) (anchor : ℤ) (fork : BlockRef)
    → verify_branch sf sq anchor (some fork) ≡ passed
    → All (λ h. SameBlock sf sq h ⊎ Unread sf sq h) (branch_sample_heights anchor)
      × Separated sf sq (add32 fork.height (pos 1))
unfolding verify_branch verify_shared_history after_shared verify_divergence Shown
verify_branch-Separated sf sq anchor fork e =
    let heights = branch_sample_heights anchor in
    let (n, p) = after_shared_passed sf sq (some fork) (shared_history sf sq 0 heights) e in
    let check = add32 fork.height (pos 1) in
    let after : diverges (sf check) (sq check) ≡ passed =
      sym (ap (after_shared sf sq (some fork)) p) ∙ e in
    (
      (shared_history-Shown sf sq 0 n heights p).0,
      diverges-Separated sf sq check (sf check) (sq check) refl refl after,
    )

-- A branch check that passes with no separation point known: at every sampled height the two views
-- have one block or one of them has none, and they have one block at some sampled height above
-- genesis.
pub verify_branch-Shared :
    (sf sq : View) (anchor : ℤ)
    → verify_branch sf sq anchor none ≡ passed
    → All (λ h. SameBlock sf sq h ⊎ Unread sf sq h) (branch_sample_heights anchor)
      × Any (λ h. SameBlock sf sq h × (pos 0 <ℤ h)) (branch_sample_heights anchor)
unfolding verify_branch verify_shared_history after_shared Shown
verify_branch-Shared sf sq anchor e =
    let heights = branch_sample_heights anchor in
    let (n, p) = after_shared_passed sf sq none (shared_history sf sq 0 heights) e in
    let after : (if n == 0 then cannot_verify_branch else passed) ≡ passed =
      sym (ap (after_shared sf sq none) p) ∙ e in
    let shown = shared_history-Shown sf sq 0 n heights p in
    (shown.0, elim shown.1 [ inl z ↦ absurd (ground arith) | inr some_height ↦ some_height ])

-- One view standing for both chains never passes the branch check once a separation point is
-- known.
pub one_view_rejected :
    (v : View) (anchor : ℤ) (fork : BlockRef) → verify_branch v v anchor (some fork) ≢ passed
one_view_rejected v anchor fork e =
    let (a, b, (p, q), ne) = (verify_branch-Separated v v anchor fork e).1 in absurd (ne (cc))
