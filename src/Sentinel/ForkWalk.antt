-- ===== src/Sentinel/ForkWalk.antt =====
-- The loops of FindForkPoint, along headers that a view serves down to a block.
use forktower.Common.{
  ℕ, zero, suc, ◌+◌, ◌≤◌, true, false, ◌==◌, none, ◌≡◌, refl, ap, ◌∙◌, inl, inr, ℤ, pos, pos_part,
  ltb_ℤ, eqb_ℤ, arith, Bool-cases, subst,
}
use forktower.ChainView.Types.{Hash, Branch, sf, sq, BlockRef, BlockMeta}
use forktower.Sentinel.ForkPoint.{
  header, HeaderFetcher, ok, continue_with, ◌>>=◌, fetch_header, descend, meet,
}

-- `steps` blocks down from the first block the view serves the second, each block one lower than the
-- block above it and no height negative.
abbrev pub Steps : HeaderFetcher → ℕ → BlockMeta → BlockMeta → Type 0
Steps fetch zero t a = (t ≡ a) × (t.height ≡ pos (pos_part t.height))
Steps fetch (suc k) t a =
    (p : BlockMeta) × (fetch t.prev_hash ≡ header p)
    × (t.height ≡ pos (suc (pos_part p.height)))
    × Steps fetch k p a

pub Steps-height :
    (fetch : HeaderFetcher) (k : ℕ) (t a : BlockMeta)
    → Steps fetch k t a
    → (t.height ≡ pos (pos_part a.height + k)) × (a.height ≡ pos (pos_part a.height))
Steps-height fetch zero t a (e, h) = (ground arith, ground arith)
Steps-height fetch (suc k) t a (p, served, h, rest) =
    let (u, v) = Steps-height fetch k p a rest in (ground arith, v)

pub Steps-self :
    (fetch : HeaderFetcher) (k : ℕ) (t a : BlockMeta) → Steps fetch k t a → Steps fetch zero t t
Steps-self fetch zero t a st = (refl, st.1)
Steps-self fetch (suc k) t a (p, served, h, rest) = (refl, ground arith)

pub fetch-served :
    (fetch : HeaderFetcher) (branch : Branch) (h : Hash) (p : BlockMeta)
    → fetch h ≡ header p
    → fetch_header fetch branch h none ≡ (ok p, none)
unfolding fetch_header
fetch-served fetch branch h p e = rw e

pub descend-above :
    (b : ℕ) (fetch : HeaderFetcher) (branch : Branch) (t : BlockMeta) (target : ℤ)
    → ltb_ℤ target t.height ≡ false
    → descend b fetch branch t target none ≡ (ok (t, b), none)
unfolding descend
descend-above zero fetch branch t target h = rw h
descend-above (suc b) fetch branch t target h = rw h

pub descend-below :
    (b : ℕ) (fetch : HeaderFetcher) (branch : Branch) (t p : BlockMeta) (target : ℤ)
    → ltb_ℤ target t.height ≡ true
    → fetch t.prev_hash ≡ header p
    → descend (suc b) fetch branch t target none ≡ descend b fetch branch p target none
unfolding descend
descend-below b fetch branch t p target h served = rw h (
    ap (continue_with (λ a'. descend b fetch branch a' target))
      (fetch-served fetch branch t.prev_hash p served))

-- A descent of `d` blocks spends `d` of the budget.
pub descend-Steps :
    (d b full n i : ℕ) (fetch : HeaderFetcher) (branch : Branch) (t x : BlockMeta) (target : ℕ)
    → full ≡ b + d
    → n ≡ d + i
    → t.height ≡ pos (target + d)
    → Steps fetch n t x
    → (a : BlockMeta) × (descend full fetch branch t (pos target) none ≡ (ok (a, b), none))
      × Steps fetch i a x
      × (a.height ≡ pos target)
      × Steps fetch d t a
descend-Steps zero b full n i fetch branch t x target fb ni h st = (
  t,
  descend-above full fetch branch t (pos target) (rw h (ground arith))
      ∙ ap (λ k. (ok (t, k), none)) (omega arith),
  subst (λ k. Steps fetch k t x) (omega arith) st,
  h ∙ ap pos (omega arith),
  Steps-self fetch n t x st,
)
descend-Steps (suc d) b zero n i fetch branch t x target fb ni h st = absurd (omega arith)
descend-Steps (suc d) b (suc full) zero i fetch branch t x target fb ni h st = absurd (omega arith)
descend-Steps (suc d) b (suc full) (suc n) i fetch branch t x target fb ni h (p, served, hp, rest) =
    let (a, e, sa, ha, down) =
      descend-Steps d b full n i fetch branch p x target (omega arith) (omega arith)
        (ground (arith, Steps-height fetch n p x rest)) rest in
    (
      a,
      descend-below full fetch branch t p (pos target) (rw h (ground arith)) served ∙ e,
      sa,
      ha,
      (p, served, hp, down),
    )

-- What the search promises of its result: it is an ancestor of both blocks.
abbrev pub CommonAncestor :
    HeaderFetcher → HeaderFetcher → BlockMeta → BlockMeta → BlockRef → Type 0
CommonAncestor sf_fetch sq_fetch a b r =
    (i : ℕ) × (j : ℕ) × (c : BlockMeta) × (d : BlockMeta) × Steps sf_fetch i a c
    × Steps sq_fetch j b d
    × (c.hash ≡ r.hash)
    × (d.hash ≡ r.hash)
    × (c.height ≡ r.height)

-- The third loop ends with a common ancestor, at least as high as `x`.
abbrev pub Found : ℕ → HeaderFetcher → HeaderFetcher → BlockMeta → BlockMeta → BlockMeta → Type 0
Found b sf_fetch sq_fetch s q x =
    (r : BlockRef) × (meet b sf_fetch sq_fetch s q none ≡ (ok r, none))
    × (pos_part x.height ≤ pos_part r.height)
    × CommonAncestor sf_fetch sq_fetch s q r

pub meet-equal :
    (b : ℕ) (sf_fetch sq_fetch : HeaderFetcher) (s q : BlockMeta)
    → (s.hash == q.hash) ≡ true
    → meet b sf_fetch sq_fetch s q none ≡ (ok (record { hash = s.hash; height = s.height }), none)
unfolding meet
meet-equal zero sf_fetch sq_fetch s q h = rw h
meet-equal (suc b) sf_fetch sq_fetch s q h = rw h

pub not_genesis : (h : ℤ) (k : ℕ) → h ≡ pos (suc k) → eqb_ℤ h (pos 0) ≡ false
not_genesis h k e = ground arith

pub meet-step :
    (b : ℕ) (sf_fetch sq_fetch : HeaderFetcher) (s q s' q' : BlockMeta)
    → (s.hash == q.hash) ≡ false
    → s.height ≡ pos (suc (pos_part s'.height))
    → q.height ≡ pos (suc (pos_part q'.height))
    → sf_fetch s.prev_hash ≡ header s'
    → sq_fetch q.prev_hash ≡ header q'
    → meet (suc b) sf_fetch sq_fetch s q none ≡ meet b sf_fetch sq_fetch s' q' none
unfolding meet
meet-step b sf_fetch sq_fetch s q s' q' h hs hq fs fq =
    rw
      (
        h,
        not_genesis s.height (pos_part s'.height) hs,
        not_genesis q.height (pos_part q'.height) hq,
      )
      (ap
          (continue_with
            (λ a'. fetch_header sq_fetch sq q.prev_hash >>= λ b'. meet b sf_fetch sq_fetch a' b'))
          (fetch-served sf_fetch sf s.prev_hash s' fs)
        ∙ ap (continue_with (λ b'. meet b sf_fetch sq_fetch s' b'))
            (fetch-served sq_fetch sq q.prev_hash q' fq))

-- Two blocks of one hash, at one height, end the search at once.
pub meet-here :
    (i b : ℕ) (sf_fetch sq_fetch : HeaderFetcher) (s q x y : BlockMeta)
    → Steps sf_fetch i s x
    → Steps sq_fetch i q y
    → (s.hash == q.hash) ≡ true
    → Found b sf_fetch sq_fetch s q x
meet-here i b sf_fetch sq_fetch s q x y sx sy h = (
  record { hash = s.hash; height = s.height },
  meet-equal b sf_fetch sq_fetch s q h,
  ground (arith, Steps-height sf_fetch i s x sx),
  (
    0,
    0,
    s,
    q,
    Steps-self sf_fetch i s x sx,
    Steps-self sq_fetch i q y sy,
    refl,
    ground arith,
    refl,
  ),
)

pub meet-Found :
    (i b : ℕ) (sf_fetch sq_fetch : HeaderFetcher) (s q x y : BlockMeta)
    → i ≤ b
    → Steps sf_fetch i s x
    → Steps sq_fetch i q y
    → x.hash ≡ y.hash
    → Found b sf_fetch sq_fetch s q x
meet-Found zero b sf_fetch sq_fetch s q x y le sx sy e =
    meet-here zero b sf_fetch sq_fetch s q x y sx sy (ground arith)
meet-Found (suc i) zero sf_fetch sq_fetch s q x y le sx sy e = absurd (omega arith)
meet-Found (suc i) (suc b) sf_fetch sq_fetch s q x y le (s', fs, hs, sx) (q', fq, hq, sy) e =
    elim (Bool-cases (s.hash == q.hash)) [
      | inl h ↦
          meet-here (suc i) (suc b) sf_fetch sq_fetch s q x y (s', fs, hs, sx) (q', fq, hq, sy) h
      | inr h ↦
          let (r, found, above, (k, l, c, d, sc, sd, hc, hd, at)) =
            meet-Found i b sf_fetch sq_fetch s' q' x y (omega arith) sx sy e in
          (
            r,
            meet-step b sf_fetch sq_fetch s q s' q' h hs hq fs fq ∙ found,
            above,
            (suc k, suc l, c, d, (s', fs, hs, sc), (q', fq, hq, sd), hc, hd, at),
          )
    ]
