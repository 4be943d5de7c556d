-- ===== src/Sentinel/ForkSearch.antt =====
-- FindForkPoint finds the separation: within its budget it ends, at a common ancestor that is at
-- least as high as any other.
use forktower.Common.{
  ℕ, zero, suc, ◌+◌, ◌-◌, ◌≤◌, none, ◌≡◌, sym, inl, inr, pos, pos_part, leb, arith, Bool-cases,
  subst,
}
use forktower.ChainView.Types.{sf, sq, BlockRef, BlockMeta}
use forktower.Sentinel.ForkPoint.{HeaderFetcher, ok, descend, meet, search_from}
use forktower.Sentinel.ForkWalk.{
  Steps, Steps-height, descend-above, descend-Steps, CommonAncestor, meet-Found,
}

Steps-trans :
    (fetch : HeaderFetcher) (k l : ℕ) (t a c : BlockMeta)
    → Steps fetch k t a
    → Steps fetch l a c
    → Steps fetch (k + l) t c
Steps-trans fetch zero l t a c st rest =
    let left : l ≡ 0 + l = omega arith in
    subst (λ n. Steps fetch n t c) left (subst (λ u. Steps fetch l u c) (sym st.0) rest)
Steps-trans fetch (suc k) l t a c (p, served, h, st) rest =
    let down : Steps fetch (suc (k + l)) t c =
      (p, served, h, Steps-trans fetch k l p a c st rest) in
    let left : suc (k + l) ≡ suc k + l = omega arith in subst (λ n. Steps fetch n t c) left down

-- The three loops one after the other.
search-parts :
    (budget left rest : ℕ) (sf_fetch sq_fetch : HeaderFetcher) (sf_tip sq_tip a b : BlockMeta)
    (r : BlockRef)
    → descend budget sf_fetch sf sf_tip sq_tip.height none ≡ (ok (a, left), none)
    → descend left sq_fetch sq sq_tip a.height none ≡ (ok (b, rest), none)
    → meet rest sf_fetch sq_fetch a b none ≡ (ok r, none)
    → search_from budget sf_fetch sq_fetch sf_tip sq_tip none ≡ (ok r, none)
unfolding search_from
search-parts budget left rest sf_fetch sq_fetch sf_tip sq_tip a b r h₁ h₂ h₃ = rw (h₁, h₂) h₃

-- The search ends, at a common ancestor no lower than `x`.
abbrev pub SearchFinds :
    ℕ → HeaderFetcher → HeaderFetcher → BlockMeta → BlockMeta → BlockMeta → Type 0
SearchFinds budget sf_fetch sq_fetch sf_tip sq_tip x =
    (r : BlockRef) × (search_from budget sf_fetch sq_fetch sf_tip sq_tip none ≡ (ok r, none))
    × (pos_part x.height ≤ pos_part r.height)
    × CommonAncestor sf_fetch sq_fetch sf_tip sq_tip r

-- With the user's chain the taller one, or as tall.
search-taller_sf :
    (budget i j : ℕ) (sf_fetch sq_fetch : HeaderFetcher) (sf_tip sq_tip x y : BlockMeta)
    → i ≤ budget
    → j ≤ i
    → Steps sf_fetch i sf_tip x
    → Steps sq_fetch j sq_tip y
    → x.hash ≡ y.hash
    → x.height ≡ y.height
    → SearchFinds budget sf_fetch sq_fetch sf_tip sq_tip x
search-taller_sf budget i j sf_fetch sq_fetch sf_tip sq_tip x y ib ji sx sy e eh =
    let target = pos_part sq_tip.height in
    let left = budget - (i - j) in
    let hs = Steps-height sf_fetch i sf_tip x sx in
    let hq = Steps-height sq_fetch j sq_tip y sy in
    let tall : sq_tip.height ≡ pos target = ground arith in
    let (a, down, sa, ha, above) =
      descend-Steps (i - j) left budget i j sf_fetch sf sf_tip x target (omega arith) (omega arith)
        (ground arith) sx in
    let (r, found, up, (k, l, c, d, sc, sd, hc, hd, at)) =
      meet-Found j left sf_fetch sq_fetch a sq_tip x y (omega arith) sa sy e in
    (
      r,
      search-parts budget left left sf_fetch sq_fetch sf_tip sq_tip a sq_tip r
          (subst (λ h. descend budget sf_fetch sf sf_tip h none ≡ (ok (a, left), none)) (sym tall)
            down)
          (descend-above left sq_fetch sq sq_tip a.height (rw (ha, tall) (ground arith))) found,
      up,
      (i - j + k, l, c, d, Steps-trans sf_fetch (i - j) k sf_tip a c above sc, sd, hc, hd, at),
    )

-- With the other chain the taller one.
search-taller_sq :
    (budget i j : ℕ) (sf_fetch sq_fetch : HeaderFetcher) (sf_tip sq_tip x y : BlockMeta)
    → j ≤ budget
    → i ≤ j
    → Steps sf_fetch i sf_tip x
    → Steps sq_fetch j sq_tip y
    → x.hash ≡ y.hash
    → x.height ≡ y.height
    → SearchFinds budget sf_fetch sq_fetch sf_tip sq_tip x
search-taller_sq budget i j sf_fetch sq_fetch sf_tip sq_tip x y jb ij sx sy e eh =
    let target = pos_part sf_tip.height in
    let left = budget - (j - i) in
    let hs = Steps-height sf_fetch i sf_tip x sx in
    let hq = Steps-height sq_fetch j sq_tip y sy in
    let tall : sf_tip.height ≡ pos target = ground arith in
    let (b, down, sb, hb, above) =
      descend-Steps (j - i) left budget j i sq_fetch sq sq_tip y target (omega arith) (omega arith)
        (ground arith) sy in
    let (r, found, up, (k, l, c, d, sc, sd, hc, hd, at)) =
      meet-Found i left sf_fetch sq_fetch sf_tip b x y (omega arith) sx sb e in
    (
      r,
      search-parts budget budget left sf_fetch sq_fetch sf_tip sq_tip sf_tip b r
          (descend-above budget sf_fetch sf sf_tip sq_tip.height (ground arith))
          (subst (λ h. descend budget sq_fetch sq sq_tip h none ≡ (ok (b, left), none)) (sym tall)
            down)
          found,
      up,
      (k, j - i + l, c, d, sc, Steps-trans sq_fetch (j - i) l sq_tip b d above sd, hc, hd, at),
    )

-- For two tips from which the headers lead down, one height at a time and within the budget on
-- each side, to a block with one hash and one height, the search without a cache returns a common
-- ancestor of the two tips, not lower than that block.
pub search_finds :
    (budget i j : ℕ) (sf_fetch sq_fetch : HeaderFetcher) (sf_tip sq_tip x y : BlockMeta)
    → i ≤ budget
    → j ≤ budget
    → Steps sf_fetch i sf_tip x
    → Steps sq_fetch j sq_tip y
    → x.hash ≡ y.hash
    → x.height ≡ y.height
    → SearchFinds budget sf_fetch sq_fetch sf_tip sq_tip x
search_finds budget i j sf_fetch sq_fetch sf_tip sq_tip x y ib jb sx sy e eh =
    elim (Bool-cases (leb j i)) [
      | inl h ↦
          search-taller_sf budget i j sf_fetch sq_fetch sf_tip sq_tip x y ib (ground arith) sx sy e
            eh
      | inr h ↦
          search-taller_sq budget i j sf_fetch sq_fetch sf_tip sq_tip x y jb (ground arith) sx sy e
            eh
    ]
