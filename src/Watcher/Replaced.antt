-- ===== src/Watcher/Replaced.antt =====
-- internal/watcher/watcher.go and reorg.go: what is not read again when the watcher has been away,
-- and where a replaced branch is said to attach.
use forktower.Common.{
  ◌≡◌, refl, ap, subst, ◌∙◌, ◌⊎◌, inl, inr, ℕ, zero, suc, ◌==◌, Option, none, some, List, [], ◌∷◌,
  take, ℤ, pos, pos_part, leb_ℤ, Option-cases, if_either, some_if, ==_iff, All, All-append,
}
use forktower.ChainView.Types.{Hash, BlockRef, BlockMeta}
use forktower.Watcher.Targets.{TxIdText, spelled, malformed}
use forktower.Watcher.State.{Watch, known}
use forktower.Watcher.Blocks.{ref_of}
use forktower.Watcher.Reorg.{
  Config, Backend, height_in, add_if_new, add_recent, last_entry, known_hashes, Walk, attached,
  lost, too_deep, walk, walk_known, walk_back,
}

-- A block that the walk stops at is the last one processed, at its height, or has the height zero.
abbrev pub IsKnownAt : BlockRef → Hash × ℤ → Type 0
IsKnownAt last e = ((e.0 ≡ last.hash) × (e.1 ≡ last.height)) ⊎ (e.1 ≡ pos 0)

add_if_new-known :
    (last : BlockRef) (h : Hash) (o : Option ℤ) (es : List (Hash × ℤ))
    → All (IsKnownAt last) es
    → All (IsKnownAt last) (add_if_new h o es)
unfolding add_if_new
add_if_new-known last h (some k) es a = a
add_if_new-known last h none es a =
    All-append (IsKnownAt last) es ((h, pos 0) ∷ []) a (inr refl, tt)

add_recent-known :
    (last : BlockRef) (hs : List TxIdText) (es : List (Hash × ℤ))
    → All (IsKnownAt last) es
    → All (IsKnownAt last) (add_recent hs es)
unfolding add_recent
add_recent-known last [] es a = a
add_recent-known last (spelled h ∷ hs) es a =
    add_recent-known last hs (add_if_new h (height_in h es) es)
      (add_if_new-known last h (height_in h es) es a)
add_recent-known last (malformed _ ∷ hs) es a = add_recent-known last hs es a

last_entry-known : (last : BlockRef) → All (IsKnownAt last) (last_entry last)
unfolding last_entry
last_entry-known last =
    if_either (All (IsKnownAt last)) (known last) (λ e. (inl (refl, refl), tt)) (λ e. tt)

height_in-known :
    (last : BlockRef) (h : Hash) (height : ℤ) (es : List (Hash × ℤ))
    → All (IsKnownAt last) es
    → height_in h es ≡ some height
    → IsKnownAt last (h, height)
unfolding height_in
height_in-known last h height [] a e = cc
height_in-known last h height (x ∷ es) a e = elim (some_if (x.0 == h) e) [
  | inl (t, f) ↦
      subst (λ (k : Hash × ℤ). IsKnownAt last k)
        (ap (λ (g : Hash). (g, x.1)) ((==_iff x.0 h).0 t) ∙ ap (λ (k : ℤ). (h, k)) f) a.0
  | inr f ↦ height_in-known last h height es a.1 f
]

-- Where a walk attaches.
abbrev AttachesAt : BlockRef → Walk → Type 0
AttachesAt last w =
    (metas : List BlockMeta) (at : BlockRef)
    → w ≡ attached metas at
    → IsKnownAt last (at.hash, at.height)

abbrev attach_of : BlockRef → Walk → BlockRef
attach_of last (attached metas at) = at
attach_of last lost = last
attach_of last too_deep = last

walk-AttachesAt :
    (b : Backend) (last : BlockRef) (es : List (Hash × ℤ)) (n : ℕ) (current : BlockMeta)
    (path : List BlockMeta)
    → All (IsKnownAt last) es
    → AttachesAt last (walk b es n current path)
unfolding walk
walk-AttachesAt b last es zero current path a = λ metas at e. cc
walk-AttachesAt b last es (suc n) current path a =
    elim (Option-cases (height_in current.prev_hash es)) [
      | inl f ↦
          rw (f, walk)
            (if_either (AttachesAt last) (leb_ℤ current.height (pos 1)) (λ t metas at e. cc)
              (λ t. elim (Option-cases (b.header current.prev_hash)) [
                | inl u ↦ rw (u, walk) (λ metas at e. cc)
                | inr (parent, u) ↦
                    rw (u, walk) (walk-AttachesAt b last es n parent (parent ∷ path) a)
              ]))
      | inr (height, f) ↦
          rw (f, walk)
            (λ metas at e.
              subst (λ (r : BlockRef). IsKnownAt last (r.hash, r.height)) (ap (attach_of last) e)
                (height_in-known last current.prev_hash height es a f))
    ]

walk_known-AttachesAt :
    (b : Backend) (cfg : Config) (tip : BlockMeta) (last : BlockRef) (o : Option (List TxIdText))
    → AttachesAt last (walk_known b cfg tip last o)
unfolding walk_known known_hashes
walk_known-AttachesAt b cfg tip last none = λ metas at e. cc
walk_known-AttachesAt b cfg tip last (some recent) =
    walk-AttachesAt b last (known_hashes cfg last recent) (pos_part cfg.max_reorg_depth) tip
      (tip ∷ [])
      (add_recent-known last (take (pos_part cfg.max_reorg_depth) recent) (last_entry last)
        (last_entry-known last))

-- A walk back that finds where a new branch attaches gives the last block processed at its height,
-- or else a height of zero.
pub walk_back-known :
    (b : Backend) (cfg : Config) (tip : BlockMeta) (last at : BlockRef) (metas : List BlockMeta)
    → walk_back b cfg tip last ≡ attached metas at
    → IsKnownAt last (at.hash, at.height)
walk_back-known b cfg tip last at metas =
    walk_known-AttachesAt b cfg tip last b.recent_hashes metas at

-- Nothing was read: the mark is the tip, and the rows of spends are as they were.
abbrev pub IsSkipped : BlockMeta → Watch → Watch → Type 0
IsSkipped tip st st' = (st'.last ≡ ref_of tip) × (st'.spends ≡ st.spends)
