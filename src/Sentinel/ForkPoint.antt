-- ===== src/Sentinel/ForkPoint.antt =====
-- internal/sentinel/forkpoint.go: the search for the block where the two chains parted. A view's
-- HeaderFetcher is a parameter; the text of an error is left out, its kind is kept.
use forktower.Common.{
  ℕ, zero, suc, ◌||◌, ◌==◌, Option, none, some, ℤ, pos, pos_part, ltb_ℤ, leb_ℤ, eqb_ℤ,
  if◌then◌else◌,
}
use forktower.ChainView.Types.{Hash, Branch, sf, sq, BlockRef, BlockMeta}
use forktower.Sentinel.HeaderCache.{HeaderCache, get, put}

-- What a view answers when asked for a header: chainview.ErrNotFound, or another error.
pub data Fetched : Type 0 where
  header : BlockMeta → Fetched
  not_found : Fetched
  broken : ℕ → Fetched

abbrev pub HeaderFetcher : Type 0
HeaderFetcher = Hash → Fetched

-- `too_deep` is an error that wraps ErrForkTooDeep.
pub data Outcome (A : Type 0) : Type 0 where
  ok : A → Outcome A
  too_deep : Outcome A
  failed : ℕ → Outcome A

-- A part of the search: it reads and writes the cache, which may be nil.
abbrev pub Search : Type 0 → Type 0
Search A = Option HeaderCache → Outcome A × Option HeaderCache

abbrev pub continue_with :
    {A B : Type 0}
    → (A → Search B)
    → Outcome A × Option HeaderCache
    → Outcome B × Option HeaderCache
continue_with f (ok a, cache) = f a cache
continue_with f (too_deep, cache) = (too_deep, cache)
continue_with f (failed e, cache) = (failed e, cache)

infixl 5 ◌>>=◌
abbrev pub ◌>>=◌ : {A B : Type 0} → Search A → (A → Search B) → Search B
◌>>=◌ m f cache = continue_with f (m cache)

abbrev pub pure : {A : Type 0} → A → Search A
pure a cache = (ok a, cache)

abbrev pub give_up : {A : Type 0} → Search A
give_up cache = (too_deep, cache)

-- The part of fetchHeader that asks the view.
unfoldable pub ask : Fetched → Branch → Search BlockMeta
ask (header meta) branch none = (ok meta, none)
ask (header meta) branch (some cache) = (ok meta, some (put cache branch meta))
ask not_found branch cache = (too_deep, cache)
ask (broken e) branch cache = (failed e, cache)

unfoldable pub ask_unless :
    Option BlockMeta × HeaderCache → HeaderFetcher → Branch → Hash → Search BlockMeta
ask_unless (some meta, cache) fetch branch h _ = (ok meta, some cache)
ask_unless (none, cache) fetch branch h _ = ask (fetch h) branch (some cache)

-- fetchHeader
unfoldable pub fetch_header : HeaderFetcher → Branch → Hash → Search BlockMeta
unfolding ask ask_unless
fetch_header fetch branch h none = ask (fetch h) branch none
fetch_header fetch branch h (some cache) =
    ask_unless (get cache branch h) fetch branch h (some cache)

-- One of the two loops that bring the taller side down. The budget is maxWalk less the steps taken.
unfoldable pub descend : ℕ → HeaderFetcher → Branch → BlockMeta → ℤ → Search (BlockMeta × ℕ)
descend zero fetch branch a target =
    if ltb_ℤ target a.height
    then (fetch_header fetch branch a.prev_hash >>= λ _. give_up)
    else pure (a, zero)
descend (suc budget) fetch branch a target =
    if ltb_ℤ target a.height
    then (fetch_header fetch branch a.prev_hash >>= λ a'. descend budget fetch branch a' target)
    else pure (a, suc budget)

-- The loop that steps both sides back until they meet.
unfoldable pub meet : ℕ → HeaderFetcher → HeaderFetcher → BlockMeta → BlockMeta → Search BlockRef
meet zero sf_fetch sq_fetch a b =
    if a.hash == b.hash
    then pure (record { hash = a.hash; height = a.height })
    else if eqb_ℤ a.height (pos 0) || eqb_ℤ b.height (pos 0)
    then give_up
    else (fetch_header sf_fetch sf a.prev_hash >>= λ a'.
        fetch_header sq_fetch sq b.prev_hash >>= λ b'. give_up)
meet (suc budget) sf_fetch sq_fetch a b =
    if a.hash == b.hash
    then pure (record { hash = a.hash; height = a.height })
    else if eqb_ℤ a.height (pos 0) || eqb_ℤ b.height (pos 0)
    then give_up
    else (fetch_header sf_fetch sf a.prev_hash >>= λ a'.
        fetch_header sq_fetch sq b.prev_hash >>= λ b'. meet budget sf_fetch sq_fetch a' b')

abbrev pub default_max_ancestor_walk : ℕ
default_max_ancestor_walk = 20000

-- The steps allowed: maxWalk, or the default where it is not positive.
unfoldable pub budget_for : ℤ → ℕ
budget_for max_walk =
    if leb_ℤ max_walk (pos 0) then default_max_ancestor_walk else pos_part max_walk

-- The three loops of FindForkPoint within a budget.
unfoldable pub search_from :
    ℕ → HeaderFetcher → HeaderFetcher → BlockMeta → BlockMeta → Search BlockRef
search_from budget sf_fetch sq_fetch sf_tip sq_tip =
    descend budget sf_fetch sf sf_tip sq_tip.height >>= λ (a, left).
    descend left sq_fetch sq sq_tip a.height >>= λ (b, rest). meet rest sf_fetch sq_fetch a b

-- FindForkPoint
unfoldable pub find_fork_point :
    HeaderFetcher → HeaderFetcher → BlockMeta → BlockMeta → ℤ → Search BlockRef
unfolding search_from budget_for
find_fork_point sf_fetch sq_fetch sf_tip sq_tip max_walk =
    search_from (budget_for max_walk) sf_fetch sq_fetch sf_tip sq_tip
