-- ===== src/Sentinel/HeaderCache.antt =====
-- internal/sentinel/forkpoint.go: the cache of headers, least recently used first out. The source
-- keeps the entries in a linked list, most recent first, and a map from key to list element; the
-- list of entries stands here for both, a map lookup being the search for the key.
use forktower.Common.{
  ℕ, zero, suc, Bool, false, ◌==◌, Option, none, some, List, [], ◌∷◌, length, ℤ, pos, pos_part,
  leb_ℤ, ltb, ite, if◌then◌else◌,
}
use forktower.ChainView.Types.{Hash, Branch, Branch-discrete, BlockMeta}

-- cacheEntry with its cacheKey.
pub record Entry : Type 0 where
  pub branch : Branch
  pub hash : Hash
  pub meta : BlockMeta

pub record HeaderCache : Type 0 where
  pub limit : ℕ
  pub entries : List Entry

abbrev pub default_size : ℕ
default_size = 10000

-- NewHeaderCache
unfoldable pub new_header_cache : ℤ → HeaderCache
new_header_cache limit =
    if leb_ℤ limit (pos 0)
    then record { limit = default_size; entries = [] }
    else record { limit = pos_part limit; entries = [] }

-- The keys are equal.
abbrev pub has_key : Branch → Hash → Entry → Bool
has_key branch h e = ite (Branch-discrete e.branch branch) (e.hash == h) false

-- The map lookup `c.items[key]`.
unfoldable pub find : Branch → Hash → List Entry → Option BlockMeta
find branch h [] = none
find branch h (e ∷ es) = if has_key branch h e then some e.meta else find branch h es

unfoldable pub remove : Branch → Hash → List Entry → List Entry
remove branch h [] = []
remove branch h (e ∷ es) = if has_key branch h e then es else e ∷ remove branch h es

-- `MoveToFront` of the element with the key, given its value.
abbrev pub to_front : Branch → Hash → BlockMeta → List Entry → List Entry
to_front branch h meta es = record { branch = branch; hash = h; meta = meta } ∷ remove branch h es

-- Get
unfoldable pub get : HeaderCache → Branch → Hash → Option BlockMeta × HeaderCache
get c branch h = elim (find branch h c.entries) [
  | none ↦ (none, c)
  | some meta ↦ (some meta, record c { entries = to_front branch h meta c.entries })
]

-- `Remove(Back())`
unfoldable pub drop_last : List Entry → List Entry
drop_last [] = []
drop_last (e ∷ []) = []
drop_last (e ∷ f ∷ es) = e ∷ drop_last (f ∷ es)

-- The eviction loop of Put; a round removes one entry, so the length is fuel enough.
unfoldable pub evict : ℕ → ℕ → List Entry → List Entry
evict zero limit es = es
evict (suc fuel) limit es =
    let rest = evict fuel limit (drop_last es) in if ltb limit (length es) then rest else es

-- Put
unfoldable pub put : HeaderCache → Branch → BlockMeta → HeaderCache
put c branch meta = elim (find branch meta.hash c.entries) [
  | some _ ↦ record c { entries = to_front branch meta.hash meta c.entries }
  | none ↦
      let es = record { branch = branch; hash = meta.hash; meta = meta } ∷ c.entries in
      record c { entries = evict (length es) c.limit es }
]
