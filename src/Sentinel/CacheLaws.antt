-- ===== src/Sentinel/CacheLaws.antt =====
-- internal/sentinel: the laws of the header cache.
use forktower.Common.{
  ℕ, zero, suc, ◌+◌, ◌-◌, ◌≤◌, ◌<◌, true, Option, none, some, List, [], ◌∷◌, length, All, ltb, ◌≡◌,
  refl, sym, ◌∙◌, ap, subst, inl, inr, arith, Bool-cases, Option-cases,
}
use forktower.ChainView.Types.{Hash, Branch, BlockMeta}
use forktower.Sentinel.HeaderCache.{
  Entry, HeaderCache, has_key, find, remove, get, drop_last, evict, put,
}
use forktower.Sentinel.ForkPoint.{
  Fetched, header, not_found, broken, HeaderFetcher, ask, ask_unless, fetch_header,
}

length-remove-le : (b : Branch) (h : Hash) (es : List Entry) → length (remove b h es) ≤ length es
unfolding remove
length-remove-le b h [] = omega arith
length-remove-le b h (e ∷ es) = ground (arith, length-remove-le b h es)

length-remove-found :
    (b : Branch) (h : Hash) (es : List Entry) (m : BlockMeta)
    → find b h es ≡ some m
    → length (remove b h es) + 1 ≡ length es
unfolding find remove
length-remove-found b h [] m e = cc
length-remove-found b h (x ∷ es) m e = ground (arith, length-remove-found b h es m)

length-drop_last : (es : List Entry) → length (drop_last es) ≡ length es - 1
unfolding drop_last
length-drop_last [] = refl
length-drop_last (e ∷ []) = refl
length-drop_last (e ∷ f ∷ es) = omega (arith, length-drop_last (f ∷ es))

length-evict-le :
    (fuel limit : ℕ) (es : List Entry)
    → length es ≤ fuel + limit
    → length (evict fuel limit es) ≤ limit
unfolding evict
length-evict-le zero limit es h = omega arith
length-evict-le (suc fuel) limit es h =
    ground (arith, length-drop_last es, length-evict-le fuel limit (drop_last es))

-- No operation leaves more entries than the limit.
abbrev pub IsBounded : HeaderCache → Type 0
IsBounded c = length c.entries ≤ c.limit

-- Putting a header keeps the number of entries within the limit.
pub put-IsBounded :
    (c : HeaderCache) (b : Branch) (m : BlockMeta) → IsBounded c → IsBounded (put c b m)
unfolding put
put-IsBounded c b m h = elim (Option-cases (find b m.hash c.entries)) [
  | inl miss ↦ ground (
    arith,
    length-evict-le (suc (length c.entries)) c.limit
        (record { branch = b; hash = m.hash; meta = m } ∷ c.entries),
  )
  | inr (m', hit) ↦ ground (arith, length-remove-found b m.hash c.entries m')
]

-- Eviction keeps the entry at the front, where the limit leaves room for one.
evict-head :
    (fuel limit : ℕ) (e : Entry) (es : List Entry)
    → 0 < limit
    → (rest : List Entry) × (evict fuel limit (e ∷ es) ≡ e ∷ rest)
unfolding evict drop_last
evict-head zero limit e es h = (es, refl)
evict-head (suc fuel) limit e [] h = ([], ground arith)
evict-head (suc fuel) limit e (f ∷ es) h = elim (Bool-cases (ltb limit (length (e ∷ f ∷ es)))) [
  | inl long ↦
      let (rest, kept) = evict-head fuel limit e (drop_last (f ∷ es)) h in (rest, rw long kept)
  | inr fits ↦ (f ∷ es, rw fits)
]

has_key_self :
    (b : Branch) (m : BlockMeta)
    → has_key b m.hash (record { branch = b; hash = m.hash; meta = m }) ≡ true
has_key_self b m = ground arith

find-head :
    (b : Branch) (m : BlockMeta) (es : List Entry)
    → find b m.hash (record { branch = b; hash = m.hash; meta = m } ∷ es) ≡ some m
unfolding find
find-head b m es = rw (has_key_self b m)

get-of_find :
    (c : HeaderCache) (b : Branch) (h : Hash) (m : BlockMeta)
    → find b h c.entries ≡ some m
    → (get c b h).0 ≡ some m
unfolding get
get-of_find c b h m e = ground arith

find-put :
    (c : HeaderCache) (b : Branch) (m : BlockMeta)
    → 0 < c.limit
    → find b m.hash (put c b m).entries ≡ some m
unfolding put
find-put c b m h = elim (Option-cases (find b m.hash c.entries)) [
  | inl miss ↦
      let new : Entry = record { branch = b; hash = m.hash; meta = m } in
      let (rest, kept) = evict-head (suc (length c.entries)) c.limit new c.entries h in
      rw (miss, put) (ap (find b m.hash) kept ∙ find-head b m rest)
  | inr (m', hit) ↦ rw (hit, put) (find-head b m (remove b m.hash c.entries))
]

-- In a cache with a positive limit, a header that was put is got.
pub get-put :
    (c : HeaderCache) (b : Branch) (m : BlockMeta)
    → 0 < c.limit
    → (get (put c b m) b m.hash).0 ≡ some m
get-put c b m h = get-of_find (put c b m) b m.hash m (find-put c b m h)

-- Every entry is what the view of its branch would answer now.
abbrev pub Coherent : (Branch → HeaderFetcher) → List Entry → Type 0
Coherent view es = All (λ e. view e.branch e.hash ≡ header e.meta) es

find-Coherent :
    (view : Branch → HeaderFetcher) (b : Branch) (h : Hash) (es : List Entry) (m : BlockMeta)
    → Coherent view es
    → find b h es ≡ some m
    → view b h ≡ header m
unfolding find
find-Coherent view b h [] m c e = cc
find-Coherent view b h (x ∷ es) m c e = ground (arith, find-Coherent view b h es m c.1)

remove-Coherent :
    (view : Branch → HeaderFetcher) (b : Branch) (h : Hash) (es : List Entry)
    → Coherent view es
    → Coherent view (remove b h es)
unfolding remove
remove-Coherent view b h [] c = c
remove-Coherent view b h (x ∷ es) c = elim (Bool-cases (has_key b h x)) [
  | inl k ↦ rw k c.1
  | inr k ↦ rw k (c.0, remove-Coherent view b h es c.1)
]

drop_last-Coherent :
    (view : Branch → HeaderFetcher) (es : List Entry)
    → Coherent view es
    → Coherent view (drop_last es)
unfolding drop_last
drop_last-Coherent view [] c = c
drop_last-Coherent view (x ∷ []) c = tt
drop_last-Coherent view (x ∷ y ∷ es) c = (c.0, drop_last-Coherent view (y ∷ es) c.1)

evict-Coherent :
    (view : Branch → HeaderFetcher) (fuel limit : ℕ) (es : List Entry)
    → Coherent view es
    → Coherent view (evict fuel limit es)
unfolding evict
evict-Coherent view zero limit es c = c
evict-Coherent view (suc fuel) limit es c = elim (Bool-cases (ltb limit (length es))) [
  | inl l ↦ rw l (evict-Coherent view fuel limit (drop_last es) (drop_last-Coherent view es c))
  | inr l ↦ rw l c
]

put-Coherent :
    (view : Branch → HeaderFetcher) (c : HeaderCache) (b : Branch) (m : BlockMeta)
    → Coherent view c.entries
    → view b m.hash ≡ header m
    → Coherent view (put c b m).entries
unfolding put
put-Coherent view c b m k e = elim (Option-cases (find b m.hash c.entries)) [
  | inl miss ↦ rw (miss, put) (evict-Coherent view (suc (length c.entries)) c.limit _ (e, k))
  | inr (m', hit) ↦ rw (hit, put) (e, remove-Coherent view b m.hash c.entries k)
]

get-Coherent :
    (view : Branch → HeaderFetcher) (c : HeaderCache) (b : Branch) (h : Hash)
    → Coherent view c.entries
    → Coherent view (get c b h).1.entries
unfolding get
get-Coherent view c b h k = elim (Option-cases (find b h c.entries)) [
  | inl miss ↦ rw (miss, get) k
  | inr (m, hit) ↦
      rw (hit, get) (find-Coherent view b h c.entries m k hit, remove-Coherent view b h c.entries k)
]

-- A view answers a request for a hash with the header that has it.
abbrev pub IsHonest : HeaderFetcher → Type 0
IsHonest fetch = (h : Hash) (m : BlockMeta) → fetch h ≡ header m → m.hash ≡ h

abbrev pub CoherentCache : (Branch → HeaderFetcher) → Option HeaderCache → Type 0
CoherentCache view none = Unit
CoherentCache view (some c) = Coherent view c.entries

ask-Coherent :
    (view : Branch → HeaderFetcher) (b : Branch) (h : Hash) (c : HeaderCache)
    → IsHonest (view b)
    → Coherent view c.entries
    → ((ask (view b h) b (some c)).0 ≡ (ask (view b h) b none).0)
      × CoherentCache view (ask (view b h) b (some c)).1
unfolding ask
ask-Coherent view b h c honest k = ask_on (view b h) refl
  where
    ask_on :
        (f : Fetched)
        → view b h ≡ f
        → ((ask f b (some c)).0 ≡ (ask f b none).0) × CoherentCache view (ask f b (some c)).1
    ask_on (header m) e = (refl, put-Coherent view c b m k (ap (view b) (honest h m e) ∙ e))
    ask_on not_found e = (refl, k)
    ask_on (broken x) e = (refl, k)

get-miss :
    (c : HeaderCache) (b : Branch) (h : Hash) → find b h c.entries ≡ none → get c b h ≡ (none, c)
unfolding get
get-miss c b h e = ground arith

get-hit :
    (c : HeaderCache) (b : Branch) (h : Hash) (m : BlockMeta)
    → find b h c.entries ≡ some m
    → get c b h ≡ (some m, (get c b h).1)
unfolding get
get-hit c b h m e = ground arith

-- With a cache that holds only what the views would answer, and a view that answers a hash with
-- the header of that hash, fetching a header through the cache gives what fetching it without
-- gives, and leaves such a cache.
pub fetch_header-cached :
    (view : Branch → HeaderFetcher) (b : Branch) (h : Hash) (c : HeaderCache)
    → IsHonest (view b)
    → Coherent view c.entries
    → ((fetch_header (view b) b h (some c)).0 ≡ (fetch_header (view b) b h none).0)
      × CoherentCache view (fetch_header (view b) b h (some c)).1
unfolding fetch_header
fetch_header-cached view b h c honest k = elim (Option-cases (find b h c.entries)) [
  | inl miss ↦ rw (get-miss c b h miss) (ask-Coherent view b h c honest k)
  | inr (m, hit) ↦
      subst
        (λ x.
          ((ask_unless x (view b) b h (some c)).0 ≡ (ask (view b h) b none).0)
          × CoherentCache view (ask_unless x (view b) b h (some c)).1)
        (sym (get-hit c b h m hit))
        (rw (find-Coherent view b h c.entries m k hit) refl, get-Coherent view c b h k)
]
