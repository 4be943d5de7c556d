-- ===== src/Sentinel/SearchTests.antt =====
-- The search for the separation and its cache, on two chains that part above block 7.
use forktower.Common.{if◌then◌else◌, ◌==◌, some, none, [], ◌∷◌, ◌≡◌, refl, pos, arith}
use forktower.ChainView.Types.{Branch, sf, sq, other, BlockMeta}
use forktower.Sentinel.HeaderCache.{HeaderCache}
use forktower.Sentinel.ForkPoint.{header, not_found, HeaderFetcher, fetch_header}
use forktower.Sentinel.ForkWalk.{Steps}
use forktower.Sentinel.ForkSearch.{SearchFinds, search_finds}
use forktower.Sentinel.CacheLaws.{CoherentCache, IsHonest, fetch_header-cached}
use forktower.Sentinel.Examples.{shared_block}

abbrev sf_one : BlockMeta
sf_one = record { hash = 8; height = pos 101; prev_hash = 7; time = pos 60600 }

abbrev sq_one : BlockMeta
sq_one = record { hash = 9; height = pos 101; prev_hash = 7; time = pos 60700 }

abbrev sq_two : BlockMeta
sq_two = record { hash = 10; height = pos 102; prev_hash = 9; time = pos 61300 }

abbrev sf_fetch : HeaderFetcher
sf_fetch h = if h == 7 then header shared_block else if h == 8 then header sf_one else not_found

abbrev sq_fetch : HeaderFetcher
sq_fetch h =
    if h == 7
    then header shared_block
    else if h == 9
    then header sq_one
    else if h == 10
    then header sq_two
    else not_found

sf_walk : Steps sf_fetch 1 sf_one shared_block
sf_walk = (shared_block, refl, refl, (refl, refl))

sq_walk : Steps sq_fetch 2 sq_two shared_block
sq_walk = (sq_one, refl, refl, (shared_block, refl, refl, (refl, refl)))

search_finds_example : SearchFinds 5 sf_fetch sq_fetch sf_one sq_two shared_block
search_finds_example =
    search_finds 5 1 2 sf_fetch sq_fetch sf_one sq_two shared_block shared_block (omega arith)
      (omega arith) sf_walk sq_walk refl refl

abbrev small_cache : HeaderCache
small_cache = record { limit = 2; entries = record { branch = sf; hash = 8; meta = sf_one } ∷ [] }

abbrev views : Branch → HeaderFetcher
views sf = sf_fetch
views sq = sq_fetch
views (other _) = λ h. not_found

sf_fetch-IsHonest : IsHonest sf_fetch
sf_fetch-IsHonest h m e = ground arith

fetch_header-cached_example :
    ((fetch_header (views sf) sf 7 (some small_cache)).0 ≡ (fetch_header (views sf) sf 7 none).0)
    × CoherentCache views (fetch_header (views sf) sf 7 (some small_cache)).1
fetch_header-cached_example =
    fetch_header-cached views sf 7 small_cache sf_fetch-IsHonest (refl, tt)
