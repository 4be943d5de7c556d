-- ===== src/Watcher/Tip.antt =====
-- internal/watcher/watcher.go: what a new tip does.
use forktower.Common.{
  ◌==◌, Bool, true, false, not, ◌&&◌, ◌||◌, Option, none, some, [], ◌∷◌, ℤ, pos, ◌-ℤ◌, ltb_ℤ, leb_ℤ,
  sub32, if◌then◌else◌,
}
use forktower.ChainView.Types.{BlockRef, BlockMeta}
use forktower.Watcher.State.{Watch, Health, known, no_block}
use forktower.Watcher.Blocks.{process_to, commit_mark, ref_of, close_standing}
use forktower.Watcher.Reorg.{Config, Backend, catch_up}

-- replayingCheckEvery, in nanoseconds.
abbrev pub replaying_check_every : ℤ
replaying_check_every = pos 30000000000

unfoldable pub is_fresh : ℤ → Option Health → Bool
is_fresh now none = false
is_fresh now (some h) = ltb_ℤ (now -ℤ h.at) replaying_check_every

unfoldable pub health_now : ℤ → Option (Bool × ℤ) → Option Health → Option Health
health_now now none cached = none
health_now now (some (replaying, best)) cached =
    some (record { replaying = replaying; best = best; at = now })

-- backendState, of the answer that the node gives if it is asked: none is an error of it, and none
-- of the result is an answer that fails open.
unfoldable pub backend_state : ℤ → Option (Bool × ℤ) → Option Health → Option Health
unfolding is_fresh health_now
backend_state now answer cached =
    if is_fresh now cached then cached else health_now now answer cached

abbrev pub is_replaying : Option Health → Bool
is_replaying none = false
is_replaying (some h) = h.replaying

abbrev pub best_height : Option Health → ℤ
best_height none = pos 0
best_height (some h) = h.best

unfoldable pub keep_health : Option Health → Watch → Watch
keep_health none st = st
keep_health (some h) st = record st { cached = some h }

-- strayChainstate
unfoldable pub stray_chainstate : Config → ℤ → ℤ → Bool
stray_chainstate cfg best height =
    if leb_ℤ best (pos 0) then false else ltb_ℤ height (sub32 best cfg.max_reorg_depth)

-- closeStandingOnce
unfoldable pub close_standing_once : Watch → Watch
close_standing_once st =
    let after = record st { checked_standing = true } in
    if st.checked_standing then after else close_standing after

-- The mark that handleTip reads, once one of another chainstate is discarded.
unfoldable pub own_mark : Config → ℤ → BlockRef → BlockRef
unfolding stray_chainstate
own_mark cfg best last =
    if known last && stray_chainstate cfg best last.height then no_block else last

-- The end of handleTip, from where the mark is read.
unfoldable pub follow_tip : Backend → Config → BlockMeta → BlockRef → Watch → Watch
unfolding catch_up
follow_tip b cfg tip last st =
    let unblocked = record st { blocked_sweep = false } in
    if not (known last)
    then commit_mark (b.reading.saves_mark (ref_of tip)) (ref_of tip) st
    else if tip.hash == last.hash
    then st
    else if tip.prev_hash == last.hash
    then process_to b.reading (tip ∷ []) unblocked
    else catch_up b cfg tip last unblocked

-- handleTip, with the tests for a node that replays and for a stray tip.
unfoldable pub handle_known : Backend → Config → Option Health → BlockMeta → Watch → Watch
unfolding own_mark follow_tip close_standing_once keep_health
handle_known b cfg health tip st =
    let asked = close_standing_once (keep_health health st) in
    let last = own_mark cfg (best_height health) st.last in
    if is_replaying health || stray_chainstate cfg (best_height health) tip.height
    then asked
    else follow_tip b cfg tip last (record asked { last = last })

-- handleTip, of whether the guard has paused it, the time, and the node's answer about itself.
unfoldable pub handle_tip :
    Backend → Config → Bool → ℤ → Option (Bool × ℤ) → BlockMeta → Watch → Watch
unfolding handle_known
handle_tip b cfg paused now answer tip st =
    if paused then st else handle_known b cfg (backend_state now answer st.cached) tip st
