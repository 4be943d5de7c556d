-- ===== src/Registry/Relevance.antt =====
-- internal/registry/relevance.go: the classifier.
use forktower.Common.{Bool, true, false, not, ◌&&◌, ℤ, pos, ltb_ℤ, leb_ℤ, if◌then◌else◌}
use forktower.Store.Types.{
  CloseState, open_channel, unset, Relevance, relevant, irrelevant, unknown,
}

pub record Facts : Type 0 where
  pub fork_known : Bool
  pub fork_height : ℤ
  pub open_height : ℤ
  pub close_state : CloseState
  pub close_height : ℤ
  pub funding_seen_on_sq : Bool

-- The reasons, one constructor to each constant of the source.
pub data Reason : Type 0 where
  provisional funded_before_fork closed_only_on_sf closed_before_fork funded_after_fork : Reason
  funded_after_fork_but_mirrored open_height_unknown : Reason

-- `f.CloseState != "" && f.CloseState != store.CloseOpen`
unfoldable pub is_closing : CloseState → Bool
is_closing unset = false
is_closing open_channel = false
is_closing _ = true

-- Classify
unfoldable pub classify : Facts → Relevance × Reason
unfolding is_closing
classify f =
    if not f.fork_known
    then (relevant, provisional)
    else if ltb_ℤ (pos 0) f.close_height && leb_ℤ f.close_height f.fork_height
    then (irrelevant, closed_before_fork)
    else if leb_ℤ f.open_height (pos 0)
    then (unknown, open_height_unknown)
    else if ltb_ℤ f.fork_height f.open_height
    then if f.funding_seen_on_sq
      then (relevant, funded_after_fork_but_mirrored)
      else (irrelevant, funded_after_fork)
    else if is_closing f.close_state
    then (relevant, closed_only_on_sf)
    else (relevant, funded_before_fork)
