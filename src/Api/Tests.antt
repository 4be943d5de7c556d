-- ===== src/Api/Tests.antt =====
-- internal/api/headline.go: an installation that cannot reach its user during a split.
use forktower.Common.{◌≡◌, true, false, none, [], pos}
use forktower.ChainView.Types.{ok}
use forktower.Sentinel.Phase.{split}
use forktower.Api.Headline.{HeadlineInput, compute_headline}
use forktower.Api.Calm.{is_protected, is_well, compute_headline-protected}

abbrev unreachable : HeadlineInput
unreachable = record {
  phase = split;
  detected_at = pos 5000;
  sf_health = ok;
  sq_health = ok;
  paused = false;
  paused_since = pos 0;
  alerts_reachable = false;
  failing_checks = [];
  diverging = true;
  split_suspected = false;
  diverging_since = pos 4000;
  exposed_since = none;
}

compute_headline-protected_example :
    is_protected (compute_headline unreachable).state ≡ is_well unreachable
compute_headline-protected_example = compute_headline-protected unreachable
