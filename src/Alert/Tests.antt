-- ===== src/Alert/Tests.antt =====
-- internal/alert: a close by agreement that is replaced by a commitment.
use forktower.Common.{◌≡◌, refl, false, not, some, none, [], ◌∷◌, pos}
use forktower.Store.Types.{commitment_unknown, confirmed}
use forktower.Store.Alerts.{
  info, critical, Alert, Key-discrete, same_key, find_alert, channel_spent, of_id,
}
use forktower.Watcher.Types.{Tx}
use forktower.Watcher.Classify.{classify_shape}
use forktower.Alert.Policy.{
  Candidate, funding_spent, map_event_to_alert, map_funding_spent, map_shape,
}
use forktower.Alert.Alerter.{Services, raise}
use forktower.Alert.Urgency.{
  critical_candidate, is_calm_close, spent-critical, IsStanding, raise-IsStanding, IsSilent,
  raise-IsSilent,
}

abbrev services : Services
services = record {
  now = pos 9000;
  new_id = λ rows. pos 4;
  resolve_fails = false;
  record_fails = false;
}

-- The user has not looked yet at the news of the close by agreement.
abbrev by_agreement : Alert
by_agreement = record {
  id = pos 3;
  tier = info;
  kind = channel_spent;
  key = of_id channel_spent (pos 7);
  created_at = pos 8000;
  last_raised_at = pos 8000;
  acked_at = none;
}

abbrev hostile : Candidate
hostile = record {
  tier = critical;
  kind = channel_spent;
  key = of_id channel_spent (pos 7);
  closes = [];
  only_if_standing = false;
}

hostile_spend :
    map_event_to_alert (funding_spent (pos 7) commitment_unknown confirmed) ≡ some hostile
unfolding map_event_to_alert map_funding_spent map_shape
hostile_spend = refl

raise-IsSilent_example :
    IsSilent (of_id channel_spent (pos 7)) info (raise services hostile (by_agreement ∷ []))
unfolding find_alert same_key Key-discrete
raise-IsSilent_example =
    raise-IsSilent services hostile (by_agreement ∷ []) by_agreement refl refl refl refl

raise-IsStanding_example : IsStanding (of_id channel_spent (pos 7)) (raise services hostile []).0
raise-IsStanding_example = raise-IsStanding services hostile [] refl refl

-- A transaction without a mark of a commitment that pays to no plain script.
abbrev odd_tx : Tx
odd_tx = record {
  id = 60;
  inputs =
      record { previous = record { hash = 11; index = 1 }; sequence = 4294967295; witness = [] }
      ∷ [];
  outputs = record { value = pos 1000; script = 0x6a ∷ [] } ∷ [];
  lock_time = 0;
}

spent-critical_example :
    critical_candidate
      (map_event_to_alert (funding_spent (pos 7) (classify_shape odd_tx none) confirmed))
    ≡ not (is_calm_close odd_tx none)
spent-critical_example = spent-critical (pos 7) odd_tx none
