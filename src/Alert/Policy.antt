-- ===== src/Alert/Policy.antt =====
-- internal/alert/policy.go: the alert that an event warrants. Its words are left out, and so are the
-- events of the towers, which tower.go maps.
use forktower.Common.{
  ℕ, leb, Bool, true, false, Option, none, some, List, [], ◌∷◌, ℤ, if◌then◌else◌,
}
use forktower.ChainView.Types.{
  Branch, HealthState, syncing, ok, degraded, eclipse_suspect, wrong_branch, down, unset, unknown,
}
use forktower.Sentinel.Phase.{
  Phase, unarmed, armed, split, resolving, resolved_sf_won, resolved_sq_won,
}
use forktower.Store.Types.{
  SpendShape, mutual_close, commitment_ours, commitment_unknown, commitment_revoked, justice,
  delayed_sweep, htlc_claim, unknown_shape, SpendStatus, mempool, confirmed, reorged_out,
}
use forktower.Store.Alerts.{
  Tier, info, warning, critical, resolved, loss, Kind, watching_started, watching_stopped,
  split_suspected, split_detected, split_resolving, split_resolved, view_degraded,
  view_wrong_branch, view_recovered, channel_spent, channel_spent_unconfirmed, spend_disappeared,
  deadline_warning, deadline_resolved, loss_of_channel, closed_only_on_your_chain, Key, plain,
  after_suspicion, of_view, of_id, of_level,
}

pub data Event : Type 0 where
  split_state_changed : Phase → Phase → Event
  split_suspicion : Bool → Event
  view_health_changed : Branch → HealthState → Event
  funding_spent : ℤ → SpendShape → SpendStatus → Event
  mempool_sighting : ℤ → SpendShape → Event
  spend_reorged_out : ℤ → Event
  deadline_escalated : ℤ → ℕ → Event
  deadline_ended : ℤ → Event
  deadline_expired_loss : ℤ → Event
  unmapped : Event

pub record Candidate : Type 0 where
  pub tier : Tier
  pub kind : Kind
  pub key : Key
  pub closes : List Key
  pub only_if_standing : Bool

abbrev pub candidate : Tier → Kind → Key → List Key → Candidate
candidate tier kind key closes = record {
  tier = tier;
  kind = kind;
  key = key;
  closes = closes;
  only_if_standing = false;
}

unfoldable pub tier_rank : Tier → ℕ
tier_rank info = 1
tier_rank resolved = 1
tier_rank warning = 2
tier_rank critical = 3
tier_rank loss = 3

-- config.MinTier, with the string that no transport is configured with.
pub data MinTier : Type 0 where
  min_info min_warning min_critical min_unset : MinTier

unfoldable pub min_tier_rank : MinTier → ℕ
min_tier_rank min_info = 1
min_tier_rank min_warning = 2
min_tier_rank min_critical = 3
min_tier_rank min_unset = 1

-- Deliverable
unfoldable pub deliverable : Tier → MinTier → Bool
unfolding tier_rank min_tier_rank
deliverable tier threshold = leb (min_tier_rank threshold) (tier_rank tier)

-- Urgent
unfoldable pub urgent : Tier → Bool
unfolding deliverable
urgent tier = deliverable tier min_critical

-- mapSplitSuspected
unfoldable pub map_split_suspected : Bool → Candidate
map_split_suspected false =
    candidate resolved split_resolved (after_suspicion split_resolved) (plain split_suspected ∷ [])
map_split_suspected true = candidate warning split_suspected (plain split_suspected) []

unfoldable pub was_unarmed : Phase → Bool
was_unarmed unarmed = true
was_unarmed _ = false

abbrev split_ended : Candidate
split_ended =
    candidate resolved split_resolved (plain split_resolved)
      (plain split_detected ∷ plain split_resolving ∷ plain split_suspected ∷ [])

-- mapSplitState, of the state before and after.
unfoldable pub map_split_state : Phase → Phase → Option Candidate
unfolding was_unarmed
map_split_state old armed =
    if was_unarmed old
    then some (candidate info watching_started (plain watching_started) [])
    else none
map_split_state old unarmed = some (candidate warning watching_stopped (plain watching_stopped) [])
map_split_state old split =
    some (candidate warning split_detected (plain split_detected) (plain split_suspected ∷ []))
map_split_state old resolving = some (candidate info split_resolving (plain split_resolving) [])
map_split_state old resolved_sf_won = some split_ended
map_split_state old resolved_sq_won = some split_ended
map_split_state old _ = none

abbrev view_trouble : Branch → Candidate
view_trouble view = candidate warning view_degraded (of_view view_degraded view) []

-- mapViewHealth
unfoldable pub map_view_health : Branch → HealthState → Option Candidate
map_view_health view ok = some (
    candidate resolved view_recovered (of_view view_recovered view)
      (of_view view_wrong_branch view ∷ of_view view_degraded view ∷ []))
map_view_health view wrong_branch =
    some (candidate critical view_wrong_branch (of_view view_wrong_branch view) [])
map_view_health view syncing = some (view_trouble view)
map_view_health view degraded = some (view_trouble view)
map_view_health view eclipse_suspect = some (view_trouble view)
map_view_health view down = some (view_trouble view)
map_view_health view unset = none
map_view_health view (unknown _) = none

abbrev spent_at : Tier → ℤ → Option Candidate
spent_at tier channel = some (candidate tier channel_spent (of_id channel_spent channel) [])

unfoldable pub map_shape : ℤ → SpendShape → Option Candidate
map_shape channel mutual_close = spent_at info channel
map_shape channel commitment_ours = spent_at warning channel
map_shape channel commitment_unknown = spent_at critical channel
map_shape channel commitment_revoked = spent_at critical channel
map_shape channel justice = spent_at critical channel
map_shape channel delayed_sweep = spent_at critical channel
map_shape channel htlc_claim = spent_at critical channel
map_shape channel unknown_shape = spent_at critical channel
map_shape channel _ = none

-- mapFundingSpent
unfoldable pub map_funding_spent : ℤ → SpendShape → SpendStatus → Option Candidate
unfolding map_shape
map_funding_spent channel shape confirmed = map_shape channel shape
map_funding_spent channel shape mempool = none
map_funding_spent channel shape reorged_out = none

-- mapMempoolSighting
unfoldable pub map_mempool_sighting : ℤ → SpendShape → Option Candidate
map_mempool_sighting channel mutual_close = none
map_mempool_sighting channel _ =
    some (candidate critical channel_spent_unconfirmed (of_id channel_spent_unconfirmed channel) [])

-- MapEventToAlert
unfoldable pub map_event_to_alert : Event → Option Candidate
unfolding map_split_state map_split_suspected map_view_health map_funding_spent map_mempool_sighting
map_event_to_alert (split_state_changed old new) = map_split_state old new
map_event_to_alert (split_suspicion suspected) = some (map_split_suspected suspected)
map_event_to_alert (view_health_changed view health) = map_view_health view health
map_event_to_alert (funding_spent channel shape status) = map_funding_spent channel shape status
map_event_to_alert (mempool_sighting channel shape) = map_mempool_sighting channel shape
map_event_to_alert (spend_reorged_out id) =
    some (candidate warning spend_disappeared (of_id spend_disappeared id) [])
map_event_to_alert (deadline_escalated id level) =
    some (candidate critical deadline_warning (of_level deadline_warning id level) [])
map_event_to_alert (deadline_ended id) =
    some (candidate resolved deadline_resolved (of_id deadline_resolved id) [])
map_event_to_alert (deadline_expired_loss id) =
    some (candidate loss loss_of_channel (of_id loss_of_channel id) [])
map_event_to_alert unmapped = none

-- ClosedOnlyOnYourChain
abbrev pub closed_only : ℤ → Candidate
closed_only channel =
    candidate warning closed_only_on_your_chain (of_id closed_only_on_your_chain channel) []
