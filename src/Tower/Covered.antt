-- ===== src/Tower/Covered.antt =====
-- internal/responder/tower/coverage.go: what a verdict means.
use forktower.Common.{◌≡◌, refl, Bool, true, false, not, ◌&&◌, ◌||◌, ltb_ℤ, arith}
use forktower.Tower.Coverage.{
  PolicyType, policy_legacy, policy_anchor, policy_taproot, policy_unknown, policy_for_channel,
  supports, Inputs, grace_period_seconds, explain, assess_policy, assess,
}

-- The session type that a channel needs is known.
abbrev pub is_known_policy : PolicyType → Bool
is_known_policy policy_unknown = false
is_known_policy _ = true

-- The node holds a session with the tower of the type that the channel needs.
abbrev pub holds_session : Inputs → Bool
holds_session i =
    is_known_policy (policy_for_channel i.chan_type)
    && i.session_policies (policy_for_channel i.chan_type)

-- Both ends can make the session, and the lack of one has an excuse.
abbrev pub is_excused : Inputs → Bool
is_excused i =
    supports i.client_version (policy_for_channel i.chan_type)
    && supports i.tower_version (policy_for_channel i.chan_type)
    && ((not i.tower_serving && i.gives_reason)
        || ltb_ℤ i.registered_for_seconds grace_period_seconds)

policy_assessed :
    (i : Inputs) (p : PolicyType)
    → ((assess_policy i p).coverable ≡ (is_known_policy p && i.session_policies p))
      × ((assess_policy i p).still_settling ≡ (
          not (is_known_policy p && i.session_policies p)
          && (supports i.client_version p
              && supports i.tower_version p
              && ((not i.tower_serving && i.gives_reason)
                  || ltb_ℤ i.registered_for_seconds grace_period_seconds))))
unfolding assess_policy explain
policy_assessed i policy_legacy = ground arith
policy_assessed i policy_anchor = ground arith
policy_assessed i policy_taproot = ground arith
policy_assessed i policy_unknown = (refl, refl)

-- Assess says that a tower covers a channel exactly if the session type that the channel needs is
-- known and the node holds such a session with the tower; and that the tower is settling exactly
-- if it is not covered, both versions support the type, and the tower said why it does not serve
-- or was registered less than ten minutes ago.
pub assess-verdict :
    (i : Inputs)
    → ((assess i).coverable ≡ holds_session i)
      × ((assess i).still_settling ≡ (not (holds_session i) && is_excused i))
unfolding assess
assess-verdict i = policy_assessed i (policy_for_channel i.chan_type)
