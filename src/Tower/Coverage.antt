-- ===== src/Tower/Coverage.antt =====
-- internal/responder/tower/coverage.go: the coverage of a channel by a tower. A reason is a
-- constructor for its sentence, and the reported text of a version is left out.
use forktower.Common.{
  ℕ, leb, ltb, ◌==◌, Bool, true, false, not, ◌&&◌, Option, none, some, ℤ, pos, ltb_ℤ, if◌then◌else◌,
}

-- store.ChanType; a string outside the enumeration is `other_type`.
pub data ChanType : Type 0 where
  legacy static_remote anchors taproot type_unknown other_type : ChanType

pub data PolicyType : Type 0 where
  policy_legacy policy_anchor policy_taproot policy_unknown : PolicyType

-- PolicyForChannel
unfoldable pub policy_for_channel : ChanType → PolicyType
policy_for_channel taproot = policy_taproot
policy_for_channel anchors = policy_anchor
policy_for_channel legacy = policy_legacy
policy_for_channel static_remote = policy_legacy
policy_for_channel type_unknown = policy_unknown
policy_for_channel other_type = policy_unknown

pub record Version : Type 0 where
  pub major : ℕ
  pub minor : ℕ
  pub known : Bool

unfoldable pub at_least : Version → ℕ → ℕ → Bool
at_least v major minor =
    if not v.known then false else if v.major == major then leb minor v.minor else ltb major v.major

-- firstVersionFor, the release from the beginning being 0.0.
unfoldable pub first_version_for : PolicyType → Option (ℕ × ℕ)
first_version_for policy_legacy = some (0, 0)
first_version_for policy_anchor = some (0, 12)
first_version_for policy_taproot = some (0, 18)
first_version_for policy_unknown = none

unfoldable pub supports_from : Version → Option (ℕ × ℕ) → Bool
unfolding at_least
supports_from v none = false
supports_from v (some (major, minor)) =
    if major == 0 && minor == 0 then v.known else at_least v major minor

-- Supports
unfoldable pub supports : Version → PolicyType → Bool
unfolding supports_from first_version_for
supports v p = supports_from v (first_version_for p)

-- `gives_reason`: the tower said why it is not serving.
pub record Inputs : Type 0 where
  pub chan_type : ChanType
  pub tower_version : Version
  pub client_version : Version
  pub session_policies : PolicyType → Bool
  pub registered_for_seconds : ℤ
  pub tower_serving : Bool
  pub gives_reason : Bool

-- GracePeriodSeconds
abbrev pub grace_period_seconds : ℤ
grace_period_seconds = pos 600

pub data Reason : Type 0 where
  type_not_known session_held client_too_old tower_too_old : Reason
  tower_not_serving registered_lately not_negotiated : Reason

pub record Verdict : Type 0 where
  pub coverable : Bool
  pub reason : Reason
  pub policy : PolicyType
  pub still_settling : Bool

abbrev is_unknown : PolicyType → Bool
is_unknown policy_unknown = true
is_unknown _ = false

abbrev not_covered : PolicyType → Reason → Bool → Verdict
not_covered policy reason settling = record {
  coverable = false;
  reason = reason;
  policy = policy;
  still_settling = settling;
}

-- The end of Assess, where there is no session.
unfoldable pub explain : Inputs → PolicyType → Verdict
unfolding supports
explain i policy =
    if not (supports i.client_version policy)
    then not_covered policy client_too_old false
    else if not (supports i.tower_version policy)
    then not_covered policy tower_too_old false
    else if not i.tower_serving && i.gives_reason
    then not_covered policy tower_not_serving true
    else if ltb_ℤ i.registered_for_seconds grace_period_seconds
    then not_covered policy registered_lately true
    else not_covered policy not_negotiated false

unfoldable pub assess_policy : Inputs → PolicyType → Verdict
unfolding explain
assess_policy i policy =
    if is_unknown policy
    then not_covered policy type_not_known false
    else if i.session_policies policy
    then record { coverable = true; reason = session_held; policy = policy; still_settling = false }
    else explain i policy

-- Assess
unfoldable pub assess : Inputs → Verdict
unfolding assess_policy policy_for_channel
assess i = assess_policy i (policy_for_channel i.chan_type)
