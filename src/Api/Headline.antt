-- ===== src/Api/Headline.antt =====
-- internal/api/headline.go: the one line that every surface shows. Its words are constructors.
use forktower.Common.{
  ℕ, Bool, true, false, not, ◌||◌, Option, none, some, List, [], ◌∷◌, ℤ, pos, if◌then◌else◌,
}
use forktower.ChainView.Types.{HealthState, ok}
use forktower.Sentinel.Phase.{
  Phase, unarmed, armed, split, resolving, resolved_sf_won, resolved_sq_won, unset, unknown,
}

pub data HeadlineState : Type 0 where
  getting_ready protected attention action_needed at_risk : HeadlineState

pub data Action : Type 0 where
  see_what_is_happening fix_the_setup set_up_notifications : Action
  of_check : ℕ → Action

pub data Words : Type 0 where
  money_at_risk stopped_watching cannot_reach_you separated_and_cannot_reach_you : Words
  may_be_a_split connecting separated may_be_ending : Words
  why_of_check label_of_check : ℕ → Words
  trouble_seeing split_has_ended different_blocks same_chain : Words

-- A ReadinessItem; a text is a number, and `why` is none for the empty one.
pub record Check : Type 0 where
  pub label : ℕ
  pub why : Option ℕ
  pub action : Option Action

pub record Headline : Type 0 where
  pub state : HeadlineState
  pub words : Words
  pub action : Option Action
  pub since : ℤ

-- `exposed_since` is that of the exposed deadline, none where there is no such deadline.
pub record HeadlineInput : Type 0 where
  pub phase : Phase
  pub detected_at : ℤ
  pub sf_health : HealthState
  pub sq_health : HealthState
  pub paused : Bool
  pub paused_since : ℤ
  pub alerts_reachable : Bool
  pub failing_checks : List Check
  pub diverging : Bool
  pub split_suspected : Bool
  pub diverging_since : ℤ
  pub exposed_since : Option ℤ

unfoldable pub is_splitting : Phase → Bool
is_splitting split = true
is_splitting resolving = true
is_splitting _ = false

unfoldable pub is_degraded : HealthState → Bool
is_degraded ok = false
is_degraded _ = true

unfoldable pub words_of_check : ℕ → Option ℕ → Words
words_of_check label (some why) = why_of_check why
words_of_check label none = label_of_check label

abbrev say : HeadlineState → Words → Option Action → ℤ → Headline
say state words action since = record {
  state = state;
  words = words;
  action = action;
  since = since;
}

-- The cases of ComputeHeadline from that of a view in trouble on.
unfoldable pub settled_headline : HeadlineInput → Bool → Headline
unfolding is_degraded
settled_headline i ended =
    if is_degraded i.sf_health || is_degraded i.sq_health
    then say attention trouble_seeing none (pos 0)
    else if ended
    then say protected split_has_ended none i.detected_at
    else if i.diverging
    then say protected different_blocks none i.diverging_since
    else say protected same_chain none (pos 0)

unfoldable pub checked_headline : HeadlineInput → Bool → List Check → Headline
unfolding settled_headline words_of_check
checked_headline i ended [] = settled_headline i ended
checked_headline i ended (first ∷ rest) =
    say attention (words_of_check first.label first.why) first.action (pos 0)

-- The cases from that of the unarmed phase on.
unfoldable pub phase_headline : HeadlineInput → Phase → Headline
unfolding checked_headline
phase_headline i unarmed = say getting_ready connecting none (pos 0)
phase_headline i split = say attention separated none i.detected_at
phase_headline i resolving = say attention may_be_ending none i.detected_at
phase_headline i resolved_sf_won = checked_headline i true i.failing_checks
phase_headline i resolved_sq_won = checked_headline i true i.failing_checks
phase_headline i armed = checked_headline i false i.failing_checks
phase_headline i unset = checked_headline i false i.failing_checks
phase_headline i (unknown _) = checked_headline i false i.failing_checks

-- The cases from that of a pause on.
unfoldable pub unexposed_headline : HeadlineInput → Headline
unfolding phase_headline is_splitting
unexposed_headline i =
    if i.paused
    then say action_needed stopped_watching (some fix_the_setup) i.paused_since
    else if not i.alerts_reachable
    then say action_needed
        (if is_splitting i.phase then separated_and_cannot_reach_you else cannot_reach_you)
        (some set_up_notifications) i.detected_at
    else if i.split_suspected
    then say attention may_be_a_split none i.diverging_since
    else phase_headline i i.phase

unfoldable pub headline_for : HeadlineInput → Option ℤ → Headline
unfolding unexposed_headline
headline_for i (some since) = say at_risk money_at_risk (some see_what_is_happening) since
headline_for i none = unexposed_headline i

-- ComputeHeadline
unfoldable pub compute_headline : HeadlineInput → Headline
unfolding headline_for
compute_headline i = headline_for i i.exposed_since
