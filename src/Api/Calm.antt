-- ===== src/Api/Calm.antt =====
-- internal/api/headline.go: when the dashboard says that all is well.
use forktower.Common.{
  ◌≡◌, refl, Bool, true, false, not, ◌&&◌, Option, none, some, List, [], ◌∷◌, ℤ, arith, is_some,
}
use forktower.Sentinel.Phase.{
  Phase, unarmed, armed, split, resolving, resolved_sf_won, resolved_sq_won, unset, unknown,
}
use forktower.Api.Headline.{
  HeadlineState, protected, Check, HeadlineInput, is_splitting, is_degraded, settled_headline,
  checked_headline, phase_headline, unexposed_headline, headline_for, compute_headline,
}

abbrev pub is_protected : HeadlineState → Bool
is_protected protected = true
is_protected _ = false

abbrev pub is_empty : List Check → Bool
is_empty [] = true
is_empty (c ∷ cs) = false

abbrev pub is_unarmed : Phase → Bool
is_unarmed unarmed = true
is_unarmed _ = false

-- Nothing that is tested for is amiss.
abbrev pub is_well : HeadlineInput → Bool
is_well i =
    not (is_some i.exposed_since)
    && not i.paused
    && i.alerts_reachable
    && not i.split_suspected
    && not (is_unarmed i.phase)
    && not (is_splitting i.phase)
    && is_empty i.failing_checks
    && not (is_degraded i.sf_health)
    && not (is_degraded i.sq_health)

checked_protected :
    (i : HeadlineInput) (ended : Bool) (cs : List Check)
    → is_protected (checked_headline i ended cs).state
      ≡ (is_empty cs && not (is_degraded i.sf_health) && not (is_degraded i.sq_health))
unfolding checked_headline settled_headline
checked_protected i ended [] = ground arith
checked_protected i ended (c ∷ cs) = refl

phase_protected :
    (i : HeadlineInput) (p : Phase)
    → is_protected (phase_headline i p).state ≡ (
        not (is_unarmed p)
        && not (is_splitting p)
        && is_empty i.failing_checks
        && not (is_degraded i.sf_health)
        && not (is_degraded i.sq_health))
unfolding phase_headline is_splitting
phase_protected i unarmed = refl
phase_protected i split = refl
phase_protected i resolving = refl
phase_protected i resolved_sf_won = checked_protected i true i.failing_checks
phase_protected i resolved_sq_won = checked_protected i true i.failing_checks
phase_protected i armed = checked_protected i false i.failing_checks
phase_protected i unset = checked_protected i false i.failing_checks
phase_protected i (unknown n) = checked_protected i false i.failing_checks

headline_protected :
    (i : HeadlineInput) (o : Option ℤ)
    → is_protected (headline_for i o).state ≡ (
        not (is_some o)
        && not i.paused
        && i.alerts_reachable
        && not i.split_suspected
        && not (is_unarmed i.phase)
        && not (is_splitting i.phase)
        && is_empty i.failing_checks
        && not (is_degraded i.sf_health)
        && not (is_degraded i.sq_health))
unfolding headline_for unexposed_headline
headline_protected i (some since) = refl
headline_protected i none = let k = phase_protected i i.phase in ground arith

-- ComputeHeadline says that the user is protected exactly if no deadline is exposed, watching is
-- not paused, the alerts can reach the user, no split is suspected, the phase is neither unarmed
-- nor one of a split, no check fails, and both views are healthy.
pub compute_headline-protected :
    (i : HeadlineInput) → is_protected (compute_headline i).state ≡ is_well i
unfolding compute_headline
compute_headline-protected i = headline_protected i i.exposed_since
