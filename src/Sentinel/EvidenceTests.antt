-- ===== src/Sentinel/EvidenceTests.antt =====
-- The evidence theorems at concrete ticks.
use forktower.Common.{
  true, false, some, [], ◌∷◌, ◌≡◌, refl, ◌↔◌, ◌⊎◌, inl, pos, arith, ◌++◌, ◌≤ℤ◌, sub64, wrap, ◌-ℤ◌,
}
use forktower.Common.Fractions.{fractions}
use forktower.ChainView.Types.{usable}
use forktower.Sentinel.Phase.{unarmed, split}
use forktower.Sentinel.State.{State, new_state}
use forktower.Sentinel.Decide.{agree, decide_phase, run, tips_agree}
use forktower.Sentinel.Agreement.{Lags, tips_agree_iff}
use forktower.Sentinel.Evidence.{HeightsValid, Separated, armed_splits_iff, unarmed_splits_iff}
use forktower.Sentinel.Silence.{Silent, suspicion_survives_silence}
use forktower.Sentinel.Examples.{
  sf_block, sq_block, two_hashes, apart_tick, outage_tick, armed_apart,
}

heights_valid : HeightsValid fractions armed_apart apart_tick
unfolding new_state
heights_valid = record { sf = omega arith; sq = omega arith; found = omega arith; tracked = tt }

armed_splits_iff_example : ((decide_phase fractions armed_apart apart_tick).0 ≡ split) ↔ (
    (agree fractions armed_apart apart_tick ≡ false) × Separated fractions armed_apart apart_tick)
armed_splits_iff_example = armed_splits_iff fractions armed_apart apart_tick heights_valid refl

abbrev unarmed_apart : State fractions
unarmed_apart = record armed_apart { phase = unarmed }

unarmed_valid : HeightsValid fractions unarmed_apart apart_tick
unfolding new_state
unarmed_valid = record { sf = omega arith; sq = omega arith; found = omega arith; tracked = tt }

unarmed_splits_iff_example : ((decide_phase fractions unarmed_apart apart_tick).0 ≡ split) ↔ (
    (usable unarmed_apart.sf_health ≡ true)
    × (usable unarmed_apart.sq_health ≡ true)
    × (agree fractions unarmed_apart apart_tick ≡ false)
    × Separated fractions unarmed_apart apart_tick)
unarmed_splits_iff_example =
    unarmed_splits_iff fractions unarmed_apart apart_tick unarmed_valid refl

silence : Silent fractions outage_tick
silence = record { unseen = inl refl; uncompared = refl; not_agreed = refl }

abbrev suspecting : State fractions
suspecting = record armed_apart { disagreement = some two_hashes; disagreement_since = pos 60000 }

long_enough : pos 3600 ≤ℤ sub64 (pos 70000) (pos 60000)
unfolding sub64 wrap ◌-ℤ◌
long_enough = omega arith

suspicion_survives_silence_example :
    (run fractions suspecting ((outage_tick ∷ []) ++ outage_tick ∷ [])).split_suspected ≡ true
suspicion_survives_silence_example =
    suspicion_survives_silence fractions suspecting (outage_tick ∷ []) outage_tick two_hashes
      (silence, tt) silence refl (omega arith) (omega arith) long_enough

tips_agree_iff_example :
    (tips_agree (some sf_block) (some sq_block) (pos 6) [] (20 ∷ 11 ∷ []) ≡ true) ↔ (
      (sf_block.hash ≡ sq_block.hash)
      ⊎ (Lags sf_block sq_block (pos 6) (20 ∷ 11 ∷ []) ⊎ Lags sq_block sf_block (pos 6) []))
tips_agree_iff_example = tips_agree_iff sf_block sq_block (pos 6) [] (20 ∷ 11 ∷ []) (omega arith)
