-- ===== src/Sentinel/State.antt =====
-- internal/sentinel/logic.go: what a tick is told, what is remembered, and what the shell must do.
use forktower.Common.{Bool, false, Option, none, List, ℤ, pos, Float64}
use forktower.ChainView.Types.{Hash, Branch, BlockRef, BlockMeta, HealthState, down, ChainTip}
use forktower.Sentinel.Phase.{Phase, unarmed, unset}
use forktower.Sentinel.Cadence.{Cadence, new_cadence}

-- bothDownGrace, ten minutes in seconds.
abbrev pub both_down_grace_secs : ℤ
both_down_grace_secs = pos 600

pub record HeightDisagreement : Type 0 where
  pub height : ℤ
  pub sf_hash : Hash
  pub sq_hash : Hash

-- The sentences that explain a change, one constructor to each text of the source.
pub data Detail : Type 0 where
  none_given : Detail
  operator_recorded : Detail
  producing_again : Detail
  not_recognised : Detail
  both_agree : Detail
  already_rejected : Detail
  already_separated : Detail
  holding_different_blocks : Detail
  has_rejected : Detail
  both_built_past : Detail
  gone_on_holding : Detail
  other_stopped : Detail
  yours_stopped : Detail
  neither_reached : Detail
  history_shared : Detail

module _ (F : Float64) where
  open F use {Carrier}

  pub record Observation : Type 0 where
    pub at : ℤ
    pub sf_tip : Option BlockMeta
    pub sq_tip : Option BlockMeta
    pub sf_health : HealthState
    pub sq_health : HealthState
    pub sf_tips : List ChainTip
    pub sq_ancestry : List Hash
    pub sf_ancestry : List Hash
    pub fork_candidate : Option BlockRef
    pub fork_search_failed : Bool
    pub disagreement : Option HeightDisagreement
    pub shared_height_agreed : Bool
    pub operator_outcome : Phase
    pub split_confirm_depth : ℤ
    pub split_confirm_secs : ℤ
    pub split_suspect_secs : ℤ
    pub stall_factor : Carrier
    pub divergence_height : ℤ
    pub reorg_margin : ℤ

  pub record State : Type 0 where
    pub phase : Phase
    pub fork : Option BlockRef
    pub fork_candidate : Option BlockRef
    pub fork_candidate_since : ℤ
    pub disagreement : Option HeightDisagreement
    pub disagreement_since : ℤ
    pub split_suspected : Bool
    pub detected_at : ℤ
    pub sf_tip : Option BlockMeta
    pub sq_tip : Option BlockMeta
    pub sf_health : HealthState
    pub sq_health : HealthState
    pub sf_cadence : Cadence F
    pub sq_cadence : Cadence F
    pub last_sf_block_at : ℤ
    pub last_sq_block_at : ℤ
    pub both_down_since : ℤ
    pub resolving_candidate : Phase
    pub trust_anchor : ℤ

  unfoldable pub new_state : State
  new_state = record {
    phase = unarmed;
    fork = none;
    fork_candidate = none;
    fork_candidate_since = pos 0;
    disagreement = none;
    disagreement_since = pos 0;
    split_suspected = false;
    detected_at = pos 0;
    sf_tip = none;
    sq_tip = none;
    sf_health = down;
    sq_health = down;
    sf_cadence = new_cadence F;
    sq_cadence = new_cadence F;
    last_sf_block_at = pos 0;
    last_sq_block_at = pos 0;
    both_down_since = pos 0;
    resolving_candidate = unset;
    trust_anchor = pos 0;
  }

  -- `Effect` with its `EffectKind`: each kind carries the fields that the source sets for it.
  pub data Effect : Type 0 where
    persist_state : Effect
    phase_changed : Phase → Phase → Detail → Effect
    branch_extended : Branch → BlockMeta → ℤ → Carrier → Effect
    health_changed : Branch → HealthState → HealthState → Effect
    both_views_down : Detail → Effect
    trust_anchor_changed : ℤ → Detail → Effect
