-- ===== src/Sentinel/Examples.antt =====
-- Concrete blocks, ticks and states for the tests.
use forktower.Common.{false, none, some, [], ◌∷◌, pos}
use forktower.Common.Fractions.{fractions}
use forktower.ChainView.Types.{BlockRef, BlockMeta, ok, down, ChainTip, invalid}
use forktower.Sentinel.Phase.{armed, split, resolving, unset}
use forktower.Sentinel.State.{HeightDisagreement, Observation, State, new_state}

abbrev pub shared_block : BlockMeta
shared_block = record { hash = 7; height = pos 100; prev_hash = 6; time = pos 60000 }

abbrev pub sf_block : BlockMeta
sf_block = record { hash = 11; height = pos 110; prev_hash = 10; time = pos 66000 }

abbrev pub sq_block : BlockMeta
sq_block = record { hash = 21; height = pos 112; prev_hash = 20; time = pos 67000 }

abbrev pub fork_at : BlockRef
fork_at = record { hash = 7; height = pos 100 }

abbrev pub refused : ChainTip
refused = record { hash = 21; height = pos 112; branch_len = pos 12; status = invalid }

abbrev pub two_hashes : HeightDisagreement
two_hashes = record { height = pos 105; sf_hash = 8; sq_hash = 9 }

-- Two healthy views on two blocks, with the separation found.
abbrev pub apart_tick : Observation fractions
apart_tick = record {
  at = pos 70000;
  sf_tip = some sf_block;
  sq_tip = some sq_block;
  sf_health = ok;
  sq_health = ok;
  sf_tips = refused ∷ [];
  sq_ancestry = [];
  sf_ancestry = [];
  fork_candidate = some fork_at;
  fork_search_failed = false;
  disagreement = none;
  shared_height_agreed = false;
  operator_outcome = unset;
  split_confirm_depth = pos 6;
  split_confirm_secs = pos 21600;
  split_suspect_secs = pos 3600;
  stall_factor = (6, 1);
  divergence_height = pos 101;
  reorg_margin = pos 10;
}

-- Neither view answers.
abbrev pub outage_tick : Observation fractions
outage_tick = record apart_tick {
  sf_tip = none;
  sq_tip = none;
  sf_health = down;
  sq_health = down;
  sf_tips = [];
  fork_candidate = none;
}

abbrev pub fresh : State fractions
fresh = new_state fractions

-- Armed, on two different blocks.
abbrev pub armed_apart : State fractions
armed_apart = record fresh {
  phase = armed;
  sf_tip = some sf_block;
  sq_tip = some sq_block;
  sf_health = ok;
  sq_health = ok;
}

abbrev pub split_state : State fractions
split_state = record armed_apart { phase = split; fork = some fork_at; detected_at = pos 69000 }

abbrev pub resolving_state : State fractions
resolving_state = record split_state { phase = resolving }
