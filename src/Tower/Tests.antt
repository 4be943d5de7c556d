-- ===== src/Tower/Tests.antt =====
-- internal/responder/tower: a tower that was registered just now.
use forktower.Common.{◌≡◌, true, false, not, ◌&&◌, pos}
use forktower.Tower.Coverage.{Inputs, anchors, assess}
use forktower.Tower.Covered.{holds_session, is_excused, assess-verdict}

abbrev registered_now : Inputs
registered_now = record {
  chan_type = anchors;
  tower_version = record { major = 0; minor = 18; known = true };
  client_version = record { major = 0; minor = 17; known = true };
  session_policies = λ p. false;
  registered_for_seconds = pos 30;
  tower_serving = true;
  gives_reason = false;
}

assess-verdict_example :
    ((assess registered_now).coverable ≡ holds_session registered_now)
    × ((assess registered_now).still_settling
        ≡ (not (holds_session registered_now) && is_excused registered_now))
assess-verdict_example = assess-verdict registered_now
