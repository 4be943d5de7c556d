-- ===== src/Mirror/Allowlist.antt =====
-- internal/responder/mirror/policy.go: the allowlist apart from the code.
use forktower.Common.{true, false, ◌≡◌, refl, ◌≢◌, ◌↔◌, ◌⊎◌, inl, inr, arith, sym, subst}
use forktower.ChainView.Types.{Branch, sf, sq, other, valid_branch}
use forktower.Store.Types.{
  SpendShape, mutual_close, commitment_ours, commitment_unknown, commitment_revoked, justice,
  delayed_sweep, htlc_claim, SpendShape-discrete,
}
use forktower.Mirror.Policy.{Inputs, towards_by_shape, decide_direction, decide}

-- A spend that belongs on the other chain: agreed by both, made by the user's own close, or the
-- punishment of a close that the user did not make.
pub data Permitted : SpendShape → SpendShape → Type 0 where
  agreed : {source : SpendShape} → Permitted mutual_close source
  own_close : {source : SpendShape} → Permitted commitment_ours source
  own_sweep : Permitted delayed_sweep commitment_ours
  own_claim : Permitted htlc_claim commitment_ours
  punish_unknown : Permitted justice commitment_unknown
  punish_revoked : Permitted justice commitment_revoked

-- The whole allowlist.
pub data Allowed (in' : Inputs) : Type 0 where
  funding :
      in'.channel_known ≡ true
      → in'.is_funding_tx ≡ true
      → in'.funding_opt_in ≡ true
      → valid_branch in'.from ≡ true
      → valid_branch in'.to ≡ true
      → in'.from ≢ in'.to
      → Allowed in'
  outwards :
      in'.channel_known ≡ true
      → in'.is_funding_tx ≡ false
      → in'.from ≡ sf
      → in'.to ≡ sq
      → Permitted in'.shape in'.source_shape
      → Allowed in'
  homewards :
      in'.channel_known ≡ true
      → in'.is_funding_tx ≡ false
      → in'.from ≡ sq
      → in'.to ≡ sf
      → in'.shape ≡ mutual_close
      → Allowed in'

ruleset permissions = (agreed, own_close, own_sweep, own_claim, punish_unknown, punish_revoked)

towards-Permitted :
    (shape source : SpendShape)
    → (towards_by_shape shape source).mirror ≡ true
    → Permitted shape source
unfolding towards_by_shape
towards-Permitted mutual_close source h = agreed
towards-Permitted commitment_ours source h = own_close
towards-Permitted delayed_sweep source h =
    let e : source ≡ commitment_ours = ground arith in
    subst (λ x. Permitted delayed_sweep x) (sym e) own_sweep
towards-Permitted htlc_claim source h =
    let e : source ≡ commitment_ours = ground arith in
    subst (λ x. Permitted htlc_claim x) (sym e) own_claim
towards-Permitted justice source h =
    let e : (source ≡ commitment_unknown) ⊎ (source ≡ commitment_revoked) = ground arith in
    elim e [
      | inl u ↦ subst (λ x. Permitted justice x) (sym u) punish_unknown
      | inr r ↦ subst (λ x. Permitted justice x) (sym r) punish_revoked
    ]
towards-Permitted _ source h = cc

Permitted-towards :
    {shape source : SpendShape}
    → Permitted shape source
    → (towards_by_shape shape source).mirror ≡ true
unfolding towards_by_shape SpendShape-discrete
Permitted-towards agreed = refl
Permitted-towards own_close = refl
Permitted-towards own_sweep = refl
Permitted-towards own_claim = refl
Permitted-towards punish_unknown = refl
Permitted-towards punish_revoked = refl

direction-cases :
    (to : Branch) (in' : Inputs)
    → (decide_direction to in').mirror ≡ true
    → (to ≡ sq) × ((towards_by_shape in'.shape in'.source_shape).mirror ≡ true)
      ⊎ (to ≡ sf) × (in'.shape ≡ mutual_close)
unfolding decide_direction
direction-cases sq in' h = inl (refl, h)
direction-cases sf in' h = inr (refl, ground arith)
direction-cases (other n) in' h = cc

-- What every transaction that is mirrored has passed.
record Passed (in' : Inputs) : Type 0 where
  distinct : in'.from ≢ in'.to
  from_valid : valid_branch in'.from ≡ true
  to_valid : valid_branch in'.to ≡ true
  known : in'.channel_known ≡ true

decide-Passed : (in' : Inputs) → (decide in').mirror ≡ true → Passed in'
unfolding decide
decide-Passed in' h = ground arith

decide-kind :
    (in' : Inputs)
    → (decide in').mirror ≡ true
    → (in'.is_funding_tx ≡ true) × (in'.funding_opt_in ≡ true)
      ⊎ (in'.is_funding_tx ≡ false) × ((decide_direction in'.to in').mirror ≡ true)
unfolding decide
decide-kind in' h = ground arith

other_branch : (a b : Branch) → a ≢ b → valid_branch a ≡ true → b ≡ sq → a ≡ sf
unfolding valid_branch
other_branch a b d v e = ground arith

other_branch_home : (a b : Branch) → a ≢ b → valid_branch a ≡ true → b ≡ sf → a ≡ sq
unfolding valid_branch
other_branch_home a b d v e = ground arith

decide-Allowed : (in' : Inputs) → (decide in').mirror ≡ true → Allowed in'
decide-Allowed in' h =
    let p = decide-Passed in' h in
    elim (decide-kind in' h) [
      | inl (f, o) ↦ funding p.known f o p.from_valid p.to_valid p.distinct
      | inr (f, d) ↦ elim (direction-cases in'.to in' d) [
        | inl (e, m) ↦
            outwards p.known f (other_branch in'.from in'.to p.distinct p.from_valid e) e
              (towards-Permitted in'.shape in'.source_shape m)
        | inr (e, m) ↦
            homewards p.known f (other_branch_home in'.from in'.to p.distinct p.from_valid e) e m
      ]
    ]

Allowed-decide : (in' : Inputs) → Allowed in' → (decide in').mirror ≡ true
unfolding decide decide_direction valid_branch
Allowed-decide in' (funding k f o v w d) = ground arith
Allowed-decide in' (outwards k f e g p) = ground (arith, Permitted-towards p)
Allowed-decide in' (homewards k f e g m) = ground arith

-- The mirror says yes to a transaction exactly if it is on the allowlist: the channel is known,
-- the two branches are the named ones and differ, and it is a funding transaction with the opt-in,
-- or a spend of a permitted shape from the user's chain to the other, or a mutual close from the
-- other chain to the user's.
pub decide_iff : (in' : Inputs) → ((decide in').mirror ≡ true) ↔ Allowed in'
decide_iff in' = (decide-Allowed in', Allowed-decide in')
