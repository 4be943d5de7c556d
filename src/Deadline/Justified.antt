-- ===== src/Deadline/Justified.antt =====
-- Everything that a new block makes the engine publish has its reason.
use forktower.Common.{
  ◌<◌, ltb, true, false, none, some, List, [], ◌∷◌, ◌≡◌, refl, ◌≢◌, pos, ltb_ℤ, ◌<ℤ◌, eqb_ℤ,
  eqb_ℤ_iff, sub32, Float64, arith, All, All-map, All-append, Any, inl, inr, if_either,
  Option-cases,
}
use forktower.Store.Types.{commitment_ours}
use forktower.Store.Deadlines.{Deadline, expired, settled}
use forktower.Deadline.Compute.{remaining, level}
use forktower.Deadline.Engine.{
  Spend, is_own, is_reorged_out, reorg_patience_blocks, Backing, Published, escalated, expired_loss,
  answered, write_state, running_of, escalate_to, expire, settle, count_down, advance_on,
  advance_all, advance,
}

-- Why a countdown makes something known, given the spend that it counts from.
abbrev pub Reason : Backing → Deadline → Spend → Published → Type 0
Reason env d spend (escalated id channel tier left) =
    (id ≡ d.id)
    × (is_reorged_out spend.status ≡ false)
    × (left ≡ remaining d.deadline_height env.tip)
    × (left ≢ pos 0)
    × (d.escalation < tier)
Reason env d spend (expired_loss id channel amount) =
    (id ≡ d.id)
    × (is_reorged_out spend.status ≡ false)
    × (remaining d.deadline_height env.tip ≡ pos 0)
    × (spend.shape ≢ commitment_ours)
    × (channel ≡ spend.channel_id)
Reason env d spend (answered id by) =
    (id ≡ d.id)
    × (is_reorged_out spend.status ≡ true)
    × (reorg_patience_blocks <ℤ sub32 env.tip spend.block_height)

-- One of the running countdowns has a reason, by the spend that is on record for it.
abbrev pub Justified : Backing → List Deadline → Published → Type 0
Justified env running event =
    (d : Deadline) × (spend : Spend) × Any (λ x. x ≡ d) running
    × (env.get_spend d.spend_event_id ≡ some spend)
    × Reason env d spend event

abbrev Result : Type 0
Result = List Deadline × List Published

not_own : (spend : Spend) → is_own spend.shape ≡ false → spend.shape ≢ commitment_ours
not_own spend h e = ground arith

expire-Reason :
    (env : Backing) (d : Deadline) (spend : Spend) (rows : List Deadline)
    → is_reorged_out spend.status ≡ false
    → remaining d.deadline_height env.tip ≡ pos 0
    → All (Reason env d spend) (expire env d spend rows).1
unfolding expire
expire-Reason env d spend rows on_chain out =
    elim (Option-cases (write_state env d.id expired none rows)) [
      | inl e ↦ rw (e, expire) tt
      | inr (rows', e) ↦
          rw (e, expire)
            (if_either (λ (r : Result). All (Reason env d spend) r.1) (is_own spend.shape) (λ h. tt)
              (λ h. ((refl, on_chain, out, not_own spend h, refl), tt)))
    ]

settle-Reason :
    (env : Backing) (d : Deadline) (spend : Spend) (rows : List Deadline)
    → is_reorged_out spend.status ≡ true
    → reorg_patience_blocks <ℤ sub32 env.tip spend.block_height
    → All (Reason env d spend) (settle env d none rows).1
unfolding settle
settle-Reason env d spend rows gone long =
    elim (Option-cases (write_state env d.id settled none rows)) [
      | inl e ↦ rw (e, settle) tt
      | inr (rows', e) ↦ rw (e, settle) ((refl, gone, long), tt)
    ]

module _ (F : Float64) where
  count_down-Reason :
      (env : Backing) (d : Deadline) (spend : Spend) (rows : List Deadline)
      → is_reorged_out spend.status ≡ false
      → All (Reason env d spend) (count_down F env d spend rows).1
  unfolding count_down escalate_to
  count_down-Reason env d spend rows on_chain =
      let left = remaining d.deadline_height env.tip in
      let tier = level F left (sub32 d.deadline_height spend.block_height) in
      let P : Result → Type 0 = λ r. All (Reason env d spend) r.1 in
      if_either P (eqb_ℤ left (pos 0))
        (λ h. expire-Reason env d spend rows on_chain ((eqb_ℤ_iff left (pos 0)).0 h))
        (λ h.
          let some_left : left ≢ pos 0 = λ e. ground (arith, (eqb_ℤ_iff left (pos 0)).1 e) in
          if_either P (ltb d.escalation tier)
            (λ k.
              if_either P (env.escalation_fails d.id) (λ l. tt)
                (λ l. ((refl, on_chain, refl, some_left, ground arith), tt)))
            (λ k. tt))

  advance_on-Reason :
      (env : Backing) (d : Deadline) (spend : Spend) (rows : List Deadline)
      → All (Reason env d spend) (advance_on F env d (some spend) rows).1
  unfolding advance_on
  advance_on-Reason env d spend rows =
      let P : Result → Type 0 = λ r. All (Reason env d spend) r.1 in
      if_either P (is_reorged_out spend.status)
        (λ h.
          if_either P (ltb_ℤ reorg_patience_blocks (sub32 env.tip spend.block_height))
            (λ k. settle-Reason env d spend rows h (ground arith)) (λ k. tt))
        (λ h. count_down-Reason env d spend rows h)

  advance_all-Justified :
      (env : Backing) (running rows : List Deadline)
      → All (Justified env running) (advance_all F env running rows).1
  unfolding advance_all
  advance_all-Justified env [] rows = tt
  advance_all-Justified env (d ∷ running) rows =
      let found = env.get_spend d.spend_event_id in
      let (rows', events) = advance_on F env d found rows in
      let first : All (Justified env (d ∷ running)) events = elim (Option-cases found) [
        | inl e ↦ rw (e, advance_on) tt
        | inr (spend, e) ↦
            rw (e, advance_on)
              (All-map (λ event why. (d, spend, inl refl, e, why))
                (advance_on F env d (some spend) rows).1 (advance_on-Reason env d spend rows))
      ] in
      let later =
        All-map (λ event (x, spend, listed, e, why). (x, spend, inr listed, e, why))
          (advance_all F env running rows').1 (advance_all-Justified env running rows') in
      All-append (Justified env (d ∷ running)) events (advance_all F env running rows').1 first
        later

  -- Whatever a new block makes the engine publish is about a running countdown with a spend on
  -- record: an escalation when blocks are left and the tier is above the one recorded; a loss when
  -- no blocks are left and the close is not the user's own, both with the spend not reorganised
  -- out; an end when it is reorganised out and the tip is over a hundred blocks past it.
  pub advance-Justified :
      (env : Backing) (rows : List Deadline)
      → All (Justified env (running_of env rows)) (advance F env rows).1
  unfolding advance
  advance-Justified env rows = advance_all-Justified env (running_of env rows) rows
