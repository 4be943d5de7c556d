-- ===== src/Deadline/Lasting.antt =====
-- internal/deadline/deadline.go: what events leave of the rows of the table of countdowns.
use forktower.Common.{
  ℕ, ◌≤◌, ◌&&◌, ltb, Bool, true, false, Option, none, some, List, [], ◌∷◌, ◌++◌, ◌≡◌, refl, subst,
  ◌∙◌, ◌⊎◌, inl, inr, ℤ, pos, eqb_ℤ, arith, Bool-cases, if_either, Option-cases,
}
use forktower.Store.Deadlines.{
  same_flag, DeadlineState, settled, expired, Deadline, is_counting, lookup, set_height,
  upsert_found, upsert_deadline, set_state_where, set_deadline_state, set_deadline_escalation,
}
use forktower.Deadline.Engine.{
  is_own, Backing, Spend, Published, write_state, escalate_to, expire, settle,
}
use forktower.Deadline.Handlers.{write_deadline, rows_after}

-- The same countdown later: the tier is no lower, and it counts only if it counted before.
pub record Follows (d e : Deadline) : Type 0 where
  pub id : e.id ≡ d.id
  pub spend_event_id : e.spend_event_id ≡ d.spend_event_id
  pub kind : e.kind ≡ d.kind
  pub escalation : d.escalation ≤ e.escalation
  pub counted : (is_counting e.state ≡ false) ⊎ (is_counting d.state ≡ true)

-- Each row of the first table is the row of the second at the same place, followed by new ones.
abbrev pub Lasts : List Deadline → List Deadline → Type 0
Lasts [] es = Unit
Lasts (d ∷ ds) [] = ⊥
Lasts (d ∷ ds) (e ∷ es) = Follows d e × Lasts ds es

Follows-self : (d : Deadline) → Follows d d
Follows-self d = record {
  id = refl;
  spend_event_id = refl;
  kind = refl;
  escalation = omega arith;
  counted = elim (Bool-cases (is_counting d.state)) [ inl c ↦ inr c | inr c ↦ inl c ];
}

Follows-trans : {c d e : Deadline} → Follows c d → Follows d e → Follows c e
Follows-trans a b = record {
  id = b.id ∙ a.id;
  spend_event_id = b.spend_event_id ∙ a.spend_event_id;
  kind = b.kind ∙ a.kind;
  escalation = omega (arith, a.escalation, b.escalation);
  counted = ground (arith, a.counted, b.counted);
}

pub Lasts-self : (ds : List Deadline) → Lasts ds ds
Lasts-self [] = tt
Lasts-self (d ∷ ds) = (Follows-self d, Lasts-self ds)

pub Lasts-trans : (cs ds es : List Deadline) → Lasts cs ds → Lasts ds es → Lasts cs es
Lasts-trans [] ds es a b = tt
Lasts-trans (c ∷ cs) [] es a b = absurd a
Lasts-trans (c ∷ cs) (d ∷ ds) [] a b = absurd b
Lasts-trans (c ∷ cs) (d ∷ ds) (e ∷ es) a b = (Follows-trans a.0 b.0, Lasts-trans cs ds es a.1 b.1)

append-Lasts : (ds es : List Deadline) → Lasts ds (ds ++ es)
append-Lasts [] es = tt
append-Lasts (d ∷ ds) es = (Follows-self d, append-Lasts ds es)

set_height-Lasts :
    (id : ℤ) (d : Deadline) (rows : List Deadline) → Lasts rows (set_height id d rows)
unfolding set_height
set_height-Lasts id d [] = tt
set_height-Lasts id d (row ∷ rows) =
    let rest = set_height-Lasts id d rows in
    let same = Follows-self row in
    if_either (Lasts (row ∷ rows)) (eqb_ℤ row.id id)
      (λ h. (
        record {
          id = refl;
          spend_event_id = refl;
          kind = refl;
          escalation = omega arith;
          counted = same.counted;
        },
        rest,
      ))
      (λ h. (same, rest))

set_state_where-Lasts :
    (id : ℤ) (state : DeadlineState) (by : Option ℕ) (at : ℤ) (rows : List Deadline)
    → is_counting state ≡ false
    → Lasts rows (set_state_where id state by at rows)
unfolding set_state_where
set_state_where-Lasts id state by at [] h = tt
set_state_where-Lasts id state by at (row ∷ rows) h =
    let rest = set_state_where-Lasts id state by at rows h in
    if_either (Lasts (row ∷ rows)) (eqb_ℤ row.id id)
      (λ k. (
        record {
          id = refl;
          spend_event_id = refl;
          kind = refl;
          escalation = omega arith;
          counted = inl h;
        },
        rest,
      ))
      (λ k. (Follows-self row, rest))

set_deadline_escalation-Lasts :
    (id : ℤ) (tier : ℕ) (at : ℤ) (rows : List Deadline)
    → Lasts rows (set_deadline_escalation id tier at rows)
unfolding set_deadline_escalation
set_deadline_escalation-Lasts id tier at [] = tt
set_deadline_escalation-Lasts id tier at (row ∷ rows) =
    let rest = set_deadline_escalation-Lasts id tier at rows in
    let same = Follows-self row in
    if_either (Lasts (row ∷ rows)) (eqb_ℤ row.id id && ltb row.escalation tier)
      (λ k. (
        record {
          id = refl;
          spend_event_id = refl;
          kind = refl;
          escalation = ground arith;
          counted = same.counted;
        },
        rest,
      ))
      (λ k. (same, rest))

upsert_found-Lasts :
    (new_id : List Deadline → ℤ) (rows : List Deadline) (d : Deadline) (found : Option Deadline)
    → Lasts rows (upsert_found new_id rows d found).1
unfolding upsert_found
upsert_found-Lasts new_id rows d none = append-Lasts rows _
upsert_found-Lasts new_id rows d (some row) =
    if_either (λ (r : (ℤ × Bool) × List Deadline). Lasts rows r.1)
      (eqb_ℤ row.deadline_height d.deadline_height && same_flag row.assumed d.assumed)
      (λ h. Lasts-self rows) (λ h. set_height-Lasts row.id d rows)

pub write_deadline-Lasts :
    (env : Backing) (d : Deadline) (rows : List Deadline)
    → Lasts rows (rows_after rows (write_deadline env d rows))
unfolding upsert_deadline rows_after write_deadline
write_deadline-Lasts env d rows =
    if_either (λ o. Lasts rows (rows_after rows o)) (env.upsert_fails d) (λ h. Lasts-self rows)
      (λ h.
        if_either (λ o. Lasts rows (rows_after rows o)) (eqb_ℤ d.spend_event_id (pos 0))
          (λ k. Lasts-self rows) (λ k. upsert_found-Lasts env.new_id rows d (lookup d rows)))

write_state-Lasts :
    (env : Backing) (id : ℤ) (state : DeadlineState) (by : Option ℕ) (rows rows' : List Deadline)
    → is_counting state ≡ false
    → write_state env id state by rows ≡ some rows'
    → Lasts rows rows'
unfolding write_state set_deadline_state
write_state-Lasts env id state by rows rows' h e =
    let same : set_state_where id state by env.now rows ≡ rows' = ground arith in
    subst (Lasts rows) same (set_state_where-Lasts id state by env.now rows h)

pub escalate_to-Lasts :
    (env : Backing) (id channel height : ℤ) (tier : ℕ) (rows : List Deadline)
    → Lasts rows (escalate_to env id channel height tier rows).0
unfolding escalate_to
escalate_to-Lasts env id channel height tier rows =
    if_either (λ (r : List Deadline × List Published). Lasts rows r.0) (env.escalation_fails id)
      (λ h. Lasts-self rows) (λ h. set_deadline_escalation-Lasts id tier env.now rows)

pub expire-Lasts :
    (env : Backing) (d : Deadline) (spend : Spend) (rows : List Deadline)
    → Lasts rows (expire env d spend rows).0
unfolding expire
expire-Lasts env d spend rows = elim (Option-cases (write_state env d.id expired none rows)) [
  | inl e ↦ rw (e, expire) (Lasts-self rows)
  | inr (rows', e) ↦
      rw (e, expire)
        (if_either (λ (r : List Deadline × List Published). Lasts rows r.0) (is_own spend.shape)
          (λ h. write_state-Lasts env d.id expired none rows rows' refl e)
          (λ h. write_state-Lasts env d.id expired none rows rows' refl e))
]

pub settle-Lasts :
    (env : Backing) (d : Deadline) (by : Option ℕ) (rows : List Deadline)
    → Lasts rows (settle env d by rows).0
unfolding settle
settle-Lasts env d by rows = elim (Option-cases (write_state env d.id settled by rows)) [
  | inl e ↦ rw (e, settle) (Lasts-self rows)
  | inr (rows', e) ↦ rw (e, settle) (write_state-Lasts env d.id settled by rows rows' refl e)
]
