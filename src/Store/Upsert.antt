-- ===== src/Store/Upsert.antt =====
-- What UpsertDeadline leaves in the table for the spend and the kind that it was called with.
use forktower.Common.{
  Bool, true, false, ◌&&◌, Option, none, some, List, [], ◌∷◌, ◌++◌, ◌≡◌, ◌≢◌, refl, sym, ◌∙◌, inl,
  inr, ℤ, pos, eqb_ℤ, eqb_ℤ_iff, arith, Bool-cases, if_either,
}
use forktower.Store.Types.{DeadlineKind, csv, htlc_incoming, htlc_outgoing}
use forktower.Store.Deadlines.{
  Deadline, has_key, lookup, set_height, same_kind, same_flag, upsert_found, upsert_deadline,
}

-- The row holds the height, and whether it is assumed, that the deadline has.
pub record Holds (d row : Deadline) : Type 0 where
  pub height : row.deadline_height ≡ d.deadline_height
  pub assumed : row.assumed ≡ d.assumed

abbrev pub Found : Deadline → List Deadline → Type 0
Found d rows = (row : Deadline) × (lookup d rows ≡ some row) × Holds d row

lookup-here :
    (d row : Deadline) (rows : List Deadline)
    → has_key d row ≡ true
    → lookup d (row ∷ rows) ≡ some row
unfolding lookup
lookup-here d row rows h = rw h refl

lookup-later :
    (d row : Deadline) (rows : List Deadline)
    → has_key d row ≡ false
    → lookup d (row ∷ rows) ≡ lookup d rows
unfolding lookup
lookup-later d row rows h = rw h refl

same_kind_self : (k : DeadlineKind) → same_kind k k ≡ true
same_kind_self csv = refl
same_kind_self htlc_incoming = refl
same_kind_self htlc_outgoing = refl

has_key_self :
    (d row : Deadline)
    → row.spend_event_id ≡ d.spend_event_id
    → row.kind ≡ d.kind
    → has_key d row ≡ true
has_key_self d row e k =
    ground (arith, same_kind_self d.kind, (eqb_ℤ_iff row.spend_event_id d.spend_event_id).1)

lookup-append :
    (d row : Deadline) (rows : List Deadline)
    → lookup d rows ≡ none
    → has_key d row ≡ true
    → lookup d (rows ++ row ∷ []) ≡ some row
lookup-append d row [] h k = lookup-here d row [] k
lookup-append d row (r ∷ rows) h k = elim (Bool-cases (has_key d r)) [
  | inl here ↦ let clash : some r ≡ none = sym (lookup-here d r rows here) ∙ h in cc
  | inr later ↦
      lookup-later d r (rows ++ row ∷ []) later
      ∙ lookup-append d row rows (sym (lookup-later d r rows later) ∙ h) k
]

set_height-Found :
    (d row : Deadline) (rows : List Deadline)
    → lookup d rows ≡ some row
    → Found d (set_height row.id d rows)
unfolding set_height lookup
set_height-Found d row [] h = cc
set_height-Found d row (r ∷ rows) h = elim (Bool-cases (has_key d r)) [
  | inl here ↦
      let same : some r ≡ some row = sym (lookup-here d r rows here) ∙ h in
      let id : eqb_ℤ r.id row.id ≡ true = (eqb_ℤ_iff r.id row.id).1 (cc) in
      rw id (
        record r {
          deadline_height = d.deadline_height;
          assumed = d.assumed;
          updated_at = d.updated_at;
        },
        rw here refl,
        record { height = refl; assumed = refl },
      )
  | inr later ↦
      let (found, e, holds) = set_height-Found d row rows (sym (lookup-later d r rows later) ∙ h) in
      if_either (Found d) (eqb_ℤ r.id row.id) (λ k. (found, rw later e, holds))
        (λ k. (found, rw later e, holds))
]

same_flag-eq : (a b : Bool) → same_flag a b ≡ true → a ≡ b
same_flag-eq true true h = refl
same_flag-eq true false h = cc
same_flag-eq false true h = cc
same_flag-eq false false h = refl

upsert_found-Found :
    (new_id : List Deadline → ℤ) (rows : List Deadline) (d : Deadline) (found : Option Deadline)
    → lookup d rows ≡ found
    → Found d (upsert_found new_id rows d found).1
unfolding upsert_found
upsert_found-Found new_id rows d none e =
    let row : Deadline = record d { id = new_id rows; resolved_by = none } in
    (
      row,
      lookup-append d row rows e (has_key_self d row refl refl),
      record { height = refl; assumed = refl },
    )
upsert_found-Found new_id rows d (some row) e =
    if_either (λ (r : (ℤ × Bool) × List Deadline). Found d r.1)
      (eqb_ℤ row.deadline_height d.deadline_height && same_flag row.assumed d.assumed)
      (λ h. (
        row,
        e,
        record {
          height = (eqb_ℤ_iff row.deadline_height d.deadline_height).0 (ground arith);
          assumed = same_flag-eq row.assumed d.assumed (ground arith);
        },
      ))
      (λ h. set_height-Found d row rows e)

-- For a deadline that names a spend UpsertDeadline succeeds, and the row that is then looked up
-- for its spend and kind has its height and its assumed flag.
pub lookup-upsert_deadline :
    (new_id : List Deadline → ℤ) (rows : List Deadline) (d : Deadline)
    → d.spend_event_id ≢ pos 0
    → (result : ℤ × Bool) × (after : List Deadline) × (upsert_deadline new_id rows d
        ≡ some (result, after))
      × Found d after
unfolding upsert_deadline
lookup-upsert_deadline new_id rows d h =
    let (result, after) = upsert_found new_id rows d (lookup d rows) in
    elim (Bool-cases (eqb_ℤ d.spend_event_id (pos 0))) [
      | inl e ↦ absurd (h ((eqb_ℤ_iff d.spend_event_id (pos 0)).0 e))
      | inr e ↦ (result, after, rw e refl, upsert_found-Found new_id rows d (lookup d rows) refl)
    ]
