-- ===== src/Deadline/Payments.antt =====
-- The clocks of the payments in flight share a row of the table for each direction.
use forktower.Common.{false, some, List, [], ◌∷◌, ◌≡◌, ◌≢◌, refl, ◌∙◌, ℤ, pos}
use forktower.Store.Deadlines.{Deadline, has_key, lookup}
use forktower.Store.Upsert.{Found, lookup-upsert_deadline}
use forktower.Deadline.Compute.{Computed}
use forktower.Deadline.Engine.{Backing}
use forktower.Deadline.Handlers.{as_deadline, write_deadline, rows_after, improve}

lookup_same_key :
    (d e : Deadline) (rows : List Deadline)
    → d.spend_event_id ≡ e.spend_event_id
    → d.kind ≡ e.kind
    → lookup d rows ≡ lookup e rows
unfolding lookup
lookup_same_key d e [] h k = refl
lookup_same_key d e (row ∷ rows) h k =
    let same : has_key d row ≡ has_key e row = rw (h, k) refl in
    rw (same, lookup_same_key d e rows h k) refl

write_deadline-Found :
    (env : Backing) (d : Deadline) (rows : List Deadline)
    → d.spend_event_id ≢ pos 0
    → env.upsert_fails d ≡ false
    → Found d (rows_after rows (write_deadline env d rows))
unfolding write_deadline rows_after
write_deadline-Found env d rows h ok =
    let (result, after, e, found) = lookup-upsert_deadline env.new_id rows d h in rw (ok, e) found

-- When the clocks of two payments of one direction are brought up to date for one spend, and the
-- second write does not fail, the row for the first payment's clock has the second payment's
-- height.
pub later_payment_replaces :
    (env : Backing) (spend_id : ℤ) (first second : Computed) (rows : List Deadline)
    → spend_id ≢ pos 0
    → first.kind ≡ second.kind
    → env.upsert_fails (as_deadline env spend_id second) ≡ false
    → (row : Deadline) × (lookup
          (as_deadline env spend_id first)
          (improve env spend_id (first ∷ second ∷ []) rows)
        ≡ some row)
      × (row.deadline_height ≡ second.height)
unfolding improve as_deadline
later_payment_replaces env spend_id first second rows h k ok =
    let before = rows_after rows (write_deadline env (as_deadline env spend_id first) rows) in
    let (row, e, holds) = write_deadline-Found env (as_deadline env spend_id second) before h ok in
    (
      row,
      lookup_same_key (as_deadline env spend_id first) (as_deadline env spend_id second) _ refl k
          ∙ e,
      holds.height,
    )
