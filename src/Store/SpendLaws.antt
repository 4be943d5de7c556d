-- ===== src/Store/SpendLaws.antt =====
-- internal/store/spends.go: the rows of spends and their ids.
use forktower.Common.{
  ◌≡◌, refl, sym, ap, ◌∙◌, Bool, true, false, Option, none, some, List, [], ◌∷◌, ◌++◌, ℤ, eqb_ℤ,
  arith, Bool-cases, any, if_either, some_if, eqb_ℤ_iff, inl, inr,
}
use forktower.ChainView.Types.{Hash}
use forktower.Store.Types.{SpendShape, SpendStatus}
use forktower.Store.Spends.{
  Spend, same_spend, find_spend, record_found, record_spend, get_spend, set_status, set_shape,
}

abbrev pub has_id : ℤ → Spend → Bool
has_id id row = eqb_ℤ row.id id

-- No two rows have one id: the id is the table's primary key.
abbrev pub HaveDistinctIds : List Spend → Type 0
HaveDistinctIds [] = Unit
HaveDistinctIds (row ∷ rows) = (any (has_id row.id) rows ≡ false) × HaveDistinctIds rows

pub eqb_ℤ_self : (a : ℤ) → eqb_ℤ a a ≡ true
eqb_ℤ_self a = ground arith

pub find_spend-id :
    (sp row : Spend) (rows : List Spend)
    → find_spend sp rows ≡ some row
    → any (has_id row.id) rows ≡ true
unfolding find_spend
find_spend-id sp row [] h = ground arith
find_spend-id sp row (r ∷ rows) h = elim (some_if (same_spend r sp) h) [
  | inl (t, e) ↦ rw (e, eqb_ℤ_self row.id) refl
  | inr e ↦ let f = find_spend-id sp row rows e in ground arith
]

pub find_spend-same :
    (sp row : Spend) (rows : List Spend) → find_spend sp rows ≡ some row → same_spend row sp ≡ true
unfolding find_spend
find_spend-same sp row [] h = ground arith
find_spend-same sp row (r ∷ rows) h = elim (some_if (same_spend r sp) h) [
  | inl (t, e) ↦ rw (sym e) t
  | inr e ↦ find_spend-same sp row rows e
]

id_apart :
    (k l : ℤ) (rows : List Spend)
    → any (has_id k) rows ≡ false
    → any (has_id l) rows ≡ true
    → eqb_ℤ k l ≡ false
id_apart k l rows f g = elim (Bool-cases (eqb_ℤ k l)) [
  | inl e ↦ let h = sym f ∙ ap (λ (i : ℤ). any (has_id i) rows) ((eqb_ℤ_iff k l).0 e) ∙ g in cc
  | inr e ↦ e
]

-- The row that RecordSpend finds is the one that GetSpend reads by its id.
pub get_spend-found :
    (sp row : Spend) (rows : List Spend)
    → HaveDistinctIds rows
    → find_spend sp rows ≡ some row
    → get_spend row.id rows ≡ some row
unfolding find_spend get_spend
get_spend-found sp row [] d h = ground arith
get_spend-found sp row (r ∷ rows) d h = elim (some_if (same_spend r sp) h) [
  | inl (t, e) ↦ rw (e, eqb_ℤ_self row.id) refl
  | inr e ↦
      rw (id_apart r.id row.id rows d.0 (find_spend-id sp row rows e))
        (get_spend-found sp row rows d.1 e)
]

any_id-set_status :
    (id k : ℤ) (status : SpendStatus) (block : Option Hash) (height : ℤ) (rows : List Spend)
    → any (has_id k) (set_status id status block height rows) ≡ any (has_id k) rows
unfolding set_status
any_id-set_status id k status block height [] = refl
any_id-set_status id k status block height (row ∷ rows) =
    ground (arith, any_id-set_status id k status block height rows)

any_id-set_shape :
    (id k : ℤ) (shape : SpendShape) (rows : List Spend)
    → any (has_id k) (set_shape id shape rows) ≡ any (has_id k) rows
unfolding set_shape
any_id-set_shape id k shape [] = refl
any_id-set_shape id k shape (row ∷ rows) = ground (arith, any_id-set_shape id k shape rows)

pub set_status-HaveDistinctIds :
    (id : ℤ) (status : SpendStatus) (block : Option Hash) (height : ℤ) (rows : List Spend)
    → HaveDistinctIds rows
    → HaveDistinctIds (set_status id status block height rows)
unfolding set_status
set_status-HaveDistinctIds id status block height [] d = d
set_status-HaveDistinctIds id status block height (row ∷ rows) d =
    if_either HaveDistinctIds (eqb_ℤ row.id id)
      (λ e. (
        any_id-set_status id row.id status block height rows ∙ d.0,
        set_status-HaveDistinctIds id status block height rows d.1,
      ))
      (λ e. (
        any_id-set_status id row.id status block height rows ∙ d.0,
        set_status-HaveDistinctIds id status block height rows d.1,
      ))

pub set_shape-HaveDistinctIds :
    (id : ℤ) (shape : SpendShape) (rows : List Spend)
    → HaveDistinctIds rows
    → HaveDistinctIds (set_shape id shape rows)
unfolding set_shape
set_shape-HaveDistinctIds id shape [] d = d
set_shape-HaveDistinctIds id shape (row ∷ rows) d =
    if_either HaveDistinctIds (eqb_ℤ row.id id)
      (λ e.
        (any_id-set_shape id row.id shape rows ∙ d.0, set_shape-HaveDistinctIds id shape rows d.1))
      (λ e.
        (any_id-set_shape id row.id shape rows ∙ d.0, set_shape-HaveDistinctIds id shape rows d.1))

-- The database gives a new row an id that no row has.
abbrev pub GivesNewIds : (List Spend → ℤ) → Type 0
GivesNewIds new_id = (rows : List Spend) → any (has_id (new_id rows)) rows ≡ false

id_new :
    (k : ℤ) (sp : Spend) (rows : List Spend)
    → any (has_id k) rows ≡ false
    → eqb_ℤ k sp.id ≡ false
    → any (has_id k) (rows ++ sp ∷ []) ≡ false
id_new k sp [] f g = ground arith
id_new k sp (row ∷ rows) f g = let h = id_new k sp rows in ground (arith, h)

append-HaveDistinctIds :
    (sp : Spend) (rows : List Spend)
    → any (has_id sp.id) rows ≡ false
    → HaveDistinctIds rows
    → HaveDistinctIds (rows ++ sp ∷ [])
append-HaveDistinctIds sp [] f d = (refl, tt)
append-HaveDistinctIds sp (row ∷ rows) f d =
    (id_new row.id sp rows d.0 (ground arith), append-HaveDistinctIds sp rows (ground arith) d.1)

record_found-HaveDistinctIds :
    (new_id : List Spend → ℤ) (rows : List Spend) (sp : Spend) (found : Option Spend)
    → GivesNewIds new_id
    → HaveDistinctIds rows
    → HaveDistinctIds (record_found new_id rows sp found).1
unfolding record_found
record_found-HaveDistinctIds new_id rows sp (some row) g d = d
record_found-HaveDistinctIds new_id rows sp none g d =
    append-HaveDistinctIds (record sp { id = new_id rows }) rows (g rows) d

pub record_spend-HaveDistinctIds :
    (new_id : List Spend → ℤ) (rows : List Spend) (sp : Spend)
    → GivesNewIds new_id
    → HaveDistinctIds rows
    → HaveDistinctIds (record_spend new_id rows sp).1
unfolding record_spend
record_spend-HaveDistinctIds new_id rows sp g d =
    record_found-HaveDistinctIds new_id rows sp (find_spend sp rows) g d
