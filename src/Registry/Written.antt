-- ===== src/Registry/Written.antt =====
-- internal/registry/registry.go: the row that a poll reads and the row that it writes.
use forktower.Common.{
  ◌≡◌, refl, sym, ◌∙◌, ap, ℕ, ◌==◌, true, false, Option, some, List, [], ◌∷◌, arith, inl, inr,
  Bool-cases, if_either,
}
use forktower.Registry.Merge.{Channel}
use forktower.Registry.Apply.{Poll, apply_to, is_stored}
use forktower.Registry.Sources.{
  ChannelPoint, point_of_record, point_of, same_point, Row, find_row, of_node, no_channel,
  prior_channel, apply_row, apply_table,
}

pub same_point-eq : (a b : ChannelPoint) → same_point a b ≡ true → a ≡ b
unfolding same_point
same_point-eq a b e = ground arith

of_node-own : (node : ℕ) (row : Row) → row.node ≡ node → of_node node row ≡ row.channel
of_node-own node row e = ground arith

pub prior_channel-own :
    (node : ℕ) (k : ChannelPoint) (rows : List Row) (row : Row)
    → find_row k rows ≡ some row
    → row.node ≡ node
    → prior_channel node k rows ≡ row.channel
unfolding prior_channel
prior_channel-own node k rows row e n = rw (e, prior_channel) (of_node-own node row n)

pub prior_channel-other :
    (node : ℕ) (k : ChannelPoint) (rows : List Row) (row : Row)
    → find_row k rows ≡ some row
    → (row.node == node) ≡ false
    → prior_channel node k rows ≡ no_channel
unfolding prior_channel
prior_channel-other node k rows row f n = ground arith

module _ (clean : Option ℕ → Option ℕ) (node : ℕ) (p : Poll) (prior : Channel) where
  point-apply_row :
      (row : Row) → point_of (apply_row clean node p prior row).channel ≡ point_of row.channel
  unfolding apply_row apply_to
  point-apply_row row =
      if_either (λ (r : Row). point_of r.channel ≡ point_of row.channel) (is_stored p prior)
        (λ e. refl) (λ e. refl)

  pub find_row-apply_table_other :
      (k : ChannelPoint) (rows : List Row)
      → same_point k (point_of_record p.rec) ≡ false
      → find_row k (apply_table clean node p prior rows) ≡ find_row k rows
  unfolding apply_table find_row apply_to
  find_row-apply_table_other k [] e = elim (Bool-cases (is_stored p prior)) [
    | inl s ↦ rw (s, e) refl
    | inr s ↦ rw s refl
  ]
  find_row-apply_table_other k (row ∷ rows) e =
      elim (Bool-cases (same_point (point_of_record p.rec) (point_of row.channel))) [
        | inl s ↦
            let away : same_point k (point_of row.channel) ≡ false =
              ap (same_point k)
                (sym (same_point-eq (point_of_record p.rec) (point_of row.channel) s))
              ∙ e in
            rw (s, point-apply_row row, away) refl
        | inr s ↦ rw (s, find_row-apply_table_other k rows e) refl
      ]

  pub find_row-apply_table_self :
      (rows : List Row) (row : Row)
      → find_row (point_of_record p.rec) rows ≡ some row
      → find_row (point_of_record p.rec) (apply_table clean node p prior rows)
        ≡ some (apply_row clean node p prior row)
  unfolding apply_table find_row
  find_row-apply_table_self [] row = λ e. absurd (cc)
  find_row-apply_table_self (first ∷ rows) row =
      elim (Bool-cases (same_point (point_of_record p.rec) (point_of first.channel))) [
        | inl s ↦
            rw (s, point-apply_row first, s)
              (λ e.
                let same : first ≡ row = cc in
                ap (λ (r : Row). some (apply_row clean node p prior r)) same)
        | inr s ↦ rw (s, s) (λ e. find_row-apply_table_self rows row e)
      ]
