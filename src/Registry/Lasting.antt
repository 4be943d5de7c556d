-- ===== src/Registry/Lasting.antt =====
-- internal/registry/registry.go: what polls leave of a row in the table of channels.
use forktower.Common.{
  ◌≡◌, ◌≢◌, refl, sym, ◌∙◌, ap, subst, ℕ, ◌+◌, ◌≤◌, ◌==◌, Option, some, List, [], ◌∷◌, All, arith,
  inl, inr, Bool-cases, if_either, if◌then◌else◌,
}
use forktower.Registry.Merge.{Channel}
use forktower.Registry.Apply.{Poll, is_stored}
use forktower.Registry.Polled.{Keeps, Keeps-refl, Keeps-trans, apply_to-Keeps}
use forktower.Registry.Sources.{
  ChannelPoint, point_of_record, same_point, Row, find_row, prior_channel, apply_row, apply_table,
  apply_records, Snapshot, poll_source, poll_all,
}
use forktower.Registry.Written.{
  same_point-eq, prior_channel-own, find_row-apply_table_other, find_row-apply_table_self,
}

-- How many of the polled records name the outpoint.
abbrev pub mentions : ChannelPoint → List Poll → ℕ
mentions k [] = 0
mentions k (p ∷ ps) = (if same_point k (point_of_record p.rec) then 1 else 0) + mentions k ps

-- A snapshot of the node names the outpoint once at most, and one of another node not at all.
pub record IsOwn (k : ChannelPoint) (node : ℕ) (snap : Snapshot) : Type 0 where
  pub once : mentions k snap.polls ≤ 1
  pub alone : snap.node ≢ node → mentions k snap.polls ≡ 0

-- The row that is found keeps its node and what it knows.
pub record IsKept (k : ChannelPoint) (row : Row) (rows : List Row) : Type 0 where
  pub after : Row
  pub found : find_row k rows ≡ some after
  pub node : after.node ≡ row.node
  pub kept : Keeps row.channel after.channel

module _ (clean : Option ℕ → Option ℕ) where
  apply_row-node :
      (node : ℕ) (p : Poll) (prior : Channel) (row : Row)
      → row.node ≡ node
      → (apply_row clean node p prior row).node ≡ row.node
  unfolding apply_row
  apply_row-node node p prior row e = ground arith

  apply_row-Keeps :
      (node : ℕ) (p : Poll) (row : Row)
      → Keeps row.channel (apply_row clean node p row.channel row).channel
  unfolding apply_row
  apply_row-Keeps node p row =
      if_either (λ (r : Row). Keeps row.channel r.channel) (is_stored p row.channel)
        (λ e. apply_to-Keeps clean p row.channel) (λ e. Keeps-refl row.channel)

  find_row-apply_records :
      (node : ℕ) (k : ChannelPoint) (read : List Row) (ps : List Poll) (rows : List Row)
      → mentions k ps ≡ 0
      → find_row k (apply_records clean node read ps rows) ≡ find_row k rows
  unfolding apply_records
  find_row-apply_records node k read [] rows m = refl
  find_row-apply_records node k read (p ∷ ps) rows m =
      elim (Bool-cases (same_point k (point_of_record p.rec))) [
        | inl s ↦ absurd (ground arith)
        | inr s ↦
            let prior = prior_channel node (point_of_record p.rec) read in
            find_row-apply_records node k read ps (apply_table clean node p prior rows)
              (ground arith)
            ∙ find_row-apply_table_other clean node p prior k rows s
      ]

  apply_records-IsKept :
      (node : ℕ) (k : ChannelPoint) (read : List Row) (ps : List Poll) (rows : List Row) (row : Row)
      → mentions k ps ≤ 1
      → find_row k read ≡ some row
      → find_row k rows ≡ some row
      → row.node ≡ node
      → IsKept k row (apply_records clean node read ps rows)
  unfolding apply_records
  apply_records-IsKept node k read [] rows row m r f n = record {
    after = row;
    found = f;
    node = refl;
    kept = Keeps-refl row.channel;
  }
  apply_records-IsKept node k read (p ∷ ps) rows row m r f n =
      let prior = prior_channel node (point_of_record p.rec) read in
      elim (Bool-cases (same_point k (point_of_record p.rec))) [
        | inl s ↦
            let same : k ≡ point_of_record p.rec = same_point-eq k (point_of_record p.rec) s in
            let own : prior ≡ row.channel =
              ap (λ (x : ChannelPoint). prior_channel node x read) (sym same)
              ∙ prior_channel-own node k read row r n in
            let now : find_row k (apply_table clean node p prior rows)
                ≡ some (apply_row clean node p prior row) =
              subst
                (λ x.
                  find_row x (apply_table clean node p prior rows)
                  ≡ some (apply_row clean node p prior row))
                (sym same)
                (find_row-apply_table_self clean node p prior rows row
                  (subst (λ x. find_row x rows ≡ some row) same f)) in
            record {
              after = apply_row clean node p prior row;
              found =
                  find_row-apply_records node k read ps (apply_table clean node p prior rows)
                    (ground arith)
                  ∙ now;
              node = apply_row-node node p prior row n;
              kept =
                  subst (λ c. Keeps row.channel (apply_row clean node p c row).channel) (sym own)
                    (apply_row-Keeps node p row);
            }
        | inr s ↦
            apply_records-IsKept node k read ps (apply_table clean node p prior rows) row
              (ground arith) r (find_row-apply_table_other clean node p prior k rows s ∙ f) n
      ]

  poll_source-IsKept :
      (snap : Snapshot) (k : ChannelPoint) (rows : List Row) (row : Row)
      → find_row k rows ≡ some row
      → IsOwn k row.node snap
      → IsKept k row (poll_source clean snap rows)
  unfolding poll_source
  poll_source-IsKept snap k rows row f own =
      if_either (λ (rs : List Row). IsKept k row rs) snap.answered
        (λ e. elim (Bool-cases (snap.node == row.node)) [
          | inl s ↦
              apply_records-IsKept snap.node k rows snap.polls rows row own.once f f (ground arith)
          | inr s ↦ record {
            after = row;
            found =
                find_row-apply_records snap.node k rows snap.polls rows
                  (own.alone (λ q. ground arith))
                ∙ f;
            node = refl;
            kept = Keeps-refl row.channel;
          }
        ])
        (λ e. record { after = row; found = f; node = refl; kept = Keeps-refl row.channel })

  -- Over any snapshots of any nodes, whatever is answered and whatever they say, the row of a
  -- channel stays under its node, its close state does not move back, and a known delay, the
  -- height at which it was funded and its short id are not lost; provided that no other node names
  -- the channel, and that no snapshot names it twice.
  pub poll_all-IsKept :
      (snaps : List Snapshot) (k : ChannelPoint) (rows : List Row) (row : Row)
      → find_row k rows ≡ some row
      → All (IsOwn k row.node) snaps
      → IsKept k row (poll_all clean snaps rows)
  unfolding poll_all
  poll_all-IsKept [] k rows row f own = record {
    after = row;
    found = f;
    node = refl;
    kept = Keeps-refl row.channel;
  }
  poll_all-IsKept (snap ∷ snaps) k rows row f own =
      let one = poll_source-IsKept snap k rows row f own.0 in
      let rest =
        poll_all-IsKept snaps k (poll_source clean snap rows) one.after one.found
          (subst (λ n. All (IsOwn k n) snaps) (sym one.node) own.1) in
      record {
        after = rest.after;
        found = rest.found;
        node = rest.node ∙ one.node;
        kept = Keeps-trans row.channel one.after.channel rest.after.channel one.kept rest.kept;
      }
