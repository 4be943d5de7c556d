-- ===== src/Registry/Shared.antt =====
-- internal/registry/registry.go: a channel that two nodes name.
use forktower.Common.{◌≡◌, refl, ℕ, ◌==◌, true, false, Option, none, some, List, [], ◌∷◌, pos}
use forktower.Registry.Merge.{
  merge, first_known_delay, first_non_empty, first_non_zero, known_delay,
}
use forktower.Registry.Apply.{Poll, apply_to, is_stored}
use forktower.Registry.Sources.{
  ChannelPoint, point_of_record, Row, find_row, no_channel, apply_row, apply_records, Snapshot,
  poll_source,
}
use forktower.Registry.Written.{prior_channel-other, find_row-apply_table_self}

module _ (clean : Option ℕ → Option ℕ) where
  -- The row no longer knows the peer's delay, the height at which it was funded, or the short id.
  record IsForgotten (k : ChannelPoint) (rows : List Row) : Type 0 where
    after : Row
    found : find_row k rows ≡ some after
    delay : after.channel.csv_delay_remote ≡ none
    height : after.channel.open_height ≡ pos 0
    scid : after.channel.scid ≡ none

  -- A row that stands under one node is forgotten when another node names the channel without a
  -- delay of the peer, a height and a short id, and its row is written.
  poll_source-IsForgotten :
      (snap : Snapshot) (p : Poll) (rows : List Row) (row : Row)
      → snap.answered ≡ true
      → snap.polls ≡ p ∷ []
      → find_row (point_of_record p.rec) rows ≡ some row
      → (row.node == snap.node) ≡ false
      → is_stored p no_channel ≡ true
      → p.rec.csv_delay_remote ≡ none
      → p.rec.open_height ≡ pos 0
      → p.rec.scid ≡ none
      → IsForgotten (point_of_record p.rec) (poll_source clean snap rows)
  unfolding poll_source apply_records apply_row apply_to merge first_known_delay first_non_empty
      first_non_zero known_delay
  poll_source-IsForgotten snap p rows row a one f n w d h i =
      let empty = prior_channel-other snap.node (point_of_record p.rec) rows row f n in
      rw (a, one, apply_records, empty)
        (record {
          after = apply_row clean snap.node p no_channel row;
          found = find_row-apply_table_self clean snap.node p no_channel rows row f;
          delay = rw (w, d) refl;
          height = rw (w, h) refl;
          scid = rw (w, i) refl;
        })
