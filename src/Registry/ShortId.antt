-- ===== src/Registry/ShortId.antt =====
-- internal/registry/scid.go: short channel ids. The stored spelling is read as the three numbers that
-- it spells, and none for a text that does not parse.
use forktower.Common.{
  ◌≡◌, ℕ, ◌+◌, ◌*◌, ◌/◌, ◌%◌, ◌<◌, ◌==◌, leb, Option, none, some, ℤ, pos, arith, if◌then◌else◌,
}

pub record ShortChannelId : Type 0 where
  pub block : ℕ
  pub tx_index : ℕ
  pub output_index : ℕ

-- The fields of a packed id: `packed >> k & mask`.
abbrev pub fields_of : ℕ → ShortChannelId
fields_of packed = record {
  block = packed / 1099511627776 % 16777216;
  tx_index = packed / 65536 % 16777216;
  output_index = packed % 65536;
}

-- ShortChannelIDFromPacked
unfoldable pub short_channel_id_from_packed : ℕ → Option ShortChannelId
short_channel_id_from_packed packed = if packed == 0 then none else some (fields_of packed)

-- BlockFromShortChannelID
unfoldable pub block_from_short_channel_id : Option ShortChannelId → ℤ
block_from_short_channel_id none = pos 0
block_from_short_channel_id (some scid) =
    if leb 2147483648 scid.block then pos 0 else pos scid.block

-- The number that packs the three fields.
abbrev pub packed_of : ShortChannelId → ℕ
packed_of scid = scid.block * 1099511627776 + scid.tx_index * 65536 + scid.output_index

pub packed_of-fields :
    (packed : ℕ) → packed < 18446744073709551616 → packed_of (fields_of packed) ≡ packed
packed_of-fields packed h = omega arith

pub block_of_packed :
    (packed : ℕ)
    → packed < 18446744073709551616
    → block_from_short_channel_id (short_channel_id_from_packed packed)
      ≡ pos (packed / 1099511627776)
unfolding block_from_short_channel_id short_channel_id_from_packed
block_of_packed packed h = ground arith
