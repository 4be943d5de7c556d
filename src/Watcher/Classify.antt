-- ===== src/Watcher/Classify.antt =====
-- internal/watcher/classify.go: what a spend appears to be.
use forktower.Common.{
  ℕ, zero, suc, ◌/◌, ◌==◌, ltb, leb, Bool, false, not, ◌&&◌, ◌||◌, Option, none, some, List, [],
  ◌∷◌, length, any, ℤ, pos, ltb_ℤ, leb_ℤ, eqb_ℤ, if◌then◌else◌,
}
use forktower.ChainView.Types.{Hash}
use forktower.Store.Types.{
  SpendShape, mutual_close, commitment_ours, commitment_unknown, justice, delayed_sweep, htlc_claim,
  unknown_shape, OutpointRole, to_local, to_remote, htlc, anchor, unknown_role,
}
use forktower.Watcher.Types.{Bytes, TxIn, TxOut, Tx}

-- AnchorValueSat
abbrev pub anchor_value_sat : ℤ
anchor_value_sat = pos 330

-- The top byte of a 32-bit number, `v >> 24`.
unfoldable pub top_byte : ℕ → ℕ
top_byte v = v / 16777216

abbrev pub is_anchor : TxOut → Bool
is_anchor out = eqb_ℤ out.value anchor_value_sat

abbrev pub has_sequence_marker : TxIn → Bool
has_sequence_marker input = top_byte input.sequence == 0x80

-- looksLikeCommitment
unfoldable pub looks_like_commitment : Tx → Bool
unfolding top_byte
looks_like_commitment tx =
    any is_anchor tx.outputs || top_byte tx.lock_time == 0x20 || any has_sequence_marker tx.inputs

-- isPlainPayment, by the first two bytes and the length.
unfoldable pub is_plain_payment : Bytes → Bool
is_plain_payment [] = false
is_plain_payment (a ∷ []) = false
is_plain_payment (a ∷ b ∷ rest) =
    (length rest == 20 && a == 0x00 && b == 0x14)
    || (length rest == 32 && a == 0x00 && b == 0x20)
    || (length rest == 32 && a == 0x51 && b == 0x20)

-- The witness of a spend of the funding output's two-of-two script.
unfoldable pub is_two_of_two : List Bytes → Bool
is_two_of_two [] = false
is_two_of_two (dummy ∷ rest) = length rest == 3 && length dummy == 0

-- looksLikeMutualClose, of the inputs of a transaction.
unfoldable pub is_mutual_close_input : List TxIn → Bool
unfolding is_two_of_two
is_mutual_close_input [] = false
is_mutual_close_input (input ∷ []) = is_two_of_two input.witness
is_mutual_close_input (input ∷ other ∷ rest) = false

abbrev not_plain : TxOut → Bool
not_plain out = not (is_plain_payment out.script)

-- looksLikeMutualClose
unfoldable pub looks_like_mutual_close : Tx → Bool
unfolding is_mutual_close_input is_plain_payment
looks_like_mutual_close tx =
    is_mutual_close_input tx.inputs
    && not (length tx.outputs == 0)
    && leb (length tx.outputs) 2
    && ltb tx.lock_time 500000000
    && not (any not_plain tx.outputs)

-- The transaction is the one that the user's node reported; none if it reported none. A text that
-- is not a transaction id equals no id.
unfoldable pub is_our_close : Hash → Option Hash → Bool
is_our_close id none = false
is_our_close id (some ours) = id == ours

unfoldable pub classify_close : Tx → Option Hash → SpendShape
unfolding is_our_close
classify_close tx our_close =
    if looks_like_commitment tx
    then if is_our_close tx.id our_close then commitment_ours else commitment_unknown
    else if looks_like_mutual_close tx
    then mutual_close
    else unknown_shape

-- ClassifyShape
unfoldable pub classify_shape : Tx → Option Hash → SpendShape
unfolding classify_close
classify_shape tx our_close =
    if length tx.inputs == 1 then classify_close tx our_close else unknown_shape

-- takesRevocationPath, by the selector: a signature, the selector, and the script.
unfoldable pub is_one : Bytes → Bool
is_one [] = false
is_one (b ∷ []) = b == 0x01
is_one (b ∷ c ∷ rest) = false

unfoldable pub takes_revocation_path : List Bytes → Bool
unfolding is_one
takes_revocation_path (signature ∷ selector ∷ script ∷ []) = is_one selector
takes_revocation_path _ = false

-- takesDelayedPath
unfoldable pub takes_delayed_path : List Bytes → Bool
takes_delayed_path (signature ∷ selector ∷ script ∷ []) = length selector == 0
takes_delayed_path _ = false

unfoldable pub sweep_by_role : Option OutpointRole → ℤ → ℤ → SpendShape
sweep_by_role (some htlc) spend_height deadline_height = htlc_claim
sweep_by_role (some to_local) spend_height deadline_height =
    if ltb_ℤ (pos 0) deadline_height && leb_ℤ deadline_height spend_height
    then delayed_sweep
    else unknown_shape
sweep_by_role (some to_remote) spend_height deadline_height = unknown_shape
sweep_by_role (some anchor) spend_height deadline_height = unknown_shape
sweep_by_role (some unknown_role) spend_height deadline_height = unknown_shape
sweep_by_role none spend_height deadline_height = unknown_shape

unfoldable pub sweep_by_witness : List Bytes → Option OutpointRole → ℤ → ℤ → SpendShape
unfolding takes_revocation_path takes_delayed_path sweep_by_role
sweep_by_witness witness role spend_height deadline_height =
    if takes_revocation_path witness
    then justice
    else if takes_delayed_path witness
    then delayed_sweep
    else sweep_by_role role spend_height deadline_height

unfoldable pub input_at : List TxIn → ℕ → Option TxIn
input_at [] i = none
input_at (input ∷ rest) zero = some input
input_at (input ∷ rest) (suc i) = input_at rest i

-- ClassifySweep
unfoldable pub classify_sweep : Tx → ℕ → Option OutpointRole → ℤ → ℤ → SpendShape
unfolding sweep_by_witness input_at
classify_sweep tx input_index role spend_height deadline_height =
    elim (input_at tx.inputs input_index) [
      | none ↦ unknown_shape
      | some input ↦ sweep_by_witness input.witness role spend_height deadline_height
    ]
