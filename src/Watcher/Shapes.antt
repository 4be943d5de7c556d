-- ===== src/Watcher/Shapes.antt =====
-- internal/watcher/classify.go: what the classification of a spend means.
use forktower.Common.{
  ◌≡◌, refl, sym, zero, suc, [], ◌∷◌, ◌++◌, ap, ◌∙◌, ◌↔◌, ◌≢◌, ℕ, ◌+◌, ◌<◌, ◌==◌, Bool, true,
  Option, none, some, List, length, ℤ, arith, Option-cases, inl, inr,
}
use forktower.ChainView.Types.{Hash}
use forktower.Store.Types.{
  commitment_ours, justice, OutpointRole, to_local, to_remote, htlc, anchor, unknown_role,
}
use forktower.Watcher.Types.{Bytes, TxIn, Tx}
use forktower.Watcher.Classify.{
  top_byte, looks_like_commitment, is_our_close, classify_close, classify_shape, is_one,
  takes_revocation_path, sweep_by_role, sweep_by_witness, input_at, classify_sweep,
}
use forktower.Watcher.Record.{is_commitment}

is_our_close_iff : (id : Hash) (o : Option Hash) → (is_our_close id o ≡ true) ↔ (o ≡ some id)
unfolding is_our_close
is_our_close_iff id none = (λ e. cc, λ e. cc)
is_our_close_iff id (some h) = ground arith

abbrev pub one_input : Tx → Bool
one_input tx = length tx.inputs == 1

-- A spend of a funding output is classified as the user's own commitment exactly if it has one
-- input, bears a mark of a commitment, and is the transaction that the user's node reported.
pub classify_shape-ours_iff :
    (tx : Tx) (ours : Option Hash)
    → (classify_shape tx ours ≡ commitment_ours)
      ↔ ((one_input tx ≡ true) × (looks_like_commitment tx ≡ true) × (ours ≡ some tx.id))
unfolding classify_shape classify_close
classify_shape-ours_iff tx ours = let k = is_our_close_iff tx.id ours in ground arith

-- BOLT 3 puts 0x20 above the lower half of the obscured number of a commitment.
top_byte-lock_time : (n : ℕ) → n < 16777216 → top_byte (536870912 + n) ≡ 0x20
unfolding top_byte
top_byte-lock_time n h = omega arith

-- A transaction with one input whose lock time has the marker of a commitment in its top byte is
-- classified as a commitment, so never as a mutual close.
pub classify_shape-commitment :
    (tx : Tx) (ours : Option Hash) (n : ℕ)
    → one_input tx ≡ true
    → n < 16777216
    → tx.lock_time ≡ 536870912 + n
    → is_commitment (classify_shape tx ours) ≡ true
unfolding classify_shape classify_close looks_like_commitment is_commitment
classify_shape-commitment tx ours n i h e =
    let k = ap top_byte e ∙ top_byte-lock_time n h in ground arith

sweep_by_role-never_justice :
    (role : Option OutpointRole) (h d : ℤ) → sweep_by_role role h d ≢ justice
unfolding sweep_by_role
sweep_by_role-never_justice none h d = λ e. cc
sweep_by_role-never_justice (some to_local) h d = λ e. ground arith
sweep_by_role-never_justice (some to_remote) h d = λ e. cc
sweep_by_role-never_justice (some htlc) h d = λ e. cc
sweep_by_role-never_justice (some anchor) h d = λ e. cc
sweep_by_role-never_justice (some unknown_role) h d = λ e. cc

sweep_by_witness-justice_iff :
    (w : List Bytes) (role : Option OutpointRole) (h d : ℤ)
    → (sweep_by_witness w role h d ≡ justice) ↔ (takes_revocation_path w ≡ true)
unfolding sweep_by_witness
sweep_by_witness-justice_iff w role h d =
    let k = sweep_by_role-never_justice role h d in ground arith

-- The input at this position spends the revocation branch of BOLT 3's script: its witness is a
-- signature, the single byte 1, and the script.
pub record RevocationSpend (inputs : List TxIn) (i : ℕ) : Type 0 where
  pub before : List TxIn
  pub input : TxIn
  pub after : List TxIn
  pub signature : Bytes
  pub script : Bytes
  pub split : inputs ≡ before ++ input ∷ after
  pub position : length before ≡ i
  pub witness : input.witness ≡ signature ∷ (1 ∷ []) ∷ script ∷ []

input_at-split :
    (inputs : List TxIn) (i : ℕ) (input : TxIn)
    → input_at inputs i ≡ some input
    → (before : List TxIn) × (after : List TxIn) × (inputs ≡ before ++ input ∷ after)
      × (length before ≡ i)
unfolding input_at
input_at-split [] i input e = ground arith
input_at-split (x ∷ inputs) zero input e = ([], inputs, ground arith, refl)
input_at-split (x ∷ inputs) (suc i) input e =
    let (before, after, split, position) = input_at-split inputs i input e in
    (x ∷ before, after, ap (λ (xs : List TxIn). x ∷ xs) split, ap (λ (n : ℕ). suc n) position)

input_at-append :
    (before : List TxIn) (input : TxIn) (after : List TxIn)
    → input_at (before ++ input ∷ after) (length before) ≡ some input
unfolding input_at
input_at-append [] input after = refl
input_at-append (x ∷ before) input after = input_at-append before input after

is_one-eq : (b : Bytes) → is_one b ≡ true → b ≡ 1 ∷ []
unfolding is_one
is_one-eq [] e = cc
is_one-eq (b ∷ []) e = ground arith
is_one-eq (b ∷ c ∷ rest) e = cc

takes_revocation_path-witness :
    (w : List Bytes)
    → takes_revocation_path w ≡ true
    → (signature : Bytes) × (script : Bytes) × (w ≡ signature ∷ (1 ∷ []) ∷ script ∷ [])
unfolding takes_revocation_path
takes_revocation_path-witness [] e = cc
takes_revocation_path-witness (a ∷ []) e = cc
takes_revocation_path-witness (a ∷ b ∷ []) e = cc
takes_revocation_path-witness (a ∷ b ∷ c ∷ []) e =
    (a, c, ap (λ (x : Bytes). a ∷ x ∷ c ∷ []) (is_one-eq b e))
takes_revocation_path-witness (a ∷ b ∷ c ∷ d ∷ w) e = cc

witness-takes_revocation_path :
    (signature script : Bytes) → takes_revocation_path (signature ∷ (1 ∷ []) ∷ script ∷ []) ≡ true
unfolding takes_revocation_path is_one
witness-takes_revocation_path signature script = refl

classify_sweep-at :
    (tx : Tx) (i : ℕ) (role : Option OutpointRole) (h d : ℤ) (input : TxIn)
    → input_at tx.inputs i ≡ some input
    → classify_sweep tx i role h d ≡ sweep_by_witness input.witness role h d
unfolding classify_sweep
classify_sweep-at tx i role h d input e = rw (e, classify_sweep) refl

justice-RevocationSpend :
    (tx : Tx) (i : ℕ) (role : Option OutpointRole) (h d : ℤ)
    → classify_sweep tx i role h d ≡ justice
    → RevocationSpend tx.inputs i
unfolding classify_sweep
justice-RevocationSpend tx i role h d = elim (Option-cases (input_at tx.inputs i)) [
  | inl e ↦ rw (e, classify_sweep) (λ f. cc)
  | inr (input, e) ↦
      rw (e, classify_sweep)
        (λ f.
          let (before, after, split, position) = input_at-split tx.inputs i input e in
          let (signature, script, witness) =
            takes_revocation_path-witness input.witness
              ((sweep_by_witness-justice_iff input.witness role h d).0 f) in
          record {
            before = before;
            input = input;
            after = after;
            signature = signature;
            script = script;
            split = split;
            position = position;
            witness = witness;
          })
]

RevocationSpend-justice :
    (tx : Tx) (i : ℕ) (role : Option OutpointRole) (h d : ℤ)
    → RevocationSpend tx.inputs i
    → classify_sweep tx i role h d ≡ justice
RevocationSpend-justice tx i role h d r =
    let found : input_at tx.inputs i ≡ some r.input =
      ap (λ (xs : List TxIn). input_at xs i) r.split
      ∙ ap (input_at (r.before ++ r.input ∷ r.after)) (sym r.position)
      ∙ input_at-append r.before r.input r.after in
    let takes : takes_revocation_path r.input.witness ≡ true =
      ap takes_revocation_path r.witness ∙ witness-takes_revocation_path r.signature r.script in
    classify_sweep-at tx i role h d r.input found
    ∙ (sweep_by_witness-justice_iff r.input.witness role h d).1 takes

-- A spend of a commitment's output is classified as justice exactly if the transaction has an
-- input at the given position whose witness is three items, the second of them the single byte 1,
-- whatever the role, the height and the deadline.
pub classify_sweep-justice_iff :
    (tx : Tx) (i : ℕ) (role : Option OutpointRole) (h d : ℤ)
    → (classify_sweep tx i role h d ≡ justice) ↔ RevocationSpend tx.inputs i
classify_sweep-justice_iff tx i role h d =
    (justice-RevocationSpend tx i role h d, RevocationSpend-justice tx i role h d)
