-- ===== src/Watcher/Finding.antt =====
-- internal/watcher/scan.go: that a scan finds every input that spends a watched outpoint, and nothing
-- else.
use forktower.Common.{
  ◌≡◌, refl, ap, ℕ, suc, ◌+◌, ◌==◌, Bool, true, false, not, ◌&&◌, ◌||◌, inl, inr, Option, none,
  some, List, [], ◌∷◌, ◌++◌, any, arith, Option-cases, Bool-cases, if_either, Any, All, All-append,
  All-map, is_some,
}
use forktower.Store.Spends.{Outpoint, same_outpoint}
use forktower.Watcher.Types.{TxIn, Tx, Target, Found}
use forktower.Watcher.Classify.{input_at}
use forktower.Watcher.Targets.{lookup}
use forktower.Watcher.Coverage.{eq_of_same}
use forktower.Watcher.Scan.{is_coinbase, found_at, scan_inputs, scan_tx, scan_txs, scan_block}

-- The match of a spend of the outpoint by the transaction.
abbrev pub finds : Outpoint → Tx → Found → Bool
finds op tx m = same_outpoint m.target.outpoint op && m.tx.id == tx.id

lookup-outpoint :
    (op : Outpoint) (ts : List Target) (t : Target)
    → lookup op ts ≡ some t
    → same_outpoint t.outpoint op ≡ true
unfolding lookup
lookup-outpoint op [] t h = ground arith
lookup-outpoint op (u ∷ us) t h = ground (arith, lookup-outpoint op us t)

abbrev spends_it : Outpoint → TxIn → Bool
spends_it op input = same_outpoint input.previous op

any-append :
    {A : Type 0} (p : A → Bool) (xs ys : List A) → any p (xs ++ ys) ≡ (any p xs || any p ys)
any-append p [] ys = refl
any-append p (x ∷ xs) ys = ground (arith, any-append p xs ys)

found_at-first :
    (ts : List Target) (tx : Tx) (tx_index i : ℕ) (op : Outpoint) (rest : List Found)
    → is_some (lookup op ts) ≡ true
    → any (finds op tx) (found_at ts tx tx_index i (lookup op ts) rest) ≡ true
unfolding found_at
found_at-first ts tx tx_index i op rest w = elim (Option-cases (lookup op ts)) [
  | inl e ↦ cc
  | inr (t, e) ↦ rw e (let f = lookup-outpoint op ts t e in ground arith)
]

found_at-rest :
    (ts : List Target) (tx : Tx) (tx_index i : ℕ) (op : Outpoint) (o : Option Target)
    (rest : List Found)
    → any (finds op tx) rest ≡ true
    → any (finds op tx) (found_at ts tx tx_index i o rest) ≡ true
unfolding found_at
found_at-rest ts tx tx_index i op none rest h = h
found_at-rest ts tx tx_index i op (some t) rest h = ground arith

scan_inputs-finds :
    (ts : List Target) (tx : Tx) (tx_index i : ℕ) (ins : List TxIn) (op : Outpoint)
    → is_some (lookup op ts) ≡ true
    → any (spends_it op) ins ≡ true
    → any (finds op tx) (scan_inputs ts tx tx_index i ins) ≡ true
unfolding scan_inputs
scan_inputs-finds ts tx tx_index i [] op w h = h
scan_inputs-finds ts tx tx_index i (input ∷ ins) op w h = elim (Bool-cases (spends_it op input)) [
  | inl e ↦
      rw (eq_of_same input.previous op e)
        (found_at-first ts tx tx_index i op (scan_inputs ts tx tx_index (suc i) ins) w)
  | inr e ↦
      found_at-rest ts tx tx_index i op (lookup input.previous ts)
        (scan_inputs ts tx tx_index (suc i) ins)
        (scan_inputs-finds ts tx tx_index (suc i) ins op w (ground arith))
]

-- The transaction is no coinbase, and one of its inputs spends the outpoint.
abbrev pub spends : Outpoint → Tx → Bool
spends op tx = not (is_coinbase tx) && any (spends_it op) tx.inputs

scan_tx-finds :
    (ts : List Target) (tx : Tx) (tx_index : ℕ) (op : Outpoint)
    → is_some (lookup op ts) ≡ true
    → spends op tx ≡ true
    → any (finds op tx) (scan_tx ts tx tx_index) ≡ true
unfolding scan_tx
scan_tx-finds ts tx tx_index op w h =
    if_either (λ (ms : List Found). any (finds op tx) ms ≡ true) (is_coinbase tx)
      (λ e. ground arith) (λ e. scan_inputs-finds ts tx tx_index 0 tx.inputs op w (ground arith))

-- A list of transactions holds this one.
abbrev pub Holds : Tx → List Tx → Type 0
Holds tx txs = Any (λ (u : Tx). u ≡ tx) txs

scan_txs-finds :
    (ts : List Target) (txs : List Tx) (tx_index : ℕ) (tx : Tx) (op : Outpoint)
    → is_some (lookup op ts) ≡ true
    → Holds tx txs
    → spends op tx ≡ true
    → any (finds op tx) (scan_txs ts tx_index txs) ≡ true
unfolding scan_txs
scan_txs-finds ts [] tx_index tx op w x h = elim x [ ]
scan_txs-finds ts (u ∷ us) tx_index tx op w (inl e) h =
    rw
      (
        any-append (finds op tx) (scan_tx ts u tx_index) (scan_txs ts (suc tx_index) us),
        e,
        scan_tx-finds ts tx tx_index op w h,
      )
      refl
scan_txs-finds ts (u ∷ us) tx_index tx op w (inr x) h =
    rw (any-append (finds op tx) (scan_tx ts u tx_index) (scan_txs ts (suc tx_index) us))
      (let f = scan_txs-finds ts us (suc tx_index) tx op w x h in ground arith)

pub scan_block-finds :
    (ts : List Target) (txs : List Tx) (tx : Tx) (op : Outpoint)
    → is_some (lookup op ts) ≡ true
    → Holds tx txs
    → spends op tx ≡ true
    → any (finds op tx) (scan_block ts txs) ≡ true
unfolding scan_block
scan_block-finds ts txs tx op w x h = scan_txs-finds ts txs 0 tx op w x h

-- The match names a transaction that is no coinbase, an input of it, and what is watched there.
pub IsMatchOf : List Target → Tx → Found → Type 0
IsMatchOf ts tx m =
    (m.tx ≡ tx)
    × (is_coinbase m.tx ≡ false)
    × (input : TxIn) × (input_at m.tx.inputs m.input_index ≡ some input)
    × (lookup input.previous ts ≡ some m.target)

module _ (ts : List Target) (tx : Tx) (tx_index : ℕ) where
  found_at-IsMatchOf :
      (i : ℕ) (input : TxIn) (o : Option Target) (rest : List Found)
      → is_coinbase tx ≡ false
      → input_at tx.inputs i ≡ some input
      → lookup input.previous ts ≡ o
      → All (IsMatchOf ts tx) rest
      → All (IsMatchOf ts tx) (found_at ts tx tx_index i o rest)
  unfolding found_at IsMatchOf
  found_at-IsMatchOf i input none rest c e f ps = ps
  found_at-IsMatchOf i input (some t) rest c e f ps = ((refl, c, input, e, f), ps)

  scan_inputs-IsMatchOf :
      (i : ℕ) (ins : List TxIn)
      → is_coinbase tx ≡ false
      → ((k j : ℕ) → j ≡ i + k → input_at tx.inputs j ≡ input_at ins k)
      → All (IsMatchOf ts tx) (scan_inputs ts tx tx_index i ins)
  unfolding scan_inputs input_at
  scan_inputs-IsMatchOf i [] c h = tt
  scan_inputs-IsMatchOf i (input ∷ ins) c h =
      found_at-IsMatchOf i input (lookup input.previous ts) (scan_inputs ts tx tx_index (suc i) ins)
        c (h 0 i (omega arith)) refl
        (scan_inputs-IsMatchOf (suc i) ins c (λ k j e. h (suc k) j (omega arith)))

  scan_tx-IsMatchOf : All (IsMatchOf ts tx) (scan_tx ts tx tx_index)
  unfolding scan_tx
  scan_tx-IsMatchOf =
      if_either (λ (ms : List Found). All (IsMatchOf ts tx) ms) (is_coinbase tx) (λ e. tt)
        (λ e. scan_inputs-IsMatchOf 0 tx.inputs e (λ k j f. ap (input_at tx.inputs) (omega arith)))

-- The match is of a transaction of the list.
abbrev pub IsMatch : List Target → List Tx → Found → Type 0
IsMatch ts txs m = Any (λ (tx : Tx). IsMatchOf ts tx m) txs

scan_txs-IsMatch :
    (ts : List Target) (tx_index : ℕ) (txs : List Tx)
    → All (IsMatch ts txs) (scan_txs ts tx_index txs)
unfolding scan_txs
scan_txs-IsMatch ts tx_index [] = tt
scan_txs-IsMatch ts tx_index (tx ∷ txs) =
    All-append (IsMatch ts (tx ∷ txs)) (scan_tx ts tx tx_index) (scan_txs ts (suc tx_index) txs)
      (All-map (λ (m : Found) e. inl e) (scan_tx ts tx tx_index) (scan_tx-IsMatchOf ts tx tx_index))
      (All-map (λ (m : Found) e. inr e) (scan_txs ts (suc tx_index) txs)
        (scan_txs-IsMatch ts (suc tx_index) txs))

-- A match that a scan of a block reports names a transaction of the block that is no coinbase, an
-- input of it by its position, and the target that is watched at the outpoint the input spends.
pub scan_block-IsMatch :
    (ts : List Target) (txs : List Tx) → All (IsMatch ts txs) (scan_block ts txs)
unfolding scan_block
scan_block-IsMatch ts txs = scan_txs-IsMatch ts 0 txs
