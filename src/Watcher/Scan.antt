-- ===== src/Watcher/Scan.antt =====
-- internal/watcher/scan.go: every watched outpoint that a block, or a transaction, spends.
use forktower.Common.{
  ℕ, suc, ◌==◌, Bool, false, ◌&&◌, Option, none, some, List, [], ◌∷◌, ◌++◌, if◌then◌else◌,
}
use forktower.Watcher.Types.{TxIn, Tx, Target, Found}
use forktower.Watcher.Targets.{lookup}

-- isCoinbase: one input, of the empty hash and an index of all ones.
unfoldable pub is_coinbase_input : List TxIn → Bool
is_coinbase_input [] = false
is_coinbase_input (input ∷ []) = input.previous.index == 4294967295 && input.previous.hash == 0
is_coinbase_input (input ∷ other ∷ rest) = false

abbrev pub is_coinbase : Tx → Bool
is_coinbase tx = is_coinbase_input tx.inputs

unfoldable pub found_at : List Target → Tx → ℕ → ℕ → Option Target → List Found → List Found
found_at ts tx tx_index i none rest = rest
found_at ts tx tx_index i (some target) rest =
    record { target = target; tx = tx; tx_index = tx_index; input_index = i } ∷ rest

-- The loop of scanTx over the inputs.
unfoldable pub scan_inputs : List Target → Tx → ℕ → ℕ → List TxIn → List Found
unfolding found_at
scan_inputs ts tx tx_index i [] = []
scan_inputs ts tx tx_index i (input ∷ rest) =
    found_at ts tx tx_index i (lookup input.previous ts) (scan_inputs ts tx tx_index (suc i) rest)

-- scanTx
unfoldable pub scan_tx : List Target → Tx → ℕ → List Found
unfolding scan_inputs
scan_tx ts tx tx_index = if is_coinbase tx then [] else scan_inputs ts tx tx_index 0 tx.inputs

unfoldable pub scan_txs : List Target → ℕ → List Tx → List Found
unfolding scan_tx
scan_txs ts tx_index [] = []
scan_txs ts tx_index (tx ∷ txs) = scan_tx ts tx tx_index ++ scan_txs ts (suc tx_index) txs

-- ScanBlock. Of an empty set it finds nothing, as `lookup` does.
unfoldable pub scan_block : List Target → List Tx → List Found
unfolding scan_txs
scan_block ts txs = scan_txs ts 0 txs
