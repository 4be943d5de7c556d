-- ===== src/Watcher/State.antt =====
-- internal/watcher/watcher.go: what the watcher keeps, the tables it writes, and what it is answered.
use forktower.Common.{◌==◌, Bool, not, ◌&&◌, Option, List, [], ◌∷◌, ◌++◌, ℤ, pos, ltb_ℤ, leb_ℤ}
use forktower.ChainView.Types.{Hash, BlockRef}
use forktower.Store.Types.{SpendShape, OutpointRole}
use forktower.Store.Spends.{Spend, WatchOutpoint}
use forktower.Watcher.Types.{Tx, Target}
use forktower.Watcher.Targets.{Channel}

pub data AlertKind : Type 0 where
  watcher_stalled watcher_deep_reorg : AlertKind

-- What the watcher says to the rest of the program: what it publishes on the bus, and what it asks
-- the table of alerts to raise or to resolve.
pub data Effect : Type 0 where
  funding_spent : ℤ → ℤ → Hash → SpendShape → ℤ → Effect
  second_order_spent : ℤ → ℤ → Option OutpointRole → SpendShape → Effect
  mempool_sighting : ℤ → ℤ → Hash → SpendShape → Effect
  spend_reorged_out : ℤ → Effect
  raise_alert : AlertKind → Effect
  resolve_alert : AlertKind → Effect

-- `sweep`
pub record Range : Type 0 where
  pub next : ℤ
  pub target : ℤ

abbrev pub pending : Range → Bool
pending s = ltb_ℤ (pos 0) s.target && leb_ℤ s.next s.target

-- Without the time and the text of the last change.
pub record Progress : Type 0 where
  pub height : ℤ
  pub stalled : Bool
  pub stalled_at : ℤ
  pub rescan_next : ℤ
  pub rescan_target : ℤ

-- What backendState keeps of the node's answer, with the time of it in nanoseconds.
pub record Health : Type 0 where
  pub replaying : Bool
  pub best : ℤ
  pub at : ℤ

-- The fields of Watcher that its decisions read, with the rows of spends and of outpoints, and with
-- what it has said so far. The hash in `last` is zero where no block has been processed.
pub record Watch : Type 0 where
  pub spends : List Spend
  pub outputs : List WatchOutpoint
  pub watched : List Target
  pub last : BlockRef
  pub progress : Progress
  pub sweep : Range
  pub blocked_sweep : Bool
  pub checked_standing : Bool
  pub cached : Option Health
  pub effects : List Effect

-- blockRef.known
abbrev pub known : BlockRef → Bool
known b = not (b.hash == 0)

abbrev pub no_block : BlockRef
no_block = record { hash = 0; height = pos 0 }

-- What the backend and the database answer while a block is read. None is an error of a read, and
-- false that a write fails, which leaves its table as it was.
pub record Answers : Type 0 where
  pub match_block : Hash → List Target → Option Bool
  pub block : Hash → Option (List Tx)
  pub channels : Option (List Channel)
  pub lists_outpoints : Bool
  pub saves_spend : Spend → Bool
  pub new_id : List Spend → ℤ
  pub reads_spend : ℤ → Bool
  pub updates_status : ℤ → Bool
  pub updates_shape : ℤ → Bool
  pub adds_outpoint : WatchOutpoint → Bool

unfoldable pub say : Effect → Watch → Watch
say e st = record st { effects = st.effects ++ e ∷ [] }
