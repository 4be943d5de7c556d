-- ===== src/Watcher/Types.antt =====
-- internal/watcher: transactions as the watcher reads them, and what it watches.
use forktower.Common.{ℕ, Bool, true, false, Option, List, ℤ}
use forktower.ChainView.Types.{Hash}
use forktower.Store.Types.{OutpointRole}
use forktower.Store.Spends.{Outpoint}

abbrev pub Bytes : Type 0
Bytes = List ℕ

pub record TxIn : Type 0 where
  pub previous : Outpoint
  pub sequence : ℕ
  pub witness : List Bytes

pub record TxOut : Type 0 where
  pub value : ℤ
  pub script : Bytes

-- A wire.MsgTx. `id` is what its method TxHash computes, which is not the program's code.
pub record Tx : Type 0 where
  pub id : Hash
  pub inputs : List TxIn
  pub outputs : List TxOut
  pub lock_time : ℕ

pub data Kind : Type 0 where
  funding commitment_output : Kind

abbrev pub is_funding : Kind → Bool
is_funding funding = true
is_funding commitment_output = false

-- The role of a funding output, the empty string, is none; so is a script that is not known.
pub record Target : Type 0 where
  pub outpoint : Outpoint
  pub kind : Kind
  pub channel_id : ℤ
  pub role : Option OutpointRole
  pub source_spend_event_id : ℤ
  pub script : Bytes

-- `Match`
pub record Found : Type 0 where
  pub target : Target
  pub tx : Tx
  pub tx_index : ℕ
  pub input_index : ℕ
