-- ===== src/Engine/Runtime.antt =====
-- internal/engine/engine.go and status.go: the state that the cell workers and the status events share,
-- around the fields of `Engine`. A map is a function; a missing entry of a map of flags is false.
use rule_110_arcade.Base.{ℕ, Bool, Option, List, String}
use rule_110_arcade.Ca.{HexText}
use rule_110_arcade.History.{Status, broadcast, seen, mined, failed, other}
use rule_110_arcade.Engine.Derive.{Reason}
use rule_110_arcade.Engine.Worker.{Engine}

-- `tx_other` is a text of the store that is none of the five.
pub data TxState : Type 0 where
  tx_pending tx_broadcast tx_seen tx_mined tx_failed : TxState
  tx_other : Status → TxState

-- TxState(c.Status), with which `loadHistory` reads a recorded status.
unfoldable pub state_of : Status → TxState
state_of broadcast = tx_broadcast
state_of seen = tx_seen
state_of mined = tx_mined
state_of failed = tx_failed
state_of s = tx_other s

-- history.Status(state); the store never names a pending cell itself.
unfoldable pub status_of : TxState → Status
status_of tx_pending = other "pending"
status_of tx_broadcast = broadcast
status_of tx_seen = seen
status_of tx_mined = mined
status_of tx_failed = failed
status_of (tx_other s) = s

pub record CellTx : Type 0 where
  pub cell : ℕ
  pub txid : String
  pub state : TxState
  pub err : String

pub record Generation : Type 0 where
  pub number : ℕ
  pub row_hex : HexText
  pub cells : List CellTx

pub record TxLoc : Type 0 where
  pub generation : ℕ
  pub cell : ℕ

-- A zero `first` is `none`; times are milliseconds.
pub record RetryState : Type 0 where
  pub generation : ℕ
  pub attempts : ℕ
  pub first : Option ℕ

-- Why a cell was halted, for the texts of haltReason.
pub data HaltReason : Type 0 where
  rejected_with : String → HaltReason
  derived_as : Reason → HaltReason
  not_recorded : (generation : ℕ) → HaltReason
  not_derived outside_ring not_decided decided_halt not_applied not_clearing : HaltReason

pub data LastError : Type 0 where
  no_error out_of_funds : LastError
  error_text : String → LastError
  cell_halted : (cell : ℕ) → HaltReason → LastError

pub record Runtime : Type 0 where
  pub engine : Engine
  pub history : List Generation
  pub tx_index : String → Option TxLoc
  pub retries : ℕ → Option RetryState
  pub needs_repair : ℕ → Bool
  pub halt_reason : ℕ → Option HaltReason
  pub last_error : LastError
  pub total_tx : ℕ
