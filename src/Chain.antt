-- ===== src/Chain.antt =====
-- internal/chain: one cell's chain of transactions, what the wallet and the network say of it, and
-- the decisions made from that.
pub mod Tips
pub mod Oracle
pub mod SpentTip
pub mod Spending
pub mod Successor
pub mod Derived
pub mod Recover
pub mod Walk
pub mod Refusal
pub mod Evidence
pub mod Sentinel
use rule_110_arcade.Base.{
  ℕ, ◌≡◌, Bool, true, false, Option, none, some, ◌>>=◌, List, [], ◌∷◌, String,
}
use rule_110_arcade.Ca.{Row, HexText, seed_hex}
use rule_110_arcade.Cellscript.{Compiled, CtorArgs, ctor_args}

-- `CellChain` without the field that only old files carry.
pub record CellChain : Type 0 where
  pub cell : ℕ
  pub txid : String
  pub vout : ℕ
  pub satoshis : ℕ
  pub generation : ℕ
  pub row_hex : HexText
  pub raw_tx_hex : HexText

-- The zero value of the struct.
abbrev pub no_chain : CellChain
no_chain = record {
  cell = 0;
  txid = "";
  vout = 0;
  satoshis = 0;
  generation = 0;
  row_hex = [];
  raw_tx_hex = [];
}

-- `CellChain.Row`
unfoldable pub tip_row : CellChain → ℕ → Option Row
tip_row c cells = seed_hex cells c.row_hex

abbrev pub Bytes : Type 0
Bytes = List ℕ

-- The fields of go-sdk's transactions that the package reads; `none` is a nil pointer.
pub record Input : Type 0 where
  pub source_txid : Option String
  pub source_index : ℕ

pub record Output : Type 0 where
  pub locking_script : Option Bytes
  pub satoshis : ℕ

pub record Tx : Type 0 where
  pub inputs : List Input
  pub outputs : List Output

-- go-sdk's parser and transaction id, and the script that the compiler's artifact gives for a contract's
-- arguments.
pub record Sdk : Type 0 where
  pub parse : Bytes → Option Tx
  pub tx_id : Tx → String
  pub build : CtorArgs → Option Bytes

-- `Compiled.LockingScript`
unfoldable pub locking_script : Sdk → Compiled → ℕ → Row → Option Bytes
locking_script k c i row = do args ← ctor_args c i row; k.build args

pub record CellAction : Type 0 where
  pub txid : String
  pub is_failed : Bool
  pub generation : ℕ
  pub has_generation : Bool
  pub locking_script : Bytes
  pub satoshis : ℕ

-- What the wallet's own record answers; `none` is an error. The actions come with their total.
pub record Ledger : Type 0 where
  pub raw_tx : String → Option Bytes
  pub cell_actions : ℕ → ℕ → Option (List CellAction × ℕ)
