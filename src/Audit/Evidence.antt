-- ===== src/Audit/Evidence.antt =====
-- internal/audit/audit.go: what an audit is to find, apart from how it looks for it.
use rule_110_arcade.Base.{
  ℕ, zero, suc, ◌<◌, ◌≡◌, ◌≢◌, Bool, false, true, Option, some, [], String, length, ◌==◌, get_elem?,
  is_empty,
}
use rule_110_arcade.Ca.{Row, get, left_index, right_index, next, to_bit, step as next_row}
use rule_110_arcade.Cellscript.Unlocking.{Unlock, decode_unlocking}
use rule_110_arcade.Cellscript.Decode.{decode}
use rule_110_arcade.Chain.{Bytes, Input, Output, Tx}
use rule_110_arcade.History.{Store, CellTx, is_failed}
use rule_110_arcade.Audit.{Report, Options}
use rule_110_arcade.Audit.Fetch.{World, Recorded, load}
use rule_110_arcade.Audit.Cell.{preimage, names, find_input, output_index}

-- Nothing was found wrong, and nothing was left out.
abbrev pub IsClean : Report → Type 0
IsClean r = (r.failures ≡ []) × (r.gaps ≡ [])

-- The source's bytes for the id are this transaction, and it has that id.
pub record IsTxOf (v : World) (id : String) (tx : Tx) : Type 0 where
  pub raw : Bytes
  pub nonempty : 0 < length raw
  pub held : v.raw_tx id ≡ some raw
  pub parsed : v.sdk.parse raw ≡ some tx
  pub own : v.sdk.tx_id tx ≡ id

module _ (v : World) where
  -- `tx` spends the output `vout` of the parent, which is the cell's covenant for `row`; its
  -- unlocking script reads as `unlock`, whose preimage is the one of this spend.
  pub record IsSpend (cell : ℕ) (tx parent_tx : Tx) (parent_txid : String) (vout : ℕ) (row : Row)
      (unlock : Unlock) : Type 0 where
    pub input : ℕ
    pub spending : Input
    pub first : find_input parent_txid vout 0 tx.inputs ≡ some input
    pub spends : get_elem? tx.inputs input ≡ some spending
    pub outpoint : names parent_txid vout spending ≡ true
    pub out : Output
    pub spent : get_elem? parent_tx.outputs vout ≡ some out
    pub lock : Bytes
    pub locked : v.locking_bytes out ≡ some lock
    pub bound : decode v.artifact v.compiled lock ≡ some (record { cell = cell; row = row })
    pub unlocking : Bytes
    pub pushed : v.unlocking_bytes tx input ≡ some unlocking
    pub decoded : decode_unlocking v.script v.compiled unlocking ≡ some unlock
    pub committed : preimage v tx input lock out.satoshis ≡ some unlock.preimage

  -- An output that is the cell's covenant for a row.
  pub record IsCovenant (cell : ℕ) (tx : Tx) (vout : ℕ) (row : Row) : Type 0 where
    pub out : Output
    pub there : get_elem? tx.outputs vout ≡ some out
    pub lock : Bytes
    pub locked : v.locking_bytes out ≡ some lock
    pub bound : decode v.artifact v.compiled lock ≡ some (record { cell = cell; row = row })

  -- The cell's transaction of the generation of `cur`, which spends the cell's output of `prev`,
  -- carrying its row, at a covenant of the cell, and continues at the cell's covenant for a row whose
  -- bit of the cell is the rule's answer to the three bits of the row of `prev`, and the bit
  -- recorded.
  pub record IsTransition (cur prev : Recorded) (cell : ℕ) (rec : CellTx) : Type 0 where
    pub parent : CellTx
    pub recorded : prev.cell_tx cell ≡ some parent
    pub named : is_empty parent.txid ≡ false
    pub tx : Tx
    pub genuine : IsTxOf v rec.txid tx
    pub parent_tx : Tx
    pub parent_genuine : IsTxOf v parent.txid parent_tx
    pub unlock : Unlock
    pub spend : IsSpend cell tx parent_tx parent.txid (output_index prev cell) prev.row unlock
    pub continues : IsCovenant cell tx 0 unlock.next_row
    pub l : Bool
    pub c : Bool
    pub r : Bool
    pub left : get prev.row (left_index v.compiled.cells cell) ≡ some l
    pub itself : get prev.row cell ≡ some c
    pub right : get prev.row (right_index v.compiled.cells cell) ≡ some r
    pub presented : get unlock.next_row cell ≡ get cur.row cell
    pub ruled : get cur.row cell ≡ some (next v.compiled.rule (to_bit l) (to_bit c) (to_bit r) == 1)

  -- The cell's output of the genesis.
  pub record IsGenesis (cur : Recorded) (cell : ℕ) (rec : CellTx) : Type 0 where
    pub tx : Tx
    pub genuine : IsTxOf v rec.txid tx
    pub carries : IsCovenant cell tx cell cur.row

  abbrev pub IsProved : Recorded → Option Recorded → ℕ → CellTx → Type 0
  IsProved cur prev cell rec =
      (cur.number ≡ 0 → IsGenesis cur cell rec)
      × (cur.number ≢ 0 → (p : Recorded) × (prev ≡ some p) × IsTransition cur p cell rec)

  -- The record of a cell names a transaction that was not refused, and which is proved.
  abbrev pub IsAudited : Recorded → Option Recorded → ℕ → Option CellTx → Type 0
  IsAudited cur prev cell o =
      (rec : CellTx) × (o ≡ some rec)
      × (is_empty rec.txid ≡ false)
      × (is_failed rec.status ≡ false)
      × IsProved cur prev cell rec

module _ (v : World) (s : Store) (opts : Options) where
  -- Every cell of the ring has a record that names a transaction that was not refused, of which `P`
  -- holds.
  abbrev pub ForCells : Recorded → (ℕ → CellTx → Type 0) → Type 0
  ForCells cur P =
      (i : ℕ)
      → i < v.compiled.cells
      → (rec : CellTx) × (cur.cell_tx i ≡ some rec)
        × (is_empty rec.txid ≡ false)
        × (is_failed rec.status ≡ false)
        × P i rec

  -- The generation is recorded. The first has the seed's row and the genesis' outputs; a later one
  -- has the row that the rule gives for its predecessor's, and a transition of each cell.
  abbrev pub AuditedAt : ℕ → Type 0
  AuditedAt zero =
      (cur : Recorded) × (load v s 0 ≡ some (some cur))
      × (opts.seed ≡ some cur.row)
      × ForCells cur (λ i rec. IsGenesis v cur i rec)
  AuditedAt (suc k) =
      (prev : Recorded) × (cur : Recorded) × (load v s k ≡ some (some prev))
      × (load v s (suc k) ≡ some (some cur))
      × (next_row v.compiled.rule prev.row ≡ some cur.row)
      × ForCells cur (λ i rec. IsTransition v cur prev i rec)
