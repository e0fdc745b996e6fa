-- ===== src/Audit/Cell.antt =====
-- internal/audit/audit.go: the audit of one cell's transaction.
use rule_110_arcade.Base.{
  ℕ, suc, Bool, false, not, Option, none, some, List, [], ◌∷◌, String, ltb, ◌==◌, if◌then◌else◌,
  str_eq, is_empty, get_elem?, length,
}
use rule_110_arcade.Ca.{Row, get, equal, left_index, right_index, next, to_bit}
use rule_110_arcade.Cellscript.Unlocking.{Unlock, decode_unlocking}
use rule_110_arcade.Cellscript.Decode.{decode, script_code}
use rule_110_arcade.Chain.{Bytes, Input, Tx}
use rule_110_arcade.Chain.Tips.{u32}
use rule_110_arcade.History.{CellTx, is_failed}
use rule_110_arcade.Audit.{
  identity, linkage, binding, covenant, neighbourhood, carried_row, rule_check, successor, no_txid,
  refused_there, not_recorded, no_outpoint, Step, ◌>>=◌, ◌>>◌, pure, lift, pass, fail, gap, or_else,
  ensure,
}
use rule_110_arcade.Audit.Preimage.{preimage_script_code}
use rule_110_arcade.Audit.Fetch.{World, Recorded, fetched}

-- `Compiled.Preimage` of a transaction that is there.
unfoldable pub preimage : World → Tx → ℕ → Bytes → ℕ → Option Bytes
preimage v tx input prev_lock prev_sats =
    if not (ltb input (length tx.inputs))
    then none
    else v.compute_op_push_tx tx input prev_lock prev_sats v.artifact.code_sep_offset

-- The outpoint that an input names.
unfoldable pub names : String → ℕ → Input → Bool
names txid vout i = elim i.source_txid [
  | none ↦ false
  | some t ↦ if str_eq t txid then i.source_index == vout else false
]

-- The loop over the inputs, the first of them with index `i`.
unfoldable pub find_input : String → ℕ → ℕ → List Input → Option ℕ
unfolding names
find_input txid vout i [] = none
find_input txid vout i (x ∷ xs) =
    let rest = find_input txid vout (suc i) xs in if names txid vout x then some i else rest

abbrev pub same_bit : Bool → Bool → Bool
same_bit a b = to_bit a == to_bit b

-- The parent's record, if it names a transaction.
unfoldable pub named_parent : Option CellTx → Option CellTx
named_parent none = none
named_parent (some t) = if is_empty t.txid then none else some t

unfoldable pub output_index : Recorded → ℕ → ℕ
output_index prev cell = if prev.number == 0 then u32 cell else 0

unfoldable pub bump_transactions : Step (Unit {0})
bump_transactions a =
    some (some tt, record a { rep = record a.rep { transactions = suc a.rep.transactions } })

module _ (v : World) where
  -- Every way out of `checkPreimage` but one is a failure of the covenant; which one it is decides
  -- its text.
  unfoldable pub check_preimage : ℕ → ℕ → Tx → ℕ → Bytes → ℕ → Unlock → Step (Unit {0})
  unfolding preimage fail script_code preimage_script_code equal
  check_preimage generation cell tx input prev_lock prev_sats unlock = do
    want ← or_else (preimage v tx input prev_lock prev_sats) (fail generation (some cell) covenant)
    ensure (equal want unlock.preimage) (do
      want_code ←
          or_else (script_code v.artifact v.compiled prev_lock)
            (fail generation (some cell) covenant)
      got_code ←
          or_else (preimage_script_code unlock.preimage) (fail generation (some cell) covenant)
      ensure (equal want_code got_code) (fail generation (some cell) covenant)
      fail generation (some cell) covenant)

  unfoldable pub audit_genesis_cell : ℕ → ℕ → Row → CellTx → Step (Unit {0})
  unfolding fetched pass fail decode equal bump_transactions
  audit_genesis_cell number cell row rec = do
    tx ← fetched v 0 cell identity rec.txid
    pass identity
    out ← or_else (get_elem? tx.outputs cell) (fail 0 (some cell) binding)
    lock ← lift (v.locking_bytes out)
    b ← or_else (decode v.artifact v.compiled lock) (fail 0 (some cell) binding)
    ensure (b.cell == cell) (fail 0 (some cell) binding)
    ensure (equal b.row row) (fail 0 (some cell) binding)
    pass binding
    bump_transactions

  -- What the covenant read against the record: the three bits, then the whole row.
  unfoldable pub check_neighbourhood : ℕ → ℕ → Row → Row → Step (Bool × Bool × Bool)
  unfolding get left_index right_index equal pass fail
  check_neighbourhood generation cell read recorded = do
    l ← lift (get read (left_index v.compiled.cells cell))
    c ← lift (get read cell)
    r ← lift (get read (right_index v.compiled.cells cell))
    l' ← lift (get recorded (left_index v.compiled.cells cell))
    c' ← lift (get recorded cell)
    r' ← lift (get recorded (right_index v.compiled.cells cell))
    ensure (if same_bit l l' then (if same_bit c c' then same_bit r r' else false) else false)
        (fail generation (some cell) neighbourhood)
    pass neighbourhood
    ensure (equal read recorded) (fail generation (some cell) carried_row)
    pass carried_row
    pure (l, c, r)

  -- The continuation: whose it is, that it is the row presented, and that its bit is the recorded one.
  unfoldable pub check_successor : ℕ → ℕ → Tx → Row → Row → Step Bool
  unfolding decode get equal pass fail
  check_successor generation cell tx presented recorded = do
    out ← or_else (get_elem? tx.outputs 0) (fail generation (some cell) successor)
    lock ← lift (v.locking_bytes out)
    next ← or_else (decode v.artifact v.compiled lock) (fail generation (some cell) successor)
    ensure (next.cell == cell) (fail generation (some cell) successor)
    ensure (equal next.row presented) (fail generation (some cell) successor)
    bit ← lift (get next.row cell)
    bit' ← lift (get recorded cell)
    ensure (same_bit bit bit') (fail generation (some cell) successor)
    pass successor
    pure bit

  -- `auditCell` from the transactions on: which output was spent, and what binds the spend to it.
  unfoldable pub check_spend : ℕ → ℕ → Tx → Tx → String → ℕ → Step (Row × Unlock)
  unfolding find_input decode decode_unlocking check_preimage pass fail
  check_spend generation cell tx parent_tx parent_txid vout = do
    input ← or_else (find_input parent_txid vout 0 tx.inputs) (fail generation (some cell) linkage)
    out ← or_else (get_elem? parent_tx.outputs vout) (fail generation (some cell) linkage)
    pass linkage
    lock ← lift (v.locking_bytes out)
    b ← or_else (decode v.artifact v.compiled lock) (fail generation (some cell) binding)
    ensure (b.cell == cell) (fail generation (some cell) binding)
    pass binding
    unlocking ← lift (v.unlocking_bytes tx input)
    unlock ←
        or_else (decode_unlocking v.script v.compiled unlocking)
          (fail generation (some cell) covenant)
    check_preimage generation cell tx input lock out.satoshis unlock
    pass covenant
    pure (b.row, unlock)

  unfoldable pub audit_cell : Recorded → Recorded → ℕ → CellTx → Step (Unit {0})
  unfolding named_parent output_index fetched check_spend check_neighbourhood check_successor pass
      fail gap bump_transactions next
  audit_cell cur prev cell rec = do
    parent ← or_else (named_parent (prev.cell_tx cell)) (gap cur.number (some cell) no_outpoint)
    tx ← fetched v cur.number cell identity rec.txid
    pass identity
    parent_tx ← fetched v cur.number cell identity parent.txid
    spend ← check_spend cur.number cell tx parent_tx parent.txid (output_index prev cell)
    bits ← check_neighbourhood cur.number cell spend.0 prev.row
    bit ← check_successor cur.number cell tx spend.1.next_row cur.row
    ensure (next v.compiled.rule (to_bit bits.0) (to_bit bits.1) (to_bit bits.2) == to_bit bit)
        (fail cur.number (some cell) rule_check)
    pass rule_check
    bump_transactions

  -- A generation with no predecessor is not audited; to read one is a panic.
  unfoldable pub audit_later : Recorded → Option Recorded → ℕ → CellTx → Step (Unit {0})
  unfolding audit_cell
  audit_later cur none cell rec = lift none
  audit_later cur (some prev) cell rec = audit_cell cur prev cell rec

  -- One turn of the loop over the cells.
  unfoldable pub audit_record : Recorded → Option Recorded → ℕ → Option CellTx → Step (Unit {0})
  unfolding gap audit_genesis_cell audit_later
  audit_record cur prev cell none = gap cur.number (some cell) not_recorded
  audit_record cur prev cell (some rec) =
      if is_empty rec.txid
      then gap cur.number (some cell) no_txid
      else if is_failed rec.status
      then gap cur.number (some cell) refused_there
      else if cur.number == 0
      then audit_genesis_cell cur.number cell cur.row rec
      else audit_later cur prev cell rec
