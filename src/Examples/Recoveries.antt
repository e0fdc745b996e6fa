-- ===== src/Examples/Recoveries.antt =====
-- A cell whose transition was signed and never recorded, and one whose transition was refused. The
-- parser of transactions knows two texts, and a script is the contract's row and cell.
use rule_110_arcade.Base.{
  ◌+◌, ◌<◌, ◌≡◌, refl, true, false, Option, none, some, [], ◌∷◌, length, ◌==◌, if◌then◌else◌, u64,
  str_eq, codes, test_bit, set_bit,
}
use rule_110_arcade.Ca.{Row, rule110, hex, seed_hex, decode_hex, step, equal}
use rule_110_arcade.Cellscript.{Compiled, CtorArgs, ctor_args}
use rule_110_arcade.Chain.{CellChain, Bytes, Tx, Sdk, CellAction, Ledger, tip_row}
use rule_110_arcade.Chain.Tips.{verify_successor}
use rule_110_arcade.Chain.Successor.{IsSuccessor, verify_successor_lem}
use rule_110_arcade.Chain.Recover.{verdict_adopt, Recovery, recover_cell}
use rule_110_arcade.Chain.Walk.{IsSound, later_row, recover_cell-IsSound, recover_cell-adopt}

abbrev build : CtorArgs → Option Bytes
build a = some (a.byte_c ∷ a.div_c ∷ a.row)

abbrev from_tip : Tx
from_tip = record {
  inputs = record { source_txid = some "c4"; source_index = 0 } ∷ [];
  outputs =
      record { locking_script = some (0 ∷ 8 ∷ codes "37"); satoshis = 5 }
      ∷ record { locking_script = some []; satoshis = 90 }
      ∷ [];
}

abbrev from_elsewhere : Tx
from_elsewhere = record {
  inputs = record { source_txid = some "b4"; source_index = 0 } ∷ [];
  outputs = [];
}

abbrev parse : Bytes → Option Tx
parse [] = none
parse (b ∷ raw) = if b == 1 then some from_tip else if b == 2 then some from_elsewhere else none

abbrev pub sdk : Sdk
sdk = record {
  parse = parse;
  tx_id = λ tx. if length tx.outputs == 2 then "c5" else "x5";
  build = build;
}

abbrev action : CellAction
action = record {
  txid = "c5";
  is_failed = false;
  generation = 5;
  has_generation = true;
  locking_script = [];
  satoshis = 5;
}

abbrev pub ledger : Ledger
ledger = record {
  raw_tx = λ id. if str_eq id "c5" then some (1 ∷ []) else some (2 ∷ []);
  cell_actions = λ cell n. some (action ∷ [], 1);
}

abbrev pub ring : Compiled
ring = record { cells = 8; rule = rule110 }

abbrev pub tip : CellChain
tip = record {
  cell = 3;
  txid = "c4";
  vout = 0;
  satoshis = 5;
  generation = 4;
  row_hex = codes "13";
  raw_tx_hex = [];
}

abbrev pub next : CellChain
next = record {
  cell = 3;
  txid = "c5";
  vout = 0;
  satoshis = 5;
  generation = 5;
  row_hex = codes "37";
  raw_tx_hex = codes "01";
}

next-verified : verify_successor sdk ring tip 8 rule110 "c5" (1 ∷ []) ≡ some next
unfolding verify_successor seed_hex decode_hex step test_bit ctor_args equal hex set_bit
next-verified = refl

verify_successor_lem_example : (next.txid ≡ "c5") × IsSuccessor sdk ring rule110 8 tip (1 ∷ []) next
verify_successor_lem_example =
    verify_successor_lem sdk ring tip 8 rule110 "c5" (1 ∷ []) next next-verified

recover_cell-IsSound_example :
    IsSound sdk ledger ring 8 rule110 tip 8 (recover_cell sdk ledger ring 8 rule110 tip 5 0)
recover_cell-IsSound_example = recover_cell-IsSound sdk ledger ring 8 rule110 tip 5 0

abbrev adopted : Recovery
adopted = recover_cell sdk ledger ring 8 rule110 tip 5 0

adopted-verdict : adopted.verdict ≡ verdict_adopt
unfolding recover_cell verify_successor seed_hex decode_hex step test_bit ctor_args equal hex
    set_bit
adopted-verdict = refl

recover_cell-adopt_example :
    (row : Row) × (out : Row) × (tip_row tip 8 ≡ some row)
    × (later_row rule110 (length adopted.steps) row ≡ some out)
    × (tip_row adopted.tip 8 ≡ some out)
    × (0 < length adopted.steps)
    × (u64 adopted.tip.generation ≡ u64 (4 + length adopted.steps))
    × (adopted.tip.cell ≡ 3)
    × (adopted.tip.satoshis ≡ 5)
recover_cell-adopt_example = recover_cell-adopt sdk ledger ring 8 rule110 tip 5 0 adopted-verdict
