-- ===== src/Examples/Transitions.antt =====
-- One cell's transition, the repair after its refusal, a refusal that names a lost transaction, and
-- a derived tip.
use rule_110_arcade.Base.{
  ◌≡◌, ◌↔◌, ◌⊎◌, refl, get_elem?, test_bit, set_bit, List, arith, All, true, false, Option, none,
  some, [], ◌∷◌, ◌++◌, String, codes,
}
use rule_110_arcade.Base.Sort.{sort_desc}
use rule_110_arcade.Ca.{Row, rule110, cells, equal, hex, seed_hex, decode_hex, step}
use rule_110_arcade.Cellscript.{ctor_args}
use rule_110_arcade.Chain.Tips.{parse_tip, spends, derive_tip}
use rule_110_arcade.Chain.{CellChain, no_chain, Bytes, Sdk, Ledger}
use rule_110_arcade.Chain.Oracle.{ArcadeStatus, mined, is_accepted}
use rule_110_arcade.Chain.SpentTip.{spent_by, hex_string, recover_spent_tip}
use rule_110_arcade.Chain.SpentTip.Named.{IsNamedBy, spent_by_lem}
use rule_110_arcade.Chain.SpentTip.Adopted.{adopt, IsLost, recover_spent_tip_lem}
use rule_110_arcade.History.{Store, seen, cell_at}
use rule_110_arcade.Engine.Rows.{Deployment, CellPosition, derive_tips, check_migration_floor}
use rule_110_arcade.Engine.Rows.Derived.{IsDerived, derive_tips-IsDerived}
use rule_110_arcade.Engine.Derive.{zero_position}
use rule_110_arcade.Engine.Rows.Floor.{IsExplained, check_migration_floor_lem}
use rule_110_arcade.Engine.Repair.{RecoverOptions, released}
use rule_110_arcade.Engine.Repair.Passes.{recover, repair_cell}
use rule_110_arcade.Engine.Repair.Recovered.{decide_all, recover-dry}
use rule_110_arcade.Engine.Repair.Outcome.{IsRepaired, repair_cell-IsRepaired}
use rule_110_arcade.Engine.Runtime.{Runtime}
use rule_110_arcade.Engine.Advance.{
  StepResult, StepOutcome, advanced, stopped, Answers, advance_cell,
}
use rule_110_arcade.Engine.Advance.Outcome.{advance_cell-cell_at, advance_cell-unrecorded}
use rule_110_arcade.Examples.Turns.{tip_at}
use rule_110_arcade.Examples.Storage.{store, store-IsKeyed, row_of}
use rule_110_arcade.Examples.Recoveries.{sdk, ledger, ring, tip, next}
use rule_110_arcade.Examples.Events.{runtime}

-- The transaction is refused before anything is signed, and the database's first answer is an error.
abbrev unsigned : CellChain → StepOutcome
unsigned t = stopped (record { not_broadcast = true; text = "too many clients" })

abbrev answers : Answers
answers = record { before = false ∷ true ∷ []; after = true ∷ []; deleted = true; recorded = true }

abbrev unreachable : Answers
unreachable = record answers { before = false ∷ false ∷ false ∷ true ∷ [] }

abbrev ended : Option (Runtime × Store)
ended = advance_cell unsigned runtime store 2 1 7 false answers

ended-some : (e : Runtime) × (s : Store) × (ended ≡ some (e, s))
unfolding advance_cell
ended-some = (_, _, refl)

never : (res : StepResult) → unsigned (tip_at 1 12) ≡ advanced res → res.generation ≡ 13
never res e = cc e

advance_cell-cell_at_example : cell_at (ended-some.1) 13 1 ≡ none
unfolding ended-some
advance_cell-cell_at_example =
    advance_cell-cell_at unsigned runtime ended-some.0 store ended-some.1 2 1 7 false answers
      (tip_at 1 12) store-IsKeyed refl never refl refl refl ended-some.2

advance_cell-unrecorded_example :
    (e' : Runtime) × (e'.engine.halted 1 ≡ true)
    × ((advance : CellChain → StepOutcome)
        → advance_cell advance runtime store 2 1 7 false unreachable ≡ some (e', store))
advance_cell-unrecorded_example =
    advance_cell-unrecorded runtime store 2 1 7 false unreachable (tip_at 1 12) refl refl

abbrev deployment : Deployment
deployment = record { cells = 8; rule = rule110; genesis_txid = "c5"; seed = codes "01" }

repair_cell-IsRepaired_example :
    IsRepaired sdk ledger ring deployment none 1
      (repair_cell sdk ledger ring deployment none runtime store 1 7)
repair_cell-IsRepaired_example =
    repair_cell-IsRepaired sdk ledger ring deployment none runtime store 1 7 (omega arith)

-- A cell of which the refused transaction spends something else, and one with nothing to decide.
abbrev refused : CellPosition
refused = record {
  tip = tip;
  position = record zero_position {
    halted = true;
    rejected = true;
    rejected_at = 5;
    rejection_err = "no";
    rejection_txid = "x5";
  };
}

abbrev asked : RecoverOptions
asked = record { apply = true; retry_refused = false }

abbrev dry : RecoverOptions
dry = record { apply = false; retry_refused = true }

recover-dry_example :
    recover sdk ledger ring deployment none store 7 dry (refused ∷ [])
    ≡ some
        (store, refused ∷ [], decide_all sdk ledger ring deployment none store dry 0 (refused ∷ []))
recover-dry_example = recover-dry sdk ledger ring deployment none store 7 dry (refused ∷ []) refl

-- A tip that the derivation falls short of, which nobody refused.
abbrev recorded_tip : CellChain
recorded_tip = record tip { cell = 0; generation = 9; txid = "c9" }

check_migration_floor_lem_example :
    (check_migration_floor store none (released tip ∷ []) (recorded_tip ∷ []) ≡ true)
    ↔ All (IsExplained store none (released tip ∷ [])) (recorded_tip ∷ [])
check_migration_floor_lem_example =
    check_migration_floor_lem store none (released tip ∷ []) (recorded_tip ∷ [])

-- The refusal names a transaction of sixty-four hex digits, which the ledger has and no record names.
abbrev lost_id : String
lost_id = "c5c5c5c5c5c5c5c5c5c5c5c5c5c5c5c5c5c5c5c5c5c5c5c5c5c5c5c5c5c5c5c5"

abbrev rejection : Bytes
rejection =
    codes "arcade: REJECTED: UTXO_SPENT (70): ab:0 utxo already spent by tx "
    ++ (codes lost_id ++ codes "[0]")

abbrev named_sdk : Sdk
named_sdk = record sdk { tx_id = λ tx. lost_id }

abbrev holding : Ledger
holding = record ledger { raw_tx = λ id. some (1 ∷ []) }

abbrev lost : CellChain
lost = record next { txid = lost_id }

named-lost : spent_by rejection ≡ some (codes lost_id)
unfolding spent_by
named-lost = refl

spent_by_lem_example :
    (spent_by rejection ≡ some (codes lost_id)) ↔ IsNamedBy rejection (codes lost_id)
spent_by_lem_example = spent_by_lem rejection (codes lost_id)

abbrev oracle : Option (String → Option ArcadeStatus)
oracle = some (λ id. some mined)

recover_spent_tip_lem_example :
    (recover_spent_tip named_sdk holding ring (λ id. some false) oracle tip rejection (0x37 ∷ [])
      ≡ adopt lost)
    ↔ IsLost named_sdk holding ring (λ id. some false) oracle tip rejection (0x37 ∷ []) lost
recover_spent_tip_lem_example =
    recover_spent_tip_lem named_sdk holding ring (λ id. some false) oracle tip rejection (0x37 ∷ [])
      lost

lost_adopted :
    recover_spent_tip named_sdk holding ring (λ id. some false) oracle tip rejection (0x37 ∷ [])
    ≡ adopt lost
unfolding recover_spent_tip spent_by parse_tip hex_string spends derive_tip ctor_args cells equal
    hex is_accepted
lost_adopted = refl

-- Cell 3 has one transition that the network saw, from the seed to the row above it.
abbrev grown : Deployment
grown = record { cells = 8; rule = rule110; genesis_txid = ""; seed = codes "13" }

abbrev seen_once : Store
seen_once = record store {
  generations = record { number = 1; row_hex = codes "37" } ∷ [];
  cell_txs = row_of 1 3 "c5" seen ∷ [];
}

abbrev derived_tip : CellChain
derived_tip = record next { generation = 1 }

derived_cell :
    (ps : List CellPosition) × (p : CellPosition) × (derive_tips sdk ledger ring grown seen_once
      ≡ some ps)
    × (get_elem? ps 3 ≡ some p)
    × (p.tip ≡ derived_tip)
unfolding derive_tips seed_hex decode_hex step derive_tip ctor_args equal hex sort_desc test_bit
    set_bit
derived_cell = (_, _, refl, refl, refl)

derive_tips-IsDerived_example :
    (derived_cell.1.tip ≡ no_chain)
    ⊎ ((seed : Row) × (seed_hex 8 (codes "13") ≡ some seed)
        × IsDerived sdk ledger ring grown seen_once seed 3 derived_cell.1.tip)
derive_tips-IsDerived_example =
    derive_tips-IsDerived sdk ledger ring grown seen_once derived_cell.0 3 derived_cell.1
      derived_cell.2 derived_cell.3
