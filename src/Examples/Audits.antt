-- ===== src/Examples/Audits.antt =====
-- An audit of two generations of a ring of eight cells.
use rule_110_arcade.Base.{
  ℕ, suc, ◌-◌, ◌^◌, ◌≡◌, refl, arith, Option, none, some, List, [], ◌∷◌, ◌++◌, String, codes, map,
  if◌then◌else◌, ◌==◌, str_eq, test_bit, set_bit, replicate,
}
use rule_110_arcade.Ca.{Row}
use rule_110_arcade.Chain.{Bytes, Input, Output, Tx}
use rule_110_arcade.Chain.Walk.{later_row}
use rule_110_arcade.Cellscript.Unlocking.{ScriptChunk, decode_unlocking}
use rule_110_arcade.Cellscript.Decode.{decode}
use rule_110_arcade.History.{Store, mined}
use rule_110_arcade.Audit.Evidence.{IsClean, AuditedAt}
use rule_110_arcade.Audit.{Report, Options, ◌>>=◌}
use rule_110_arcade.Audit.Fetch.{World, Recorded, load}
use rule_110_arcade.Audit.Run.{run}
use rule_110_arcade.Audit.Preimage.{preimage_script_code}
use rule_110_arcade.Audit.ScriptCode.{put_var_int, preimage_script_code-layout}
use rule_110_arcade.Audit.Sound.{run-AuditedAt, run-later_row}
use rule_110_arcade.Audit.Exact.{run-IsClean}
use rule_110_arcade.Audit.Recorded.{HasRecord, run-HasRecord}
use rule_110_arcade.Examples.Recoveries.{ring}
use rule_110_arcade.Examples.Scripts.{artifact}
use rule_110_arcade.Examples.Storage.{store, row_of}

abbrev ring_cells : List ℕ
ring_cells = 0 ∷ 1 ∷ 2 ∷ 3 ∷ 4 ∷ 5 ∷ 6 ∷ 7 ∷ []

abbrev output_of : ℕ → ℕ → Output
output_of row i = record { locking_script = some ((2 ^ i) ∷ 106 ∷ 1 ∷ row ∷ []); satoshis = 5 }

abbrev genesis_tx : Tx
genesis_tx = record { inputs = []; outputs = map (output_of 19) ring_cells }

abbrev transition_tx : ℕ → Tx
transition_tx i = record {
  inputs = record { source_txid = some "g"; source_index = i } ∷ [];
  outputs = output_of 55 i ∷ [];
}

abbrev tx_names : List String
tx_names = "t0" ∷ "t1" ∷ "t2" ∷ "t3" ∷ "t4" ∷ "t5" ∷ "t6" ∷ "t7" ∷ []

abbrev name_at : ℕ → List String → String
name_at i [] = ""
name_at i (t ∷ ts) = if i == 0 then t else name_at (i - 1) ts

abbrev place_of : String → ℕ → List String → Option Bytes
place_of id i [] = none
place_of id i (t ∷ ts) = if str_eq t id then some (i ∷ []) else place_of id (suc i) ts

abbrev id_of : List Input → String
id_of [] = "g"
id_of (x ∷ xs) = name_at x.source_index tx_names

abbrev parse_raw : Bytes → Option Tx
parse_raw [] = none
parse_raw (b ∷ bs) = if b == 100 then some genesis_tx else some (transition_tx b)

abbrev chunk : Bytes → ScriptChunk
chunk b = record { op = 2; data_bytes = b }

abbrev world : World
world = record {
  compiled = ring;
  artifact = artifact;
  script = record {
    chunks = λ b. some (
        chunk []
        ∷ chunk (55 ∷ [])
        ∷ chunk []
        ∷ chunk (1 ∷ [])
        ∷ chunk (5 ∷ [])
        ∷ chunk (7 ∷ [])
        ∷ []);
    op_0 = 0;
    op_1negate = 79;
    op_1 = 81;
    op_16 = 96;
  };
  sdk = record { parse = parse_raw; tx_id = λ tx. id_of tx.inputs; build = λ args. none };
  raw_tx = λ id. if str_eq id "g" then some (100 ∷ []) else place_of id 0 tx_names;
  locking_bytes = λ out. out.locking_script;
  unlocking_bytes = λ tx i. some [];
  compute_op_push_tx = λ tx i lock sats offset. some (7 ∷ []);
}

abbrev history : Store
history = record store {
  generations =
      record { number = 1; row_hex = codes "37" }
      ∷ record { number = 0; row_hex = codes "13" }
      ∷ [];
  cell_txs =
      map (λ i. row_of 0 i "g" mined) ring_cells
      ++ map (λ i. row_of 1 i (name_at i tx_names) mined) ring_cells;
}

abbrev options : Options
options = record { from = 0; to = 1; seed = some (19 ∷ []); max_failures = 3 }

audited : (rep : Report) × (run world history options ≡ some rep) × IsClean rep
unfolding run ◌>>=◌ decode decode_unlocking test_bit set_bit
audited = (_, refl, (refl, refl))

run-AuditedAt_example : AuditedAt world history options 1
run-AuditedAt_example =
    run-AuditedAt world history options audited.0 1 audited.1 audited.2 (omega arith) (omega arith)

run-later_row_example :
    (seed : Row) × (cur : Recorded) × (some (19 ∷ []) ≡ some seed)
    × (load world history 1 ≡ some (some cur))
    × (later_row ring.rule 1 seed ≡ some cur.row)
run-later_row_example =
    run-later_row world history options audited.0 1 audited.1 audited.2 refl (omega arith)

run-IsClean_example : (rep : Report) × (run world history options ≡ some rep) × IsClean rep
run-IsClean_example =
    run-IsClean world history options (omega arith) (omega arith)
      (λ j h l. run-AuditedAt world history options audited.0 j audited.1 audited.2 h l)

run-HasRecord_example : HasRecord world history options 1 7
run-HasRecord_example =
    run-HasRecord world history options audited.0 1 7 audited.1 audited.2 (omega arith)
      (omega arith) (omega arith)

abbrev zeros : ℕ → Bytes
zeros n = replicate n 0

preimage_script_code-layout_example :
    preimage_script_code (zeros 104 ++ (put_var_int 3 ++ ((1 ∷ 2 ∷ 3 ∷ []) ++ zeros 52)))
    ≡ some (1 ∷ 2 ∷ 3 ∷ [])
preimage_script_code-layout_example =
    preimage_script_code-layout (zeros 104) (1 ∷ 2 ∷ 3 ∷ []) (zeros 52) refl refl (omega arith)
