-- ===== src/Audit/Fetch.antt =====
-- internal/audit/audit.go: what an audit reads, the transactions it fetches and the generations it
-- loads.
use rule_110_arcade.Base.{
  ℕ, not, Option, none, some, List, [], ◌∷◌, String, ltb, ◌==◌, if◌then◌else◌, put, str_eq,
}
use rule_110_arcade.Ca.{Row, seed_hex}
use rule_110_arcade.Cellscript.{Compiled}
use rule_110_arcade.Cellscript.Unlocking.{Script}
use rule_110_arcade.Cellscript.Decode.{Artifact}
use rule_110_arcade.Chain.{Bytes, Tx, Output, Sdk}
use rule_110_arcade.History.{Store, CellTx}
use rule_110_arcade.History.Load.{Loaded}
use rule_110_arcade.History.Load as history
use rule_110_arcade.Audit.{Check, no_bytes, Auditor, Step, pure, fail, gap}

-- `TxSource`, the compiled contract, and what go-sdk and runar give: the bytes of an output's
-- script and of an input's unlocking script, and the preimage of a spend. `none` is an error, and
-- for the scripts a panic.
pub record World : Type 0 where
  pub compiled : Compiled
  pub artifact : Artifact
  pub script : Script
  pub sdk : Sdk
  pub raw_tx : String → Option Bytes
  pub locking_bytes : Output → Option Bytes
  pub unlocking_bytes : Tx → ℕ → Option Bytes
  pub compute_op_push_tx : Tx → ℕ → Bytes → ℕ → ℕ → Option Bytes

-- `generation`; the map from cells to records is a function.
pub record Recorded : Type 0 where
  pub number : ℕ
  pub row : Row
  pub cell_tx : ℕ → Option CellTx

unfoldable pub lookup_tx : String → List (String × Tx) → Option Tx
lookup_tx txid [] = none
lookup_tx txid ((id, tx) ∷ txs) = if str_eq id txid then some tx else lookup_tx txid txs

pub data Fetched : Type 0 where
  got : Tx → Fetched
  missing : Fetched
  wrong : Fetched

unfoldable pub store_tx : String → Tx → Auditor → Auditor
store_tx txid tx a = record a { txs = (txid, tx) ∷ a.txs }

unfoldable pub matching_tx : World → String → Option Tx → Fetched
matching_tx v txid none = wrong
matching_tx v txid (some tx) = if str_eq (v.sdk.tx_id tx) txid then got tx else wrong

-- The bytes that the source offers, if they are the transaction that was asked for.
unfoldable pub proved_tx : World → String → Option Bytes → Fetched
unfolding matching_tx
proved_tx v txid none = missing
proved_tx v txid (some []) = missing
proved_tx v txid (some (b ∷ raw)) = matching_tx v txid (v.sdk.parse (b ∷ raw))

unfoldable pub keep_fetched : String → Fetched → Auditor → Fetched × Auditor
unfolding store_tx
keep_fetched txid (got tx) a = (got tx, store_tx txid tx a)
keep_fetched txid missing a = (missing, a)
keep_fetched txid wrong a = (wrong, a)

unfoldable pub fetch_uncached : World → String → Option Tx → Auditor → Fetched × Auditor
unfolding keep_fetched proved_tx
fetch_uncached v txid (some tx) a = keep_fetched txid (got tx) a
fetch_uncached v txid none a = keep_fetched txid (proved_tx v txid (v.raw_tx txid)) a

unfoldable pub fetch_from : World → String → Option Tx → Auditor → Fetched × Auditor
unfolding fetch_uncached lookup_tx
fetch_from v txid (some tx) a = (got tx, a)
fetch_from v txid none a = fetch_uncached v txid (lookup_tx txid a.prev) a

-- `auditor.tx`
unfoldable pub fetch : World → String → Auditor → Fetched × Auditor
unfolding fetch_from lookup_tx
fetch v txid a = fetch_from v txid (lookup_tx txid a.txs) a

-- `auditor.report` on what a fetch gave, with the return that follows it.
unfoldable pub report : ℕ → ℕ → Check → Fetched → Step Tx
unfolding fail gap
report generation cell check (got tx) = pure tx
report generation cell check missing = gap generation (some cell) no_bytes
report generation cell check wrong = fail generation (some cell) check

unfoldable pub fetched : World → ℕ → ℕ → Check → String → Step Tx
unfolding fetch report
fetched v generation cell check txid a =
    let (f, a') = fetch v txid a in report generation cell check f a'

-- The loop that fills the map, which keeps the cells of the ring.
unfoldable pub cell_map : ℕ → List CellTx → (ℕ → Option CellTx) → ℕ → Option CellTx
cell_map cells [] m = m
cell_map cells (t ∷ txs) m =
    cell_map cells txs (if ltb t.cell cells then put m t.cell (some t) else m)

unfoldable pub recorded_of : World → ℕ → List Loaded → Option (Option Recorded)
unfolding cell_map seed_hex
recorded_of v number [] = some none
recorded_of v number (g ∷ gens) =
    if not (g.number == number) then some none else elim (seed_hex v.compiled.cells g.row_hex) [
      | none ↦ none
      | some row ↦ some (
          some (record {
            number = number;
            row = row;
            cell_tx = cell_map v.compiled.cells g.txs (λ cell. none);
          }))
    ]

-- `auditor.load` on a store that answers: an inner `none` is a generation that was never recorded.
unfoldable pub load : World → Store → ℕ → Option (Option Recorded)
unfolding recorded_of history.load
load v s number = recorded_of v number (history.load s number 1)
