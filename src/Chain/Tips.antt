-- ===== src/Chain/Tips.antt =====
-- internal/chain/tips.go: a cell's position is read out of the transaction that created it, and checked.
-- `none` is an error.
use rule_110_arcade.Base.{
  ℕ, suc, ◌+◌, ◌%◌, Bool, false, not, Option, none, some, ◌>>=◌, List, [], ◌∷◌, String, any, ◌==◌,
  if◌then◌else◌, u64, get_elem?, str_eq,
}
use rule_110_arcade.Ca.{Row, Rule, hex, equal, step as next_row}
use rule_110_arcade.Cellscript.{Compiled}
use rule_110_arcade.Chain.{CellChain, Bytes, Input, Output, Tx, Sdk, tip_row, locking_script}

unfoldable pub parse_tip : Sdk → String → Bytes → Option Tx
parse_tip k txid [] = none
parse_tip k txid (b ∷ raw) = do
  tx ← k.parse (b ∷ raw)
  if str_eq (k.tx_id tx) txid then some tx else none

-- bytes.Equal on a script that may be nil
unfoldable pub locks : Bytes → Output → Bool
locks want out = elim out.locking_script [ none ↦ false | some s ↦ equal s want ]

-- The search of `DeriveTip` from output `i` on; `found` is -1 as `none`, and two matches are an error.
unfoldable pub find_output : Bytes → ℕ → List Output → Option ℕ → Option (Option ℕ)
unfolding locks
find_output want i [] found = some found
find_output want i (out ∷ outs) found =
    let skip = find_output want (suc i) outs found in
    let take = find_output want (suc i) outs (some i) in
    if not (locks want out) then skip else elim found [ none ↦ take | some _ ↦ none ]

abbrev pub u32 : ℕ → ℕ
u32 n = n % 4294967296

unfoldable pub derive_tip : Sdk → Compiled → ℕ → ℕ → Row → String → Bytes → Option CellChain
unfolding parse_tip locking_script find_output
derive_tip k c cell gen row txid raw = do
  tx ← parse_tip k txid raw
  want ← locking_script k c cell row
  match ← find_output want 0 tx.outputs none
  found ← match
  out ← get_elem? tx.outputs found
  let want_vout = if gen == 0 then u32 cell else 0
  if not (u32 found == want_vout)
      then none
      else some (record {
        cell = cell;
        txid = txid;
        vout = want_vout;
        satoshis = out.satoshis;
        generation = gen;
        row_hex = hex row;
        raw_tx_hex = hex raw;
      })

unfoldable pub spends : CellChain → Input → Bool
spends tip i = elim i.source_txid [
  | none ↦ false
  | some t ↦ if str_eq t tip.txid then i.source_index == tip.vout else false
]

-- The checks of `VerifySuccessor` on the first of exactly two outputs.
unfoldable pub continue_with :
    CellChain → String → Bytes → Row → Bytes → List Output → Option CellChain
unfolding locks
continue_with tip txid raw next want (cont ∷ change ∷ []) =
    if not (locks want cont)
    then none
    else if not (cont.satoshis == tip.satoshis)
    then none
    else some (record {
      cell = tip.cell;
      txid = txid;
      vout = 0;
      satoshis = cont.satoshis;
      generation = u64 (tip.generation + 1);
      row_hex = hex next;
      raw_tx_hex = hex raw;
    })
continue_with tip txid raw next want outs = none

unfoldable pub verify_successor :
    Sdk → Compiled → CellChain → ℕ → Rule → String → Bytes → Option CellChain
unfolding parse_tip tip_row locking_script spends continue_with
verify_successor k c tip cells rule txid raw = do
  tx ← parse_tip k txid raw
  if not (any (spends tip) tx.inputs) then none else (do
    row ← tip_row tip cells
    next ← next_row rule row
    want ← locking_script k c tip.cell next
    continue_with tip txid raw next want tx.outputs)
