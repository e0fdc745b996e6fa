-- ===== src/Chain/Refusal.antt =====
-- internal/chain/recover.go: what to do with a cell that a refusal or a failure halted. A verdict's
-- reason is left out.
use rule_110_arcade.Base.{
  ℕ, ◌+◌, Bool, true, false, not, ◌&&◌, Option, none, some, List, [], ◌∷◌, String, any, leb, ◌==◌,
  if◌then◌else◌, u64, is_empty, codes,
}
use rule_110_arcade.Chain.{CellChain, Bytes, Input, Tx, Sdk, Ledger}
use rule_110_arcade.Chain.Tips.{parse_tip, spends}
use rule_110_arcade.Chain.Recover.{Recovery, halt, resume}

-- strings.HasPrefix and strings.Contains on bytes
unfoldable pub has_prefix : Bytes → Bytes → Bool
has_prefix s [] = true
has_prefix [] (p ∷ ps) = false
has_prefix (b ∷ s) (p ∷ ps) = let rest = has_prefix s ps in if b == p then rest else false

unfoldable pub contains : Bytes → Bytes → Bool
unfolding has_prefix
contains [] t = has_prefix [] t
contains (b ∷ s) t = let rest = contains s t in if has_prefix (b ∷ s) t then true else rest

-- strings.ToLower on ASCII; no other letter becomes one of the marker's
unfoldable pub to_lower : Bytes → Bytes
to_lower [] = []
to_lower (b ∷ s) = (if leb b'A' b && leb b b'Z' then b + 32 else b) ∷ to_lower s

abbrev pub utxo_spent_marker : Bytes
utxo_spent_marker = codes "utxo_spent"

abbrev pub not_broadcast_prefix : Bytes
not_broadcast_prefix = codes "chain: not broadcast: "

unfoldable pub is_utxo_spent : Bytes → Bool
unfolding contains to_lower
is_utxo_spent rejection = contains (to_lower rejection) utxo_spent_marker

unfoldable pub is_not_broadcast : Bytes → Bool
unfolding has_prefix
is_not_broadcast recorded = has_prefix recorded not_broadcast_prefix

-- The loop of `RecoverStaleRejection` over the inputs: none of them lacks a source or spends the tip.
unfoldable pub all_elsewhere : CellChain → List Input → Bool
unfolding spends
all_elsewhere tip [] = true
all_elsewhere tip (i ∷ inputs) =
    let rest = all_elsewhere tip inputs in
    elim i.source_txid [ none ↦ false | some _ ↦ if spends tip i then false else rest ]

unfoldable pub judge_stale : CellChain → List Input → Recovery
unfolding all_elsewhere
judge_stale tip [] = halt []
judge_stale tip (i ∷ inputs) = if all_elsewhere tip (i ∷ inputs) then resume tip else halt []

unfoldable pub judge_retry : CellChain → List Input → Recovery
unfolding spends
judge_retry tip inputs = if any (spends tip) inputs then resume tip else halt []

-- The refused transaction, as the ledger gives it.
unfoldable pub refused_tx : Sdk → Ledger → String → Option Tx
unfolding parse_tip
refused_tx k l txid = elim (l.raw_tx txid) [ none ↦ none | some raw ↦ parse_tip k txid raw ]

unfoldable pub recover_stale_rejection : Sdk → Ledger → CellChain → ℕ → String → Recovery
unfolding judge_stale refused_tx
recover_stale_rejection k l tip rejected txid =
    if leb rejected tip.generation
    then halt []
    else if is_empty txid
    then halt []
    else elim (refused_tx k l txid) [ none ↦ halt [] | some tx ↦ judge_stale tip tx.inputs ]

unfoldable pub retry_refusal : Sdk → Ledger → CellChain → ℕ → String → Bytes → Recovery
unfolding judge_retry refused_tx is_utxo_spent
retry_refusal k l tip rejected txid rejection =
    if not (rejected == u64 (tip.generation + 1))
    then halt []
    else if is_utxo_spent rejection
    then halt []
    else if is_empty txid
    then halt []
    else elim (refused_tx k l txid) [ none ↦ halt [] | some tx ↦ judge_retry tip tx.inputs ]

unfoldable pub recover_not_broadcast : CellChain → ℕ → String → Bytes → Recovery
unfolding is_not_broadcast
recover_not_broadcast tip failed txid recorded =
    if leb failed tip.generation
    then halt []
    else if not (is_not_broadcast recorded)
    then halt []
    else if not (is_empty txid)
    then halt []
    else resume tip
