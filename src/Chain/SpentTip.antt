-- ===== src/Chain/SpentTip.antt =====
-- internal/chain/recover.go: a refusal that names the transaction which spent the tip. A text is its
-- bytes, and a verdict's reason is left out.
pub mod Ids
pub mod Named
pub mod Adopted
use Prim.Native.Char.{Char, code}
use rule_110_arcade.Base.{
  ℕ, zero, suc, ◌+◌, Bool, true, false, not, ◌&&◌, ◌||◌, Option, none, some, ◌>>=◌, List, [], ◌∷◌,
  String, any, leb, ◌==◌, if◌then◌else◌, u64, codes, length, take, drop, map, replicate,
}
use rule_110_arcade.Ca.{Row}
use rule_110_arcade.Cellscript.{Compiled}
use rule_110_arcade.Chain.{CellChain, Bytes, Sdk, Ledger}
use rule_110_arcade.Chain.Tips.{parse_tip, spends, derive_tip}
use rule_110_arcade.Chain.Recover.{Recovery, verdict_adopt, halt}
use rule_110_arcade.Chain.Refusal.{has_prefix, to_lower, is_utxo_spent}
use rule_110_arcade.Chain.Oracle.{ArcadeStatus, is_accepted}

abbrev pub spent_by_phrase : Bytes
spent_by_phrase = codes "utxo already spent by tx"

unfoldable pub is_hex_digit : ℕ → Bool
is_hex_digit c = (leb b'0' c && leb c b'9') || (leb b'a' c && leb c b'f')

-- The loop that counts the digits at the front.
unfoldable pub count_hex : Bytes → ℕ
unfolding is_hex_digit
count_hex [] = 0
count_hex (c ∷ s) = let rest = count_hex s in if is_hex_digit c then suc rest else 0

unfoldable pub equal_text : Bytes → Bytes → Bool
equal_text [] [] = true
equal_text (a ∷ s) (b ∷ t) = let rest = equal_text s t in if a == b then rest else false
equal_text _ _ = false

unfoldable pub leading_tx_id : Bytes → Option Bytes
unfolding count_hex equal_text
leading_tx_id s =
    if not (count_hex s == 64)
    then none
    else if equal_text (take 64 s) (replicate 64 b'0')
    then none
    else some (take 64 s)

-- strings.TrimLeft(s, " \t:")
unfoldable pub trim_left : Bytes → Bytes
trim_left [] = []
trim_left (c ∷ s) =
    let rest = trim_left s in if c == b' ' || (c == 9 || c == b':') then rest else c ∷ s

-- The loop of `SpentBy` on the rest of the message, one byte at a time: where the phrase begins, what
-- follows it must be a transaction id, the same one each time. Only the first byte of the phrase is a
-- `u`, which is no hex digit, so that no other occurrence begins in what the loop jumps over.
unfoldable pub spent_by_loop : Bytes → Option Bytes → Option Bytes
unfolding has_prefix trim_left leading_tx_id equal_text
spent_by_loop [] found = found
spent_by_loop (c ∷ s) found =
    let skip = spent_by_loop s found in
    if has_prefix (c ∷ s) spent_by_phrase
    then elim (leading_tx_id (trim_left (drop (length spent_by_phrase) (c ∷ s)))) [
      | none ↦ none
      | some txid ↦
          let next = spent_by_loop s (some txid) in
          elim found [ none ↦ next | some f ↦ if equal_text f txid then next else none ]
    ]
    else skip

unfoldable pub spent_by : Bytes → Option Bytes
unfolding spent_by_loop is_utxo_spent to_lower
spent_by rejection =
    if not (is_utxo_spent rejection) then none else spent_by_loop (to_lower rejection) none

char_in : String → ℕ → Char
char_in String.[] n = "0"
char_in (String.◌∷◌ c s) n = if code c == n then c else char_in s n

-- The string of a run of hex digits.
unfoldable pub hex_string : Bytes → String
unfolding char_in
hex_string [] = ""
hex_string (b ∷ bs) = String.◌∷◌ (char_in "0123456789abcdef" b) (hex_string bs)

-- `oracle` is `none` without an arcade client, and answers `none` without a verdict; `on_record`
-- answers `none` for an error.
module _ (k : Sdk) (l : Ledger) (c : Compiled) (on_record : String → Option Bool) where
  -- The checks of `RecoverSpentTip` on the transaction that the refusal names; `none` is a halt.
  unfoldable pub spent_successor :
      Option (String → Option ArcadeStatus) → CellChain → Row → String → Option CellChain
  spent_successor oracle tip next txid = do
    mine ← on_record txid
    if mine then none else (do
      raw ← l.raw_tx txid
      tx ← parse_tip k txid raw
      if not (any (spends tip) tx.inputs) then none else (do
        adopted ← derive_tip k c tip.cell (u64 (tip.generation + 1)) next txid raw
        if not (adopted.satoshis == tip.satoshis) then none else (do
          get ← oracle
          status ← get txid
          if not (is_accepted status) then none else some adopted)))

  unfoldable pub recover_spent_tip :
      Option (String → Option ArcadeStatus) → CellChain → Bytes → Row → Recovery
  unfolding spent_successor
  recover_spent_tip oracle tip rejection next = elim (spent_by rejection) [
    | none ↦ halt []
    | some txid ↦ elim (spent_successor oracle tip next (hex_string txid)) [
      | none ↦ halt []
      | some adopted ↦ record { verdict = verdict_adopt; tip = adopted; steps = adopted ∷ [] }
    ]
  ]
