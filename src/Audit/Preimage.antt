-- ===== src/Audit/Preimage.antt =====
-- internal/audit/audit.go: the script that a sighash preimage commits to.
use rule_110_arcade.Base.{
  ℕ, suc, ◌+◌, not, Option, none, some, ◌>>=◌, [], ◌∷◌, length, take, drop, ltb, leb, ◌==◌,
  if◌then◌else◌,
}
use rule_110_arcade.Chain.{Bytes}
use rule_110_arcade.Cellscript.Unlocking.{number_loop}

-- The cases of `varInt` where the first byte says how many follow; the value is what they write,
-- the lowest first, with the number of bytes read. `none` is the answer of 0 bytes.
unfoldable pub long_int : ℕ → Bytes → Option (ℕ × ℕ)
unfolding number_loop
long_int size bs =
    if ltb (length bs) size then none else some (number_loop (take size bs), suc size)

unfoldable pub var_int : Bytes → Option (ℕ × ℕ)
unfolding long_int
var_int [] = none
var_int (b ∷ bs) =
    if ltb b 0xfd
    then some (b, 1)
    else if b == 0xfd
    then long_int 2 bs
    else if b == 0xfe
    then long_int 4 bs
    else if b == 0xff
    then long_int 8 bs
    else none

-- 4 + 32 + 32 + 36
abbrev pub script_code_offset : ℕ
script_code_offset = 104

-- 8 + 4 + 32 + 4 + 4
abbrev pub trailer : ℕ
trailer = 52

unfoldable pub preimage_script_code : Bytes → Option Bytes
unfolding var_int
preimage_script_code preimage =
    if leb (length preimage) (script_code_offset + trailer) then none else (do
      (n, size) ← var_int (drop script_code_offset preimage)
      let start = script_code_offset + size
      if ltb (length preimage) n
          then none
          else if not (start + n + trailer == length preimage)
          then none
          else some (take n (drop start preimage)))
