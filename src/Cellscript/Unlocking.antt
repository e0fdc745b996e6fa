-- ===== src/Cellscript/Unlocking.antt =====
-- internal/cellscript/cellscript.go: the arguments that a cell's unlocking script pushes.
use rule_110_arcade.Base.{
  ℕ, ◌+◌, ◌-◌, ◌*◌, ◌/◌, ◌%◌, not, false, Option, none, some, ◌>>=◌, List, [], ◌∷◌, length, ltb,
  leb, ◌==◌, if◌then◌else◌, u64,
}
use rule_110_arcade.Ca.{Row}
use rule_110_arcade.Cellscript.{Compiled}
use rule_110_arcade.Chain.{Bytes}

-- A chunk of go-sdk's script parser, with the opcodes it names.
pub record ScriptChunk : Type 0 where
  pub op : ℕ
  pub data_bytes : Bytes

pub record Script : Type 0 where
  pub chunks : Bytes → Option (List ScriptChunk)
  pub op_0 : ℕ
  pub op_1negate : ℕ
  pub op_1 : ℕ
  pub op_16 : ℕ

pub record Unlock : Type 0 where
  pub code_part : Bytes
  pub next_row : Row
  pub change_pkh : Bytes
  pub change_amount : ℕ
  pub new_amount : ℕ
  pub preimage : Bytes

-- The difference of two opcodes does not wrap where it is taken, and the sum is one byte.
unfoldable pub pushed_bytes : Script → ScriptChunk → Bytes
pushed_bytes o chunk =
    if chunk.op == o.op_0
    then []
    else if chunk.op == o.op_1negate
    then 129 ∷ []
    else if (if leb o.op_1 chunk.op then leb chunk.op o.op_16 else false)
    then ((chunk.op - o.op_1 + 1) % 256) ∷ []
    else chunk.data_bytes

abbrev pub last_byte : ℕ → Bytes → ℕ
last_byte b [] = b
last_byte b (c ∷ bs) = last_byte c bs

-- `scriptUint`'s loop, which begins at the last byte: `n<<8` leaves room for the byte that is added.
unfoldable pub number_loop : Bytes → ℕ
number_loop [] = 0
number_loop (b ∷ bs) = u64 (number_loop bs * 256) + b

unfoldable pub pushed_number : Bytes → Option ℕ
unfolding number_loop
pushed_number [] = some 0
pushed_number (b ∷ bs) =
    if ltb 8 (length (b ∷ bs))
    then none
    else if not (last_byte b bs / 128 % 2 == 0)
    then none
    else some (number_loop (b ∷ bs))

unfoldable pub script_uint : Script → ScriptChunk → Option ℕ
unfolding pushed_bytes pushed_number
script_uint o chunk = pushed_number (pushed_bytes o chunk)

-- `DecodeUnlocking`, whose six chunks are matched where the code counts them first.
unfoldable pub unlock_of : Script → Compiled → List ScriptChunk → Option Unlock
unfolding pushed_bytes script_uint
unlock_of o c (code ∷ row ∷ pkh ∷ change ∷ value ∷ preimage ∷ []) =
    if not (length (pushed_bytes o row) == c.cells / 8) then none else (do
      change_amount ← script_uint o change
      new_amount ← script_uint o value
      some (record {
        code_part = pushed_bytes o code;
        next_row = pushed_bytes o row;
        change_pkh = pushed_bytes o pkh;
        change_amount = change_amount;
        new_amount = new_amount;
        preimage = preimage.data_bytes;
      }))
unlock_of o c _ = none

unfoldable pub decode_unlocking : Script → Compiled → Bytes → Option Unlock
unfolding unlock_of
decode_unlocking o c unlocking_script = o.chunks unlocking_script >>= unlock_of o c
