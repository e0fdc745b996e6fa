-- ===== src/Cellscript.antt =====
-- internal/cellscript/cellscript.go: the constants that bind one cell to the covenant, and Script
-- numbers.
pub mod Unlocking
pub mod Amount
pub mod Decode
pub mod Pieces
pub mod Index
pub mod Binding
use rule_110_arcade.Base.{
  ℕ, ◌/◌, ◌%◌, ◌^◌, not, Option, none, some, ◌>>=◌, ltb, ◌==◌, if◌then◌else◌,
}
use rule_110_arcade.Base.Int.{pos}
use rule_110_arcade.Ca.{Rule, Row, HexText, hex, decode_hex, cells, left_index, right_index}
use rule_110_arcade.Contract.{Cell}

-- The fields of `Compiled` that are not the compiler's.
pub record Compiled : Type 0 where
  pub cells : ℕ
  pub rule : Rule

-- The arguments in the order of `ctorParams`, the row in hex.
pub record CtorArgs : Type 0 where
  pub row : HexText
  pub byte_l : ℕ
  pub div_l : ℕ
  pub byte_c : ℕ
  pub div_c : ℕ
  pub byte_r : ℕ
  pub div_r : ℕ
  pub row_bytes : ℕ
  pub rule : ℕ

-- `i` is not negative here.
unfoldable pub ctor_args : Compiled → ℕ → Row → Option CtorArgs
ctor_args c i row =
    let l = left_index c.cells i in
    let r = right_index c.cells i in
    if not (ltb i c.cells)
    then none
    else if not (cells row == c.cells)
    then none
    else some (record {
      row = hex row;
      byte_l = l / 8;
      div_l = 2 ^ (l % 8);
      byte_c = i / 8;
      div_c = 2 ^ (i % 8);
      byte_r = r / 8;
      div_r = 2 ^ (r % 8);
      row_bytes = c.cells / 8;
      rule = c.rule;
    })

-- The contract value that the arguments construct: each constant stands in its field.
abbrev pub construct : CtorArgs → Option Cell
construct a = do
  row ← decode_hex a.row
  some (record {
    row = row;
    byte_l = pos a.byte_l;
    div_l = pos a.div_l;
    byte_c = pos a.byte_c;
    div_c = pos a.div_c;
    byte_r = pos a.byte_r;
    div_r = pos a.div_r;
    row_bytes = pos a.row_bytes;
    rule = pos a.rule;
  })
