-- ===== src/Cellscript/Decode.antt =====
-- internal/cellscript/cellscript.go: the code part of a cell's script, and the cell and row that a
-- script binds. `none` is an error or a panic; the index is computed once and kept, so a call of it
-- is its value.
use rule_110_arcade.Base.{
  ℕ, zero, suc, ◌+◌, ◌-◌, ◌/◌, not, Bool, false, Option, none, some, ◌>>=◌, List, [], ◌∷◌, ◌++◌,
  length, take, drop, replicate, get_elem?, ltb, leb, ◌==◌, if◌then◌else◌, codes,
}
use rule_110_arcade.Ca.{Row, HexText, hex, decode_hex, new_row, equal}
use rule_110_arcade.Cellscript.{Compiled, CtorArgs, ctor_args}
use rule_110_arcade.Chain.{Bytes}

-- What the compiled contract's artifact gives: the locking script for a contract's arguments and the
-- serialized state for a row, in hex, and the offset of the code separator; and go-sdk's OP_RETURN.
pub record Artifact : Type 0 where
  pub get_locking_script : CtorArgs → HexText
  pub serialize_state : HexText → HexText
  pub code_sep_offset : ℕ
  pub op_return : ℕ

pub record Binding : Type 0 where
  pub cell : ℕ
  pub row : Row

abbrev pub op_return_hex : HexText
op_return_hex = codes "6a"

-- strings.HasSuffix
unfoldable pub has_suffix : HexText → HexText → Bool
unfolding equal
has_suffix s t = if ltb (length s) (length t) then false else equal (drop (length s - length t) s) t

-- A Go map from a script's bytes to a cell, with one entry for each key.
unfoldable pub cell_of : List (Bytes × ℕ) → Bytes → Option ℕ
unfolding equal
cell_of [] code = none
cell_of ((key, cell) ∷ index) code =
    let rest = cell_of index code in if equal key code then some cell else rest

-- Two cells of one code are an error.
unfoldable pub unless_taken : Option ℕ → Option (List (Bytes × ℕ)) → Option (List (Bytes × ℕ))
unless_taken none rest = rest
unless_taken (some prev) rest = none

module _ (a : Artifact) (c : Compiled) where
  unfoldable pub state_suffix_hex : Row → HexText
  unfolding hex
  state_suffix_hex row = op_return_hex ++ a.serialize_state (hex row)

  unfoldable pub locking_script_hex : ℕ → Row → Option HexText
  unfolding ctor_args
  locking_script_hex i row = do args ← ctor_args c i row; some (a.get_locking_script args)

  unfoldable pub code_part : ℕ → Row → Option Bytes
  unfolding locking_script_hex state_suffix_hex has_suffix decode_hex
  code_part i row = do
    lock ← locking_script_hex i row
    let suffix = state_suffix_hex row
    if not (has_suffix lock suffix)
        then none
        else decode_hex (take (length lock - length suffix) lock)

  -- The loop of `bindingIndex` with `turns` cells left, the first of them `cell`.
  unfoldable pub binding_loop : Row → ℕ → ℕ → List (Bytes × ℕ) → Option (List (Bytes × ℕ))
  unfolding code_part cell_of unless_taken
  binding_loop row zero cell index = some index
  binding_loop row (suc turns) cell index = do
    code ← code_part cell row
    let rest = binding_loop row turns (suc cell) ((code, cell) ∷ index)
    unless_taken (cell_of index code) rest

  unfoldable pub binding_index : Option (List (Bytes × ℕ))
  unfolding new_row binding_loop
  binding_index = do row ← new_row c.cells; binding_loop row c.cells 0 []

  -- The last test of `Decode`: the binding rebuilds the whole script.
  unfoldable pub confirm : Bytes → Binding → Option Binding
  unfolding locking_script_hex decode_hex equal
  confirm locking_script b = do
    lock ← locking_script_hex b.cell b.row
    want ← decode_hex lock
    if not (equal want locking_script) then none else some b

  unfoldable pub decode : Bytes → Option Binding
  unfolding binding_index state_suffix_hex cell_of confirm
  decode locking_script = do
    index ← binding_index
    let row_bytes = c.cells / 8
    let suffix = length (state_suffix_hex (replicate row_bytes 0)) / 2
    if leb (length locking_script) suffix then none else (do
      let split = length locking_script - suffix
      op ← get_elem? locking_script split
      if not (op == a.op_return)
          then none
          else (if ltb (length locking_script) row_bytes then none else (do
            cell ← cell_of index (take split locking_script)
            confirm locking_script (record {
              cell = cell;
              row = drop (length locking_script - row_bytes) locking_script;
            }))))

  unfoldable pub script_code : Bytes → Option Bytes
  script_code locking_script =
      if leb (length locking_script) (a.code_sep_offset + 1)
      then none
      else some (drop (a.code_sep_offset + 1) locking_script)
