-- ===== src/Examples/Scripts.antt =====
-- Scripts of a ring of eight cells: what an unlocking script's numbers are, and a locking script
-- read back.
use rule_110_arcade.Base.{
  ℕ, zero, suc, ◌%◌, ◌^◌, ◌<◌, ◌≡◌, ◌↔◌, refl, sym, ap, ◌∙◌, arith, some, ◌>>=◌, List, [], ◌∷◌,
  ◌++◌, get_or, ltb, ◌==◌, if◌then◌else◌, guard-some,
}
use mathlib.Core.Option.{some-injective}
use rule_110_arcade.Ca.{Row, cells, hex, decode_hex}
use rule_110_arcade.Cellscript.{CtorArgs, ctor_args}
use rule_110_arcade.Cellscript.Decode.{
  Artifact, op_return_hex, state_suffix_hex, locking_script_hex, decode,
}
use rule_110_arcade.Cellscript.Index.{IsArtifact}
use rule_110_arcade.Cellscript.Binding.{decode-locking_script}
use rule_110_arcade.Examples.Recoveries.{ring}

-- The code of a cell is the constant that picks its bit.
abbrev pub artifact : Artifact
artifact = record {
  get_locking_script =
      λ args. hex ((args.div_c % 256) ∷ []) ++ (op_return_hex ++ (hex (1 ∷ []) ++ args.row));
  serialize_state = λ row. hex (1 ∷ []) ++ row;
  code_sep_offset = 0;
  op_return = 106;
}

bit_index : ℕ → ℕ
bit_index d =
    if d == 1
    then 0
    else if d == 2
    then 1
    else if d == 4
    then 2
    else if d == 8
    then 3
    else if d == 16
    then 4
    else if d == 32
    then 5
    else if d == 64
    then 6
    else 7

bit_index-power : (i : ℕ) → i < 8 → bit_index (2 ^ (i % 8) % 256) ≡ i
unfolding bit_index
bit_index-power zero h = refl
bit_index-power (suc zero) h = refl
bit_index-power (suc (suc zero)) h = refl
bit_index-power (suc (suc (suc zero))) h = refl
bit_index-power (suc (suc (suc (suc zero)))) h = refl
bit_index-power (suc (suc (suc (suc (suc zero))))) h = refl
bit_index-power (suc (suc (suc (suc (suc (suc zero)))))) h = refl
bit_index-power (suc (suc (suc (suc (suc (suc (suc zero))))))) h = refl
bit_index-power (suc (suc (suc (suc (suc (suc (suc (suc i)))))))) h = absurd (omega (arith, h))

artifact-locks :
    (i : ℕ) (row : Row) (args : CtorArgs)
    → ctor_args ring i row ≡ some args
    → artifact.get_locking_script args
      ≡ hex ((2 ^ (i % 8) % 256) ∷ []) ++ state_suffix_hex artifact ring row
unfolding ctor_args state_suffix_hex
artifact-locks i row args e =
    let (p, e1) = guard-some (ltb i 8) _ e in
    let (q, e2) = guard-some (cells row == 8) _ e1 in
    ap artifact.get_locking_script (sym (some-injective _ args e2))

artifact-IsArtifact : IsArtifact artifact ring
unfolding hex
artifact-IsArtifact = record {
  code = λ i. (2 ^ (i % 8) % 256) ∷ [];
  push = 1 ∷ [];
  code-IsRow = λ i. (omega arith, tt);
  code-some = λ i. omega arith;
  push-IsRow = (omega arith, tt);
  op_return_is = refl;
  locks = artifact-locks;
  serializes = λ row e. refl;
  distinct = λ i j hi hj e.
      sym (bit_index-power i hi)
      ∙ ap (λ (x : List ℕ). bit_index (get_or x 0 0)) e
      ∙ bit_index-power j hj;
}

row-cells : cells (55 ∷ []) ≡ 8
unfolding cells
row-cells = refl

decode-locking_script_example :
    (decode artifact ring (8 ∷ 106 ∷ 1 ∷ 55 ∷ []) ≡ some (record { cell = 3; row = 55 ∷ [] }))
    ↔ ((locking_script_hex artifact ring 3 (55 ∷ []) >>= decode_hex) ≡ some (8 ∷ 106 ∷ 1 ∷ 55 ∷ []))
decode-locking_script_example =
    decode-locking_script artifact ring artifact-IsArtifact (8 ∷ 106 ∷ 1 ∷ 55 ∷ []) 3 (55 ∷ [])
      (omega arith) row-cells (omega arith, tt)
