-- ===== src/Cellscript/Index.antt =====
-- internal/cellscript/cellscript.go: the index of the code parts, by which a script is told to be a
-- cell's.
use rule_110_arcade.Base.{
  ℕ, zero, suc, ◌+◌, ◌/◌, ◌%◌, ◌≤◌, ◌<◌, ◌≡◌, ◌≢◌, refl, sym, ◌∙◌, arith, true, false, none, some,
  List, [], ◌∷◌, ◌++◌, length, ◌==◌, ==_iff, Bool-cases, inl, inr, replicate, length-replicate,
}
use mathlib.Core.Path.{subst}
use rule_110_arcade.Ca.{Row, IsRow, hex, cells, new_row}
use rule_110_arcade.Ca.Hex.{decode_hex-hex}
use rule_110_arcade.Cellscript.{Compiled, CtorArgs, ctor_args}
use rule_110_arcade.Chain.{Bytes}
use rule_110_arcade.Cellscript.Decode.{
  Artifact, cell_of, state_suffix_hex, locking_script_hex, code_part, unless_taken, binding_loop,
  binding_index,
}
use rule_110_arcade.Cellscript.Pieces.{
  take-++, front, has_suffix-++, cell_of-own, cell_of-other, ctor_args-some, tail,
}

-- What the compiled contract does: a cell's script is its code, which is constant and its own, then
-- OP_RETURN and a push of the row whose prefix depends on the ring alone.
pub record IsArtifact (a : Artifact) (c : Compiled) : Type 0 where
  pub code : ℕ → Bytes
  pub push : Bytes
  pub code-IsRow : (i : ℕ) → IsRow (code i)
  pub code-some : (i : ℕ) → 0 < length (code i)
  pub push-IsRow : IsRow push
  pub op_return_is : a.op_return ≡ 106
  pub locks :
      (i : ℕ) (row : Row) (args : CtorArgs)
      → ctor_args c i row ≡ some args
      → a.get_locking_script args ≡ hex (code i) ++ state_suffix_hex a c row
  pub serializes :
      (row : Row) → cells row ≡ c.cells → a.serialize_state (hex row) ≡ hex (push ++ row)
  pub distinct : (i j : ℕ) → i < c.cells → j < c.cells → code i ≡ code j → i ≡ j

pub zeros-cells : (n : ℕ) (row : Row) → cells row ≡ n → cells (replicate (n / 8) 0) ≡ n
unfolding cells
zeros-cells n row e = let z = length-replicate {A = ℕ} (n / 8) 0 in omega (arith, e, z)

new_row-zeros : (n : ℕ) (row : Row) → 0 < n → cells row ≡ n → new_row n ≡ some (replicate (n / 8) 0)
unfolding new_row cells
new_row-zeros n row l e =
    let z : (n == 0) ≡ false = ground arith in
    let d : (n % 8 == 0) ≡ true = (==_iff (n % 8) 0).1 (omega (arith, e)) in rw (z, d) refl

below_other : (m j : ℕ) → j < suc m → m ≢ j → j < m
below_other m j l n = grind arith

module _ (a : Artifact) (c : Compiled) (h : IsArtifact a c) where
  pub state_suffix_hex-tail :
      (row : Row) → cells row ≡ c.cells → state_suffix_hex a c row ≡ hex (tail h.push row)
  unfolding state_suffix_hex hex
  state_suffix_hex-tail row e = rw (h.serializes row e) refl

  pub locking_script_hex-code :
      (i : ℕ) (row : Row)
      → i < c.cells
      → cells row ≡ c.cells
      → locking_script_hex a c i row ≡ some (hex (h.code i) ++ state_suffix_hex a c row)
  unfolding locking_script_hex
  locking_script_hex-code i row l e =
      let (args, p) = ctor_args-some c i row l e in rw (p, h.locks i row args p) refl

  code_part-code :
      (i : ℕ) (row : Row)
      → i < c.cells
      → cells row ≡ c.cells
      → code_part a c i row ≡ some (h.code i)
  unfolding code_part
  code_part-code i row l e =
      let script = hex (h.code i) ++ state_suffix_hex a c row in
      rw
        (
          locking_script_hex-code i row l e,
          has_suffix-++ (hex (h.code i)) (state_suffix_hex a c row),
          front (hex (h.code i)) (state_suffix_hex a c row),
          take-++ (hex (h.code i)) (state_suffix_hex a c row),
        )
        (decode_hex-hex (h.code i) (h.code-IsRow i))

  -- The index of the first `m` cells.
  abbrev Known : List (Bytes × ℕ) → ℕ → Type 0
  Known index m =
      (j : ℕ)
      → j < c.cells
      → (j < m → cell_of index (h.code j) ≡ some j) × (m ≤ j → cell_of index (h.code j) ≡ none)

  Known-more :
      (index : List (Bytes × ℕ)) (m : ℕ)
      → m < c.cells
      → Known index m
      → Known ((h.code m, m) ∷ index) (suc m)
  Known-more index m l k j b =
      let apart : m ≢ j → h.code m ≢ h.code j = λ n e. n (h.distinct m j l b e) in
      (
        λ below. elim (Bool-cases (m == j)) [
          | inl same ↦
              subst (λ (x : ℕ). cell_of ((h.code m, m) ∷ index) (h.code x) ≡ some x)
                ((==_iff m j).0 same) (cell_of-own (h.code m) m index)
          | inr other ↦
              let n : m ≢ j = λ e. absurd (cc (sym other ∙ (==_iff m j).1 e)) in
              cell_of-other (h.code m) (h.code j) m index (apart n)
              ∙ (k j b).0 (below_other m j below n)
        ],
        λ above.
            cell_of-other (h.code m) (h.code j) m index (apart (λ e. omega (arith, e, above)))
            ∙ (k j b).1 (omega (arith, above)),
      )

  binding_loop-Known :
      (row : Row) (turns cell : ℕ) (index : List (Bytes × ℕ))
      → cells row ≡ c.cells
      → turns + cell ≡ c.cells
      → Known index cell
      → (idx : List (Bytes × ℕ)) × (binding_loop a c row turns cell index ≡ some idx)
        × Known idx c.cells
  unfolding binding_loop unless_taken
  binding_loop-Known row zero cell index e o k =
      (index, refl, subst (Known index) (omega (arith, o)) k)
  binding_loop-Known row (suc turns) cell index e o k =
      let inside : cell < c.cells = omega (arith, o) in
      let (idx, p, q) =
        binding_loop-Known row turns (suc cell) ((h.code cell, cell) ∷ index) e (omega (arith, o))
          (Known-more index cell inside k) in
      (idx, rw (code_part-code cell row inside e, (k cell inside).1 (omega arith)) p, q)

  pub binding_index-Known :
      (row : Row)
      → 0 < c.cells
      → cells row ≡ c.cells
      → (idx : List (Bytes × ℕ)) × (binding_index a c ≡ some idx) × Known idx c.cells
  unfolding binding_index cell_of
  binding_index-Known row l e =
      let zeros : Row = replicate (c.cells / 8) 0 in
      let flat = zeros-cells c.cells row e in
      let (idx, p, q) =
        binding_loop-Known zeros c.cells 0 [] flat (omega arith)
          (λ j b. (λ n. absurd (omega (arith, n)), λ n. refl)) in
      (idx, rw (new_row-zeros c.cells row l e) p, q)
