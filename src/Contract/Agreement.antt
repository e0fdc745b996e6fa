-- ===== src/Contract/Agreement.antt =====
-- contracts/Cell.runar.go against internal/ca/ca.go: what one covenant accepts.
use rule_110_arcade.Base.{
  ℕ, ◌/◌, ◌%◌, ◌^◌, ◌<◌, ◌≡◌, ◌≢◌, ◌↔◌, ◌⊎◌, sym, ◌∙◌, arith, Bool, true, false, not, lt→ltb,
  ==_refl, none, some, ◌>>=◌, length, ◌==◌, if◌then◌else◌, ==_iff, Bool-cases, inl, inr, ==→ne,
  ne→==,
}
use rule_110_arcade.Base.Int.{ℤ, pos, int_eq}
use rule_110_arcade.Ca.{Rule, Row, IsRow, cells, left_index, right_index, to_bit}
use rule_110_arcade.Ca.Bits.{alive}
use rule_110_arcade.Ca.Step.{image, left_index-lt, right_index-lt, cells_of_length}
use rule_110_arcade.Ca.Hex.{decode_hex-hex}
use rule_110_arcade.Cellscript.{Compiled, ctor_args, construct}
use rule_110_arcade.Contract.Lookup.{lookup_then, next_bit, bit_at-alive}
use rule_110_arcade.Contract.{Runar, IsRunar, Cell, bit_at, step}

-- The two bits are equal.
same : Bool → Bool → Bool
same true b = b
same false b = not b

claim_test :
    (b : Bool) (v : ℕ) → v ≡ to_bit (v == 1) → int_eq (pos (to_bit b)) (pos v) ≡ same b (v == 1)
unfolding same
claim_test b v h = ground arith

same_iff : (a b : Bool) → (same a b ≡ true) ↔ (a ≡ b)
unfolding same
same_iff a b = ground arith

-- The covenant of cell `i` over `row`.
abbrev pub cell_at : Rule → Row → ℕ → Cell
cell_at rule row i =
    let l = left_index (cells row) i in
    let rt = right_index (cells row) i in
    record {
      row = row;
      byte_l = pos (l / 8);
      div_l = pos (2 ^ (l % 8));
      byte_c = pos (i / 8);
      div_c = pos (2 ^ (i % 8));
      byte_r = pos (rt / 8);
      div_r = pos (2 ^ (rt % 8));
      row_bytes = pos (cells row / 8);
      rule = pos rule;
    }

-- The compiled constants are those of the cell.
pub construct-cell_at :
    (c : Compiled) (i : ℕ) (row : Row)
    → IsRow row
    → cells row ≡ c.cells
    → i < c.cells
    → (ctor_args c i row >>= construct) ≡ some (cell_at c.rule row i)
unfolding ctor_args
construct-cell_at c i row h e hi = rw (lt→ltb i c.cells hi, ← e, ==_refl, decode_hex-hex row h)

length_of_cells : (row : Row) → cells row / 8 ≡ length row
unfolding cells
length_of_cells row = omega arith

module _ (r : Runar) (lib : IsRunar r) (rule : Rule) (row nxt : Row) (i : ℕ) where
  step_accepted :
      rule < 256
      → IsRow row
      → IsRow nxt
      → i < cells row
      → length nxt ≡ length row
      → step r (cell_at rule row i) nxt ≡ (
          if same (alive nxt i) (image rule row i)
          then some (record (cell_at rule row i) { row = nxt })
          else none)
  unfolding step image
  step_accepted hr h hn hi e =
      let n = cells row in
      let l = alive row (left_index n i) in
      let c = alive row i in
      let rt = alive row (right_index n i) in
      let sized : length nxt ≡ cells row / 8 = e ∙ sym (length_of_cells row) in
      let finish = λ (answer : ℤ). bit_at r nxt (pos (i / 8)) (pos (2 ^ (i % 8))) >>= λ claimed.
      if int_eq claimed answer then some (record (cell_at rule row i) { row = nxt }) else none in
      rw
        (
          lib.len_length nxt,
          sized,
          ==_refl (cells row / 8),
          bit_at-alive r lib row (left_index n i) h (left_index-lt n i hi),
          bit_at-alive r lib row i h hi,
          bit_at-alive r lib row (right_index n i) h (right_index-lt n i hi),
          lookup_then rule l c rt finish hr,
          bit_at-alive r lib nxt i hn (omega (arith, cells_of_length nxt row e)),
        )
        (rw (claim_test (alive nxt i) _ (next_bit rule l c rt hr)))

  -- A next row of another length is refused.
  step_refused : length nxt ≢ length row → step r (cell_at rule row i) nxt ≡ none
  unfolding step
  step_refused e = rw (lib.len_length nxt, length_of_cells row, ne→== _ _ e)

  -- What the covenant of cell `i` answers to `nxt`, on every branch.
  pub step-cell_at :
      rule < 256
      → IsRow row
      → IsRow nxt
      → i < cells row
      → ((length nxt ≡ length row)
          × (alive nxt i ≡ image rule row i)
          × (step r (cell_at rule row i) nxt ≡ some (record (cell_at rule row i) { row = nxt })))
        ⊎ ((¬ ((length nxt ≡ length row) × (alive nxt i ≡ image rule row i)))
            × (step r (cell_at rule row i) nxt ≡ none))
  step-cell_at hr h hn hi = elim (Bool-cases (length nxt == length row)) [
    | inr e ↦ let ne = ==→ne _ _ e in inr (λ p. ne p.0, step_refused ne)
    | inl e ↦
        let eq = (==_iff _ _).0 e in
        let ans = step_accepted hr h hn hi eq in
        elim (Bool-cases (same (alive nxt i) (image rule row i))) [
          | inl s ↦ inl (eq, (same_iff _ _).0 s, rw s at ans)
          | inr s ↦ inr (λ p. cc ((same_iff (alive nxt i) (image rule row i)).1 p.1), rw s at ans)
        ]
  ]
