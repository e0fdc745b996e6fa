-- ===== src/Ca/Step.antt =====
-- internal/ca/ca.go: `Step` never panics, and each cell of its result is the rule's answer to the
-- cell's neighbourhood.
use rule_110_arcade.Base.{
  ℕ, zero, suc, ◌-◌, ◌*◌, ◌/◌, ◌%◌, ◌^◌, bit_and-one, ◌+◌, ◌≤◌, ◌<◌, ◌≡◌, refl, sym, ap, ◌∙◌, arith,
  Bool, true, false, some, length, replicate, ◌==◌, if◌then◌else◌, ==_iff, Bool-cases, inl, inr,
  length-replicate,
}
use native.Mathlib.Nat.{mod-eq_of_lt, add-mod_right}
use rule_110_arcade.Ca.{
  Rule, Row, IsRow, cells, next, get, left_index, right_index, to_bit, step_cell, step_loop, step,
}
use rule_110_arcade.Ca.Bits.{
  alive, written, get-alive, set_cell-written, length-written, written-IsRow, alive-written,
  alive-blank, blank-IsRow, Row_ext,
}

pub left_index-lt : (n i : ℕ) → i < n → left_index n i < n
unfolding left_index
left_index-lt n i h = grind arith

pub right_index-lt : (n i : ℕ) → i < n → right_index n i < n
unfolding right_index
right_index-lt n i h = grind arith

-- Cell `i` of the next generation, read off the ring.
unfoldable pub image : Rule → Row → ℕ → Bool
image rule row i =
    next rule (to_bit (alive row (left_index (cells row) i))) (to_bit (alive row i))
      (to_bit (alive row (right_index (cells row) i)))
    == 1

-- The row after a turn of the loop.
after_cell : Rule → Row → ℕ → Row → Row
after_cell rule row i out = if image rule row i then written out i true else out

step_cell_lem :
    (rule : Rule) (row : Row) (i : ℕ) (out : Row)
    → i < cells row
    → cells out ≡ cells row
    → step_cell rule row (cells row) i out ≡ some (after_cell rule row i out)
unfolding step_cell after_cell image
step_cell_lem rule row i out h e =
    rw
      (
        get-alive row (left_index (cells row) i) (left_index-lt (cells row) i h),
        get-alive row i h,
        get-alive row (right_index (cells row) i) (right_index-lt (cells row) i h),
        set_cell-written out i true (omega arith),
      )
      (ground arith)

-- Cells below `i` are done and the others are still dead.
record IsFilled (rule : Rule) (row : Row) (i : ℕ) (out : Row) : Type 0 where
  sized : length out ≡ length row
  bytes : IsRow out
  done : (j : ℕ) → j < i → alive out j ≡ image rule row j
  blank : (j : ℕ) → i ≤ j → alive out j ≡ false

alive-after_cell :
    (rule : Rule) (row : Row) (i j : ℕ) (out : Row)
    → IsRow out
    → i < cells out
    → alive out i ≡ false
    → alive (after_cell rule row i out) j ≡ (if j == i then image rule row i else alive out j)
unfolding after_cell
alive-after_cell rule row i j out h hi dead = elim (Bool-cases (j == i)) [
  | inl e ↦ ground (arith, alive-written out i j true h hi, ap (alive out) ((==_iff j i).0 e))
  | inr e ↦ ground (arith, alive-written out i j true h hi)
]

pub cells_of_length : (r s : Row) → length r ≡ length s → cells r ≡ cells s
unfolding cells
cells_of_length r s e = omega arith

length-after_cell :
    (rule : Rule) (row : Row) (i : ℕ) (out : Row) → length (after_cell rule row i out) ≡ length out
unfolding after_cell
length-after_cell rule row i out = ground (arith, length-written out i true)

after_cell-IsRow :
    (rule : Rule) (row : Row) (i : ℕ) (out : Row) → IsRow out → IsRow (after_cell rule row i out)
unfolding after_cell
after_cell-IsRow rule row i out h = elim (Bool-cases (image rule row i)) [
  | inl e ↦ rw e (written-IsRow out i true h)
  | inr e ↦ rw e h
]

after_cell-IsFilled :
    (rule : Rule) (row : Row) (i : ℕ) (out : Row)
    → i < cells row
    → IsFilled rule row i out
    → IsFilled rule row (suc i) (after_cell rule row i out)
after_cell-IsFilled rule row i out h f =
    let at = λ (j : ℕ).
      alive-after_cell rule row i j out f.bytes (omega (arith, cells_of_length out row f.sized))
        (f.blank i (omega arith)) in
    record {
      sized = length-after_cell rule row i out ∙ f.sized;
      bytes = after_cell-IsRow rule row i out f.bytes;
      done = λ j p. elim (Bool-cases (j == i)) [
        | inl e ↦ ground (arith, at j, ap (image rule row) ((==_iff j i).0 e))
        | inr e ↦ ground (arith, at j, f.done j)
      ];
      blank = λ j p. ground (arith, at j, f.blank j);
    }

step_loop-IsFilled :
    (rule : Rule) (row : Row) (k i : ℕ) (out : Row)
    → i + k ≡ cells row
    → IsFilled rule row i out
    → (out' : Row) × (step_loop rule row (cells row) i k out ≡ some out')
      × IsFilled rule row (cells row) out'
unfolding step_loop
step_loop-IsFilled rule row zero i out e f =
    let i_end : i ≡ cells row = omega arith in (out, refl, rw (← i_end) f)
step_loop-IsFilled rule row (suc k) i out e f =
    rw (step_cell_lem rule row i out (omega arith) (cells_of_length out row f.sized)) (
      step_loop-IsFilled rule row k (suc i) (after_cell rule row i out) (omega arith)
        (after_cell-IsFilled rule row i out (omega arith) f))

blank-IsFilled : (rule : Rule) (row : Row) → IsFilled rule row 0 (replicate (length row) 0)
blank-IsFilled rule row = record {
  sized = length-replicate (length row) 0;
  bytes = blank-IsRow (length row);
  done = λ j p. elim p [ ];
  blank = λ j p. alive-blank (length row) j;
}

-- `out` is the next generation of `row`.
pub record IsNext (rule : Rule) (row out : Row) : Type 0 where
  pub sized : length out ≡ length row
  pub bytes : IsRow out
  pub images : (i : ℕ) → i < cells row → alive out i ≡ image rule row i

pub step-IsNext :
    (rule : Rule) (row : Row) → (out : Row) × (step rule row ≡ some out) × IsNext rule row out
unfolding step
step-IsNext rule row =
    let (out, e, f) =
      step_loop-IsFilled rule row (cells row) 0 _ (omega arith) (blank-IsFilled rule row) in
    (out, e, record { sized = f.sized; bytes = f.bytes; images = f.done })

-- The next generation is unique.
pub IsNext-unique : (rule : Rule) (row a b : Row) → IsNext rule row a → IsNext rule row b → a ≡ b
IsNext-unique rule row a b p q = Row_ext a b p.bytes q.bytes (p.sized ∙ sym q.sized) λ i h.
    let hi : i < cells row = omega (arith, cells_of_length a row p.sized) in
    p.images i hi ∙ sym (q.images i hi)

left_index-ring : (n i : ℕ) → i < n → left_index n i ≡ (if suc i == n then 0 else suc i)
unfolding left_index
left_index-ring n i h = grind arith

right_index-ring : (n i : ℕ) → 1 < n → i < n → right_index n i ≡ (if i == 0 then n - 1 else i - 1)
unfolding right_index
right_index-ring n i l h =
    let one : 1 % n ≡ 1 = mod-eq_of_lt l in
    let before : (i - 1) % n ≡ i - 1 = mod-eq_of_lt (omega (arith, h)) in
    let first : (n - 1) % n ≡ n - 1 = mod-eq_of_lt (omega (arith, l)) in
    rw (one, add-mod_right ((i - 1) % n) n, before, before, first) refl

next-bit :
    (rule : Rule) (l c r : Bool)
    → rule < 256
    → (next rule (to_bit l) (to_bit c) (to_bit r) == 1)
      ≡ (rule / 2 ^ (4 * to_bit l + 2 * to_bit c + to_bit r) % 2 == 1)
unfolding next
next-bit rule true true true h = ground (arith, bit_and-one (rule / 128))
next-bit rule true true false h = ground (arith, bit_and-one (rule / 64))
next-bit rule true false true h = ground (arith, bit_and-one (rule / 32))
next-bit rule true false false h = ground (arith, bit_and-one (rule / 16))
next-bit rule false true true h = ground (arith, bit_and-one (rule / 8))
next-bit rule false true false h = ground (arith, bit_and-one (rule / 4))
next-bit rule false false true h = ground (arith, bit_and-one (rule / 2))
next-bit rule false false false h = ground (arith, bit_and-one (rule / 1))

cells-eq : (row : Row) → cells row ≡ 8 * length row
unfolding cells
cells-eq row = omega arith

-- On every row and for a rule of one byte, `step` returns a row of the same length (it never
-- panics). The cell `i` of it, for each `i` of the ring, is the bit of the rule that the three
-- cells number: the one after `i`, which is the first after the last, weighs 4, `i` itself 2 and
-- the one before `i`, which is the last before the first, 1.
pub step-get :
    (rule : Rule) (row : Row)
    → rule < 256
    → (out : Row) × (step rule row ≡ some out)
      × (length out ≡ length row)
      × ((i : ℕ)
          → i < 8 * length row
          → (l c r : Bool) × (get row (if suc i == 8 * length row then 0 else suc i) ≡ some l)
            × (get row i ≡ some c)
            × (get row (if i == 0 then 8 * length row - 1 else i - 1) ≡ some r)
            × (get out i ≡ some (rule / 2 ^ (4 * to_bit l + 2 * to_bit c + to_bit r) % 2 == 1)))
unfolding image
step-get rule row byte =
    let (out, e, f) = step-IsNext rule row in
    let n = 8 * length row in
    let whole = cells-eq row in
    (
      out,
      e,
      f.sized,
      λ i h.
          let inside : i < cells row = omega (arith, h, whole) in
          let l = alive row (left_index (cells row) i) in
          let c = alive row i in
          let r = alive row (right_index (cells row) i) in
          let left = ap (λ m. left_index m i) whole ∙ left_index-ring n i h in
          let right = ap (λ m. right_index m i) whole ∙ right_index-ring n i (omega (arith, h)) h in
          (
            l,
            c,
            r,
            ap (get row) (sym left)
                ∙ get-alive row (left_index (cells row) i) (left_index-lt (cells row) i inside),
            get-alive row i inside,
            ap (get row) (sym right)
                ∙ get-alive row (right_index (cells row) i) (right_index-lt (cells row) i inside),
            get-alive out i (omega (arith, inside, cells_of_length out row f.sized))
                ∙ ap some (f.images i inside)
                ∙ ap some (next-bit rule l c r byte),
          ),
    )
