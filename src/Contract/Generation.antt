-- ===== src/Contract/Generation.antt =====
-- contracts/Cell.runar.go: one covenant proves one bit, and the covenants of the whole ring prove a
-- generation.
use rule_110_arcade.Base.{
  ℕ, ◌<◌, ◌≡◌, ◌≢◌, ◌↔◌, ◌⊎◌, sym, ap, ◌∙◌, arith, Bool, Option, none, some, ◌>>=◌, length, inl,
  inr, ne→==,
}
use mathlib.Core.Option.{some-injective}
use rule_110_arcade.Ca.{Rule, Row, IsRow, cells, get, set_cell}
use rule_110_arcade.Ca
use rule_110_arcade.Ca.Bits.{
  alive, written, get-alive, set_cell-written, written-IsRow, length-written, alive-written,
}
use rule_110_arcade.Ca.Step.{image, IsNext, step-IsNext, IsNext-unique, cells_of_length}
use rule_110_arcade.Cellscript.{Compiled, ctor_args, construct}
use rule_110_arcade.Contract.{Runar, IsRunar, Cell, step}
use rule_110_arcade.Contract.Agreement.{cell_at, construct-cell_at, step-cell_at}

-- `out` holds the bits that the covenants check.
agree_iff :
    (rule : Rule) (row out nxt : Row) (i : ℕ)
    → IsNext rule row out
    → i < cells row
    → length nxt ≡ length row
    → (get nxt i ≡ get out i) ↔ (alive nxt i ≡ image rule row i)
agree_iff rule row out nxt i f hi e =
    let gn = get-alive nxt i (omega (arith, cells_of_length nxt row e)) in
    let go = get-alive out i (omega (arith, cells_of_length out row f.sized)) in
    (
      λ p. some-injective _ _ (sym gn ∙ p ∙ go) ∙ f.images i hi,
      λ q. gn ∙ ap some (q ∙ sym (f.images i hi)) ∙ sym go,
    )

module _ (r : Runar) (lib : IsRunar r) (c : Compiled) (row : Row) where
  -- The covenant that is compiled for cell `i` over `row` takes the next row `nxt` and carries it on,
  -- its other fields unchanged, if `nxt` has the row's length and, at cell `i`, the bit of the
  -- reference step of `row`; if not, it fails. (For a rule below 256 and a row of the compiled size.)
  pub step_covenant :
      (nxt : Row) (i : ℕ)
      → c.rule < 256
      → IsRow row
      → IsRow nxt
      → cells row ≡ c.cells
      → i < c.cells
      → (out : Row) × (cell : Cell) × (Ca.step c.rule row ≡ some out)
        × ((ctor_args c i row >>= construct) ≡ some cell)
        × (((length nxt ≡ length row)
              × (get nxt i ≡ get out i)
              × (step r cell nxt ≡ some (record cell { row = nxt })))
            ⊎ ((¬ ((length nxt ≡ length row) × (get nxt i ≡ get out i)))
                × (step r cell nxt ≡ none)))
  step_covenant nxt i hr h hn e hi =
      let (out, ran, f) = step-IsNext c.rule row in
      let ii : i < cells row = omega arith in
      (
        out,
        cell_at c.rule row i,
        ran,
        construct-cell_at c i row h e hi,
        elim (step-cell_at r lib c.rule row nxt i hr h hn ii) [
          | inl (len, bit, took) ↦ inl (len, (agree_iff c.rule row out nxt i f ii len).1 bit, took)
          | inr (not, failed) ↦
              inr (λ p. not (p.0, (agree_iff c.rule row out nxt i f ii p.0).0 p.1), failed)
        ],
      )

  -- What the covenant compiled for cell `i` over `row` answers to `nxt`; `none` is a refusal.
  abbrev pub answer : Row → ℕ → Option Cell
  answer nxt i = ctor_args c i row >>= construct >>= λ cell. step r cell nxt

  answer-cell_at :
      (nxt : Row) (i : ℕ)
      → IsRow row
      → cells row ≡ c.cells
      → i < c.cells
      → answer nxt i ≡ step r (cell_at c.rule row i) nxt
  answer-cell_at nxt i h e hi = rw (construct-cell_at c i row h e hi)

  answer_iff :
      (nxt : Row) (i : ℕ)
      → c.rule < 256
      → IsRow row
      → IsRow nxt
      → cells row ≡ c.cells
      → i < c.cells
      → (answer nxt i ≢ none) ↔ ((length nxt ≡ length row) × (alive nxt i ≡ image c.rule row i))
  answer_iff nxt i hr h hn e hi =
      rw (answer-cell_at nxt i h e hi)
        (elim (step-cell_at r lib c.rule row nxt i hr h hn (omega arith)) [
          | inl (len, bit, took) ↦ (λ _. (len, bit), λ _ no. cc)
          | inr (not, failed) ↦ (λ some. absurd (some failed), λ p. absurd (not p))
        ])

  -- The covenants of all the cells of a ring take the next row `nxt` exactly if `nxt` is the row that
  -- the reference step gives. (For a rule below 256 and a row of the compiled size, not empty.)
  pub generation_proved :
      (nxt : Row)
      → c.rule < 256
      → IsRow row
      → IsRow nxt
      → cells row ≡ c.cells
      → 0 < c.cells
      → ((i : ℕ) → i < c.cells → answer nxt i ≢ none) ↔ (Ca.step c.rule row ≡ some nxt)
  generation_proved nxt hr h hn e some_cell =
      let (out, ran, f) = step-IsNext c.rule row in
      let at = λ (i : ℕ) (hi : i < c.cells). answer_iff nxt i hr h hn e hi in
      (
        λ all.
            ran
            ∙ ap some (
                IsNext-unique c.rule row out nxt f (record {
                  sized = ((at 0 some_cell).0 (all 0 some_cell)).0;
                  bytes = hn;
                  images = λ i hi. ((at i (omega arith)).0 (all i (omega arith))).1;
                })),
        λ took i hi.
            let same : out ≡ nxt = some-injective out nxt (sym ran ∙ took) in
            (at i hi).1 (rw (← same) (f.sized, f.images i (omega arith))),
      )

  -- A covenant does not look at the other cells: when the one for cell `i` takes `nxt`, it also takes
  -- `nxt` with any other cell `j` of it set to anything.
  pub other_cells_unchecked :
      (nxt : Row) (i j : ℕ) (b : Bool)
      → c.rule < 256
      → IsRow row
      → IsRow nxt
      → cells row ≡ c.cells
      → i < c.cells
      → j < c.cells
      → i ≢ j
      → answer nxt i ≢ none
      → (nxt' : Row) × (set_cell nxt j b ≡ some nxt') × (answer nxt' i ≢ none)
  other_cells_unchecked nxt i j b hr h hn e hi hj ne took =
      let (len, bit) = (answer_iff nxt i hr h hn e hi).0 took in
      let hj' : j < cells nxt = omega (arith, cells_of_length nxt row len) in
      (
        written nxt j b,
        set_cell-written nxt j b hj',
        (answer_iff (written nxt j b) i hr h (written-IsRow nxt j b hn) e hi).1
            (length-written nxt j b ∙ len, rw (alive-written nxt j i b hn hj', ne→== i j ne) bit),
      )
