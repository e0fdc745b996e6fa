-- ===== src/Engine/Status/Cells.antt =====
-- internal/engine/status.go: the entry of the window that a location names, and what a write to it
-- leaves.
use rule_110_arcade.Base.{
  ℕ, ◌≤◌, ◌≡◌, refl, sym, ap, ◌∙◌, arith, Option, none, some, List, [], ◌∷◌, ltb, ◌==◌,
  if◌then◌else◌, get_elem?, set, get_elem?-lt, get_elem?-set_self, get_elem?-set_ne, Bool-cases,
  inl, inr, ==_iff, ==_refl, ==→ne,
}
use mathlib.Core.Path.{subst}
use mathlib.Core.Option.{some-injective}
use rule_110_arcade.Engine.Runtime.{CellTx, Generation, TxLoc}
use rule_110_arcade.Engine.Window.{index_of_generation, put_generation}
use rule_110_arcade.Engine.Status.{rank, entry, entry_of, cell_in_window, write_cell}

pub index_of_generation-number :
    (gens : List Generation) (n : ℕ) {g : Generation}
    → index_of_generation gens n ≡ some g
    → g.number ≡ n
unfolding index_of_generation
index_of_generation-number [] n e = cc e
index_of_generation-number (h ∷ gens) n {g} e = elim (Bool-cases (h.number == n)) [
  | inl same ↦
      subst (λ (x : Generation). x.number ≡ n) (some-injective h g (rw same at e))
        ((==_iff h.number n).0 same)
  | inr ne ↦ elim (Bool-cases (ltb h.number n)) [
    | inl early ↦ cc (rw (ne, early) at e)
    | inr late ↦ index_of_generation-number gens n (rw (ne, late) at e)
  ]
]

replaced : Generation → Option Generation → Option Generation
replaced g none = none
replaced g (some h) = some g

index_of_generation-put_generation :
    (g : Generation) (gens : List Generation) (n : ℕ)
    → index_of_generation (put_generation g gens) n ≡ (
        if g.number == n
        then replaced g (index_of_generation gens n)
        else index_of_generation gens n)
unfolding index_of_generation put_generation replaced
index_of_generation-put_generation g [] n = ground arith
index_of_generation-put_generation g (h ∷ gens) n =
    ground (arith, index_of_generation-put_generation g gens n)

entry-some :
    (g : Generation) (found : Option CellTx) {h : Generation} {c : CellTx}
    → entry g found ≡ some (h, c)
    → (g ≡ h) × (found ≡ some c)
unfolding entry
entry-some g none e = cc e
entry-some g (some d) {h} {c} e =
    let same : (g, d) ≡ (h, c) = some-injective (g, d) (h, c) e in
    (ap (λ (x : Generation × CellTx). x.0) same, ap (λ (x : Generation × CellTx). some x.1) same)

entry_of-some :
    (found : Option Generation) (cell : ℕ) {g : Generation} {c : CellTx}
    → entry_of found cell ≡ some (g, c)
    → (found ≡ some g) × (get_elem? g.cells cell ≡ some c)
unfolding entry_of
entry_of-some none cell e = cc e
entry_of-some (some h) cell {g} {c} e =
    let (same, at) = entry-some h (get_elem? h.cells cell) e in
    (ap some same, subst (λ (x : Generation). get_elem? x.cells cell ≡ some c) same at)

pub cell_in_window-some :
    (gens : List Generation) (loc : TxLoc) {g : Generation} {c : CellTx}
    → cell_in_window gens loc ≡ some (g, c)
    → (index_of_generation gens loc.generation ≡ some g) × (get_elem? g.cells loc.cell ≡ some c)
unfolding cell_in_window
cell_in_window-some gens loc e = entry_of-some (index_of_generation gens loc.generation) loc.cell e

-- The location's own entry after a write to it.
pub cell_in_window-write_cell :
    (gens : List Generation) (loc : TxLoc) (g : Generation) (c c' : CellTx)
    → cell_in_window gens loc ≡ some (g, c)
    → cell_in_window (write_cell gens g loc.cell c') loc
      ≡ some (record g { cells = set g.cells loc.cell c' }, c')
unfolding cell_in_window write_cell entry_of entry replaced
cell_in_window-write_cell gens loc g c c' e =
    let (found, at) = cell_in_window-some gens loc e in
    let g' : Generation = record g { cells = set g.cells loc.cell c' } in
    rw
      (
        index_of_generation-put_generation g' gens loc.generation,
        index_of_generation-number gens loc.generation found,
        ==_refl loc.generation,
        found,
        get_elem?-set_self g.cells loc.cell c' (get_elem?-lt g.cells loc.cell at),
      )
      refl

rank_found : Option CellTx → ℕ
unfolding rank
rank_found none = 0
rank_found (some c) = rank c.state

rank_in : Option Generation → ℕ → ℕ
unfolding rank_found
rank_in none cell = 0
rank_in (some g) cell = rank_found (get_elem? g.cells cell)

-- How far the transaction at a location has got; no transaction is as far as a pending one.
unfoldable pub rank_at : List Generation → TxLoc → ℕ
unfolding rank_in
rank_at gens loc = rank_in (index_of_generation gens loc.generation) loc.cell

rank_in-set :
    (g : Generation) (cell other : ℕ) (c c' : CellTx)
    → get_elem? g.cells cell ≡ some c
    → rank c.state ≤ rank c'.state
    → rank_in (some g) other ≤ rank_in (some (record g { cells = set g.cells cell c' })) other
unfolding rank_in rank_found
rank_in-set g cell other c c' at le = elim (Bool-cases (cell == other)) [
  | inl same ↦
      rw
        (
          ← (==_iff cell other).0 same,
          at,
          get_elem?-set_self g.cells cell c' (get_elem?-lt g.cells cell at),
        )
        le
  | inr ne ↦ rw (get_elem?-set_ne g.cells cell other c' (==→ne cell other ne)) (omega arith)
]

-- A write that does not weaken its own cell weakens none.
pub rank_at-write_cell :
    (gens : List Generation) (loc other : TxLoc) (g : Generation) (c c' : CellTx)
    → cell_in_window gens loc ≡ some (g, c)
    → rank c.state ≤ rank c'.state
    → rank_at gens other ≤ rank_at (write_cell gens g loc.cell c') other
unfolding rank_at write_cell replaced
rank_at-write_cell gens loc other g c c' e le =
    let (found, at) = cell_in_window-some gens loc e in
    let g' : Generation = record g { cells = set g.cells loc.cell c' } in
    rw (index_of_generation-put_generation g' gens other.generation)
      (elim (Bool-cases (g.number == other.generation)) [
        | inl same ↦
            let here : index_of_generation gens other.generation ≡ some g =
              subst (λ n. index_of_generation gens n ≡ some g)
                (sym (index_of_generation-number gens loc.generation found)
                  ∙ (==_iff g.number other.generation).0 same)
                found in
            rw (same, here) (rank_in-set g loc.cell other.cell c c' at le)
        | inr ne ↦ rw ne (omega arith)
      ])
