-- ===== src/Engine/Window.antt =====
-- internal/engine/engine.go and worker.go: the generations held in memory. The slice is read from its
-- end, where the scans start: the list has its last generation first.
pub mod Order
use rule_110_arcade.Base.{
  ℕ, zero, suc, Option, none, some, List, [], ◌∷◌, ltb, ◌==◌, if◌then◌else◌, take,
}
use rule_110_arcade.Ca.{HexText}
use rule_110_arcade.Engine.Runtime.{CellTx, Generation, tx_pending}

abbrev pub max_history : ℕ
max_history = 1024

-- The entry at the index that `indexOfGeneration` gives; `none` is -1.
unfoldable pub index_of_generation : List Generation → ℕ → Option Generation
index_of_generation [] number = none
index_of_generation (g ∷ gens) number =
    let earlier = index_of_generation gens number in
    if g.number == number then some g else if ltb g.number number then none else earlier

-- A write to that entry.
unfoldable pub put_generation : Generation → List Generation → List Generation
put_generation g [] = []
put_generation g (h ∷ gens) =
    let rest = put_generation g gens in if h.number == g.number then g ∷ gens else h ∷ rest

unfoldable pub pending_cells : ℕ → ℕ → List CellTx
pending_cells i zero = []
pending_cells i (suc n) =
    record { cell = i; txid = ""; state = tx_pending; err = "" } ∷ pending_cells (suc i) n

-- The appended generation is swapped down past every later one.
unfoldable pub sink : Generation → List Generation → List Generation
sink g [] = g ∷ []
sink g (h ∷ gens) =
    let rest = sink g gens in if ltb g.number h.number then h ∷ rest else g ∷ h ∷ gens

-- `ensureGeneration` in memory, in a ring of `cells` cells.
unfoldable pub ensure_generation : ℕ → ℕ → HexText → List Generation → List Generation
unfolding index_of_generation pending_cells sink
ensure_generation cells number row_hex gens = elim (index_of_generation gens number) [
  | some _ ↦ gens
  | none ↦
      take max_history
        (sink (record { number = number; row_hex = row_hex; cells = pending_cells 0 cells }) gens)
]
