-- ===== src/History/Load.antt =====
-- internal/history/history.go: the queries that read many rows, with their orders and limits. A
-- number is a primary key of generations, as a generation and a cell are of cell_txs.
use rule_110_arcade.Base.{
  ℕ, true, false, not, Option, none, some, List, [], ◌∷◌, leb, ltb, ◌==◌, if◌then◌else◌, filter,
  take, length, is_empty, max, min, set, replicate, codes,
}
use rule_110_arcade.Base.Sort.{sort_asc}
use rule_110_arcade.Ca.{HexText}
use rule_110_arcade.History.{
  Status, attempting, broadcast, seen, mined, failed, other, is_terminal, CellTx, Generation, Store,
}

-- `Generation` with its transactions.
pub record Loaded : Type 0 where
  pub number : ℕ
  pub row_hex : HexText
  pub txs : List CellTx

-- SELECT number, row_hex … WHERE number >= ? ORDER BY number LIMIT ?
unfoldable pub window : Store → ℕ → ℕ → List Generation
unfolding sort_asc
window s from limit =
    take limit (sort_asc (λ g. g.number) (filter (λ g. leb from g.number) s.generations))

unfoldable pub last_number : ℕ → List Generation → ℕ
last_number n [] = n
last_number n (g ∷ gens) = last_number g.number gens

-- ORDER BY generation, cell
unfoldable pub in_order : List CellTx → List CellTx
unfolding sort_asc
in_order txs = sort_asc (λ t. t.generation) (sort_asc (λ t. t.cell) txs)

-- WHERE generation >= ? AND generation <= ?
unfoldable pub between : ℕ → ℕ → List CellTx → List CellTx
between first last txs =
    filter (λ t. if leb first t.generation then leb t.generation last else false) txs

-- The loop that gives each transaction to its generation.
unfoldable pub attach : List CellTx → List Generation → List Loaded
attach txs [] = []
attach txs (g ∷ gens) =
    record {
      number = g.number;
      row_hex = g.row_hex;
      txs = filter (λ t. t.generation == g.number) txs;
    }
    ∷ attach txs gens

unfoldable pub load_window : Store → List Generation → List Loaded
unfolding last_number in_order between attach
load_window s [] = []
load_window s (g ∷ gens) =
    attach (in_order (between g.number (last_number g.number gens) s.cell_txs)) (g ∷ gens)

-- `Store.Load`
unfoldable pub load : Store → ℕ → ℕ → List Loaded
unfolding window load_window
load s from limit = load_window s (window s from limit)

-- WHERE status NOT IN ('mined', 'failed') ORDER BY generation, cell
unfoldable pub unsettled : Store → List CellTx
unfolding in_order is_terminal
unsettled s = in_order (filter (λ t. not (is_terminal t.status)) s.cell_txs)

-- `before` is the time of the call less the age.
unfoldable pub stale : Store → ℕ → ℕ → List CellTx
unfolding sort_asc is_terminal
stale s before limit = take limit (
    sort_asc (λ t. t.updated_at)
      (filter
        (λ t.
          if is_terminal t.status
          then false
          else if is_empty t.txid
          then false
          else ltb t.updated_at before)
        s.cell_txs))

unfoldable pub highest_number : List Generation → ℕ
highest_number [] = 0
highest_number (g ∷ gens) = max g.number (highest_number gens)

unfoldable pub lowest_number : ℕ → List Generation → ℕ
lowest_number n [] = n
lowest_number n (g ∷ gens) = min g.number (lowest_number n gens)

pub record Stats : Type 0 where
  pub generations : ℕ
  pub txs : ℕ
  pub unsettled : ℕ
  pub latest : ℕ

unfoldable pub stats : Store → Stats
unfolding highest_number is_terminal
stats s = record {
  generations = length s.generations;
  txs = length s.cell_txs;
  unsettled = length (filter (λ t. not (is_terminal t.status)) s.cell_txs);
  latest = highest_number s.generations;
}

-- The oldest and the newest generation, if there is one.
unfoldable pub extent_of : List Generation → Option (ℕ × ℕ)
unfolding highest_number lowest_number
extent_of [] = none
extent_of (g ∷ gens) = some (lowest_number g.number gens, highest_number (g ∷ gens))

unfoldable pub extent : Store → Option (ℕ × ℕ)
unfolding extent_of
extent s = extent_of s.generations

pub record CompactGeneration : Type 0 where
  pub number : ℕ
  pub row_hex : HexText
  pub states : List ℕ

-- The text of the column.
unfoldable pub status_text : Status → List ℕ
status_text attempting = codes "attempting"
status_text broadcast = codes "broadcast"
status_text seen = codes "seen"
status_text mined = codes "mined"
status_text failed = codes "failed"
status_text (other t) = codes t

-- `state[i][cell] = status[0]`, if there is a first letter and the cell is in the ring.
unfoldable pub write_state : List ℕ → ℕ → List ℕ → List ℕ
write_state [] cell states = states
write_state (letter ∷ letters) cell states = set states cell letter

unfoldable pub states_of : ℕ → List CellTx → List ℕ → List ℕ
unfolding write_state status_text
states_of number [] states = states
states_of number (t ∷ txs) states =
    states_of number txs
      (if t.generation == number then write_state (status_text t.status) t.cell states else states)

unfoldable pub compact : ℕ → List CellTx → List Generation → List CompactGeneration
unfolding states_of
compact cells txs [] = []
compact cells txs (g ∷ gens) =
    record {
      number = g.number;
      row_hex = g.row_hex;
      states = states_of g.number txs (replicate cells b'-');
    }
    ∷ compact cells txs gens

unfoldable pub compact_window : Store → ℕ → List Generation → List CompactGeneration
unfolding last_number between compact
compact_window s cells [] = []
compact_window s cells (g ∷ gens) =
    compact cells (between g.number (last_number g.number gens) s.cell_txs) (g ∷ gens)

-- `Store.LoadCompact`
unfoldable pub load_compact : Store → ℕ → ℕ → ℕ → List CompactGeneration
unfolding window compact_window
load_compact s from limit cells =
    if (if limit == 0 then true else cells == 0)
    then []
    else compact_window s cells (window s from limit)
