-- ===== src/Engine/Rows.antt =====
-- internal/engine/derive.go: the recomputed rows, and the derivation of every cell's position from them
-- and the records. `none` is an error that ends the derivation.
pub mod Computed
pub mod Derived
pub mod Floor
use rule_110_arcade.Base.{
  ℕ, zero, suc, Bool, true, false, not, Option, none, some, ◌>>=◌, List, [], ◌∷◌, String, leb, ◌==◌,
  if◌then◌else◌, is_empty, map, any, max, put, get_elem?, str_eq, filter,
}
use rule_110_arcade.Ca.{Row, Rule, HexText, hex, seed_hex, equal, step as next_row}
use rule_110_arcade.Cellscript.{Compiled}
use rule_110_arcade.Chain.{CellChain, no_chain, Sdk, Ledger}
use rule_110_arcade.Chain.Tips.{derive_tip}
use rule_110_arcade.Chain.Oracle.{ArcadeStatus, refused_by_network}
use rule_110_arcade.History.{Store, row_at}
use rule_110_arcade.History.Tips.{Tip, cell_tips, deep_tip, rejected_txids}
use rule_110_arcade.Engine.Derive.{Position, Claim, tip_depth, classify}

-- `Deployment`, as far as derivation reads it.
pub record Deployment : Type 0 where
  pub cells : ℕ
  pub rule : Rule
  pub genesis_txid : String
  pub seed : HexText

pub record CellPosition : Type 0 where
  pub tip : CellChain
  pub position : Position
  pub open position use *

-- The map from generations to rows is a function.
abbrev pub keep_row : (ℕ → Bool) → ℕ → Row → (ℕ → Option Row) → ℕ → Option Row
keep_row wanted g row out = if wanted g then put out g (some row) else out

-- The loop of `computeRows` with `turns` generations left, the first of them `g`; `none` is a panic of
-- `Step`.
unfoldable pub compute_loop :
    Rule → (ℕ → Bool) → ℕ → ℕ → Row → (ℕ → Option Row) → Option (ℕ → Option Row)
compute_loop rule wanted zero g row out = some out
compute_loop rule wanted (suc turns) g row out = do
  next ← next_row rule row
  compute_loop rule wanted turns (suc g) next (keep_row wanted g next out)

unfoldable pub compute_rows : Row → Rule → (ℕ → Bool) → ℕ → Option (ℕ → Option Row)
unfolding compute_loop
compute_rows seed rule wanted highest =
    compute_loop rule wanted highest 1 seed (keep_row wanted 0 seed (λ g. none))

-- What the store recorded for a generation agrees, if it recorded anything.
unfoldable pub agrees : Option HexText → Row → Bool
agrees none row = true
agrees (some []) row = true
agrees (some (h ∷ hs)) row = equal (h ∷ hs) (hex row)

unfoldable pub agrees? : Option HexText → Option Row → Bool
unfolding agrees
agrees? recorded none = true
agrees? recorded (some row) = agrees recorded row

-- `crossCheckRows` over the generations that have a row, in any order; no error is true.
unfoldable pub cross_check_rows : Store → (ℕ → Option Row) → List ℕ → Bool
unfolding agrees? row_at
cross_check_rows s rows [] = true
cross_check_rows s rows (g ∷ gens) =
    let rest = cross_check_rows s rows gens in if agrees? (row_at s g) (rows g) then rest else false

unfoldable pub classify_from : String → Store → ℕ → List (List Tip) → List (Claim × Position)
unfolding classify deep_tip
classify_from genesis_txid s cell [] = []
classify_from genesis_txid s cell (rows ∷ records) =
    classify genesis_txid rows (deep_tip s cell) ∷ classify_from genesis_txid s (suc cell) records

-- The generations of the claims that name a transaction.
unfoldable pub claimed : List (Claim × Position) → List ℕ
claimed [] = []
claimed ((claim, p) ∷ claims) =
    let rest = claimed claims in if is_empty claim.txid then rest else claim.gen ∷ rest

unfoldable pub highest_of : List ℕ → ℕ
highest_of [] = 0
highest_of (g ∷ gens) = max g (highest_of gens)

module _ (k : Sdk) (l : Ledger) (c : Compiled) (d : Deployment) where
  -- One turn of the second loop over the cells, on the bytes that `fetchRaw` gives.
  unfoldable pub place_cell : (ℕ → Option Row) → ℕ → Claim → Position → Option CellPosition
  unfolding derive_tip
  place_cell rows cell claim p =
      if is_empty claim.txid then some (record { tip = no_chain; position = p }) else (do
        raw ← l.raw_tx claim.txid
        row ← rows claim.gen
        tip ← derive_tip k c cell claim.gen row claim.txid raw
        some (record { tip = tip; position = p }))

  unfoldable pub place_cells :
      (ℕ → Option Row) → ℕ → List (Claim × Position) → Option (List CellPosition)
  unfolding place_cell
  place_cells rows cell [] = some []
  place_cells rows cell ((claim, p) ∷ claims) = do
    rest ← place_cells rows (suc cell) claims
    here ← place_cell rows cell claim p
    some (here ∷ rest)

  -- `DeriveTips` on a store that answers.
  unfoldable pub derive_tips : Store → Option (List CellPosition)
  unfolding seed_hex cell_tips classify_from claimed highest_of compute_rows cross_check_rows
      place_cells
  derive_tips s = do
    seed ← seed_hex d.cells d.seed
    records ← cell_tips s d.cells tip_depth
    let claims = classify_from d.genesis_txid s 0 records
    let gens = claimed claims
    rows ← compute_rows seed d.rule (λ g. any (λ h. h == g) gens) (highest_of gens)
    if not (cross_check_rows s rows gens) then none else place_cells rows 0 claims

-- `networkRefused`: the answer, if there is one.
unfoldable pub network_refused : Option (String → Option ArcadeStatus) → String → Bool
unfolding refused_by_network
network_refused none txid = false
network_refused (some get) txid = elim (get txid) [
  | none ↦ false
  | some status ↦ refused_by_network status
]

-- One tip that an older build recorded: it stands at or above its floor, or needs none.
unfoldable pub above_floor :
    Option (String → Option ArcadeStatus) → List CellPosition → List String → CellChain → Bool
unfolding network_refused
above_floor oracle positions refused t = elim (get_elem? positions t.cell) [
  | none ↦ true
  | some p ↦
      if is_empty t.txid
      then true
      else if any (λ id. str_eq id t.txid) refused
      then true
      else if leb t.generation p.tip.generation
      then true
      else network_refused oracle t.txid
]

-- no error
unfoldable pub check_migration_floor :
    Store → Option (String → Option ArcadeStatus) → List CellPosition → List CellChain → Bool
unfolding above_floor rejected_txids
check_migration_floor s oracle positions legacy =
    let refused =
      rejected_txids s
        (filter (λ id. not (is_empty id)) (map (λ (t : CellChain). t.txid) legacy)) in
    not (any (λ t. not (above_floor oracle positions refused t)) legacy)
