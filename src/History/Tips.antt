-- ===== src/History/Tips.antt =====
-- internal/history/history.go: `CellTips` and `DeepTip`, what derivation asks of the store.
use rule_110_arcade.Base.{
  ℕ, zero, suc, refl, Bool, true, false, not, Option, none, some, List, [], ◌∷◌, String, ◌==◌,
  if◌then◌else◌, filter, head?, take, map, leb, is_empty, str_eq,
}
use rule_110_arcade.Base.Sort.{sort_desc, IsDesc, sort_desc-IsDesc, IsDesc-take, IsDesc-map}
use rule_110_arcade.History.{
  Status, broadcast, seen, mined, is_attempting, is_failed, CellTx, Store,
}

pub record Tip : Type 0 where
  pub cell : ℕ
  pub generation : ℕ
  pub txid : String
  pub status : Status
  pub err : String

unfoldable pub tip_of : CellTx → Tip
tip_of t = record {
  cell = t.cell;
  generation = t.generation;
  txid = t.txid;
  status = t.status;
  err = t.err;
}

-- WHERE cell = ?
unfoldable pub rows_of : Store → ℕ → List CellTx
rows_of s cell = filter (λ t. t.cell == cell) s.cell_txs

-- One cell's query: ORDER BY generation DESC LIMIT ?
unfoldable pub tips_of : Store → ℕ → ℕ → List Tip
unfolding rows_of tip_of
tips_of s depth cell = take depth (map tip_of (sort_desc (λ t. t.generation) (rows_of s cell)))

-- The loop over the cells. A cell with no row has no entry in the map, and is read as empty.
tips_from : Store → ℕ → ℕ → ℕ → List (List Tip)
unfolding tips_of
tips_from s depth cell zero = []
tips_from s depth cell (suc n) = tips_of s depth cell ∷ tips_from s depth (suc cell) n

-- `none` is the error for a count or a depth that is not positive.
unfoldable pub cell_tips : Store → ℕ → ℕ → Option (List (List Tip))
unfolding tips_from
cell_tips s cells depth =
    if cells == 0 then none else if depth == 0 then none else some (tips_from s depth 0 cells)

abbrev pub is_settled_status : Status → Bool
is_settled_status mined = true
is_settled_status broadcast = true
is_settled_status seen = true
is_settled_status _ = false

-- The closure `newest`: the newest row of the cell in one of the statuses, naming a transaction if
-- `named` says so.
unfoldable pub newest : Store → ℕ → Bool → (Status → Bool) → Option Tip
unfolding rows_of tip_of
newest s cell named statuses = head? (
    map tip_of (
      sort_desc (λ t. t.generation)
        (filter
          (λ t.
            if statuses t.status then (if named then not (is_empty t.txid) else true) else false)
          (rows_of s cell))))

pub record DeepTip : Type 0 where
  pub settled : Option Tip
  pub failure : Option Tip
  pub attempt : Option Tip

-- A record at or below the settled tip says nothing.
unfoldable pub above : Option Tip → Option Tip → Option Tip
above settled none = none
above none (some t) = some t
above (some b) (some t) = if leb t.generation b.generation then none else some t

unfoldable pub deep_tip : Store → ℕ → DeepTip
unfolding newest above
deep_tip s cell =
    let settled = newest s cell true is_settled_status in
    record {
      settled = settled;
      failure = above settled (newest s cell false is_failed);
      attempt = above settled (newest s cell false is_attempting);
    }

-- SELECT 1 … WHERE txid = ? LIMIT 1
has_row : String → List CellTx → Bool
has_row txid [] = false
has_row txid (t ∷ ts) = if str_eq t.txid txid then true else has_row txid ts

unfoldable pub has_txid : Store → String → Bool
unfolding has_row
has_txid s txid = if is_empty txid then false else has_row txid s.cell_txs

-- The given ids that a `failed` row names, as the map's keys.
unfoldable pub is_rejected : List CellTx → String → Bool
is_rejected [] txid = false
is_rejected (t ∷ ts) txid =
    let rest = is_rejected ts txid in
    if str_eq t.txid txid then (if is_failed t.status then true else rest) else rest

unfoldable pub rejected_txids : Store → List String → List String
unfolding is_rejected
rejected_txids s txids = filter (is_rejected s.cell_txs) txids

-- The records of a cell come newest first.
pub tips_of-IsDesc :
    (s : Store) (depth cell : ℕ) → IsDesc (λ (t : Tip). t.generation) (tips_of s depth cell)
unfolding tips_of tip_of
tips_of-IsDesc s depth cell =
    IsDesc-take (λ (t : Tip). t.generation) depth _
      (IsDesc-map tip_of (λ t. t.generation) (λ t. t.generation) _ (λ x. refl)
        (sort_desc-IsDesc (λ t. t.generation) (rows_of s cell)))
