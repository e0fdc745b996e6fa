-- ===== src/Engine/Buried.antt =====
-- internal/engine/derive.go and internal/history/history.go: the shallow window and the dig below it
-- agree on what a settled record is.
use rule_110_arcade.Base.{
  ℕ, zero, suc, ◌≡◌, refl, sym, ap, ◌∙◌, arith, Bool, true, false, not, some, List, [], ◌∷◌,
  if◌then◌else◌, filter, head?, take, map, is_empty,
}
use rule_110_arcade.Base.Sort.{sort_desc, filter-sort_desc}
use rule_110_arcade.History.{CellTx, Store}
use rule_110_arcade.History.Tips.{
  Tip, tip_of, rows_of, tips_of, is_settled_status, newest, deep_tip,
}
use rule_110_arcade.Engine.Derive.{newest_settled}

-- The rows that count as settled.
abbrev settles : CellTx → Bool
settles t =
    if is_settled_status t.status then (if true then not (is_empty t.txid) else true) else false

newest_settled-head? :
    (ts : List CellTx) → newest_settled (map tip_of ts) ≡ head? (map tip_of (filter settles ts))
unfolding newest_settled tip_of
newest_settled-head? [] = refl
newest_settled-head? (t ∷ ts) = ground (arith, newest_settled-head? ts)

newest_settled-take :
    (n : ℕ) (rows : List Tip) (b : Tip)
    → newest_settled (take n rows) ≡ some b
    → newest_settled rows ≡ some b
unfolding newest_settled
newest_settled-take zero rows b e = cc
newest_settled-take (suc n) [] b e = e
newest_settled-take (suc n) (r ∷ rs) b e = ground (arith, newest_settled-take n rs b)

-- With every record in view the two answers are the same.
newest-settled :
    (s : Store) (cell : ℕ)
    → newest s cell true is_settled_status
      ≡ newest_settled (map tip_of (sort_desc (λ t. t.generation) (rows_of s cell)))
unfolding newest
newest-settled s cell =
    ap (λ ts. head? (map tip_of ts))
      (sym (filter-sort_desc (λ (t : CellTx). t.generation) settles (rows_of s cell)))
    ∙ sym (newest_settled-head? (sort_desc (λ t. t.generation) (rows_of s cell)))

-- When the window of a cell's newest records, of any depth, holds a settled one, `deep_tip` names the
-- same record as `newest_settled`.
pub newest_settled-deep_tip :
    (s : Store) (depth cell : ℕ) (b : Tip)
    → newest_settled (tips_of s depth cell) ≡ some b
    → (deep_tip s cell).settled ≡ some b
unfolding tips_of deep_tip
newest_settled-deep_tip s depth cell b e = newest-settled s cell ∙ newest_settled-take depth _ b e
