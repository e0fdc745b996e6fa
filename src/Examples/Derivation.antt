-- ===== src/Examples/Derivation.antt =====
-- Records of one cell: what a restart derives from them.
use rule_110_arcade.Base.{
  ℕ, ◌+◌, ◌≤◌, ◌<◌, ◌≡◌, ◌↔◌, refl, arith, true, false, none, some, List, [], ◌∷◌, String, length,
}
use rule_110_arcade.Base.Sort.{IsDesc, sort_desc}
use rule_110_arcade.History.{Store, Status, attempting, seen, mined, failed}
use rule_110_arcade.History.Tips.{Tip, DeepTip, tips_of, deep_tip}
use rule_110_arcade.Engine.Derive.{Position, classify, newest_settled, tip_depth}
use rule_110_arcade.Engine.Wreckage.{failures_above, attempts_above}
use rule_110_arcade.Engine.Verdict.{classify_shallow}
use rule_110_arcade.Engine.Quiet.{unhalted_clear}
use rule_110_arcade.Examples.Storage.{store, row_of}

abbrev tip : ℕ → String → Status → Tip
tip g id st = record { cell = 0; generation = g; txid = id; status = st; err = "" }

-- A settled record, two failures above it and one below.
abbrev newer : Tip
newer = tip 9 "c9" failed

abbrev older : List Tip
older = tip 8 "c8" failed ∷ tip 7 "c7" seen ∷ tip 6 "c6" failed ∷ []

abbrev dug : DeepTip
dug = record {
  settled = some (tip 3 "c3" mined);
  failure = none;
  attempt = some (tip 9 "" attempting);
}

older-IsDesc : IsDesc (λ (t : Tip). t.generation) (newer ∷ older)
older-IsDesc = (
  (omega arith, (omega arith, (omega arith, tt))),
  ((omega arith, (omega arith, tt)), ((omega arith, tt), (tt, tt))),
)

older-settled : newest_settled (newer ∷ older) ≡ some (tip 7 "c7" seen)
unfolding newest_settled
older-settled = refl

abbrev judged : Position
judged = (classify "g" (newer ∷ older) dug).1

classify_shallow_example :
    ((classify "g" (newer ∷ older) dug).0 ≡ record { gen = 7; txid = "c7" })
    × ((judged.halted ≡ true) ↔ (
        0 < length (failures_above 7 (newer ∷ older)) + length (attempts_above 7 (newer ∷ older))))
    × ((judged.rejected ≡ true) ↔ (
        (0 < length (failures_above 7 (newer ∷ older)))
        × (length (failures_above 7 (newer ∷ older)) ≤ 3)))
    × ((judged.unknown ≡ true) ↔ (
        (0 < length (attempts_above 7 (newer ∷ older)))
        × (length (failures_above 7 (newer ∷ older)) ≤ 3)))
classify_shallow_example =
    classify_shallow "g" newer older dug (tip 7 "c7" seen) older-IsDesc older-settled

judged-rejected : judged.rejected ≡ true
unfolding classify
judged-rejected = refl

all_failed : newest_settled (newer ∷ []) ≡ none
unfolding newest_settled
all_failed = refl

-- Cell 0 failed in generation 1, went on, and is not halted.
abbrev recovered : Store
recovered = record store {
  cell_txs = row_of 1 0 "b1" failed ∷ row_of 2 0 "c2" mined ∷ row_of 2 1 "d2" seen ∷ [];
}

recovered-runs :
    (classify "g" (tips_of recovered tip_depth 0) (deep_tip recovered 0)).1.halted ≡ false
unfolding classify newest_settled tips_of sort_desc
recovered-runs = refl

unhalted_clear_example :
    1 ≤ (classify "g" (tips_of recovered tip_depth 0) (deep_tip recovered 0)).0.gen
unhalted_clear_example =
    unhalted_clear recovered 0 "g" 0 (row_of 1 0 "b1" failed) recovered-runs refl refl refl
