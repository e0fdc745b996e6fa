-- ===== src/Chain/Recover.antt =====
-- internal/chain/recover.go: what to do with a cell whose last transition was attempted and never
-- recorded. A verdict's reason, a text for the operator, is left out.
use rule_110_arcade.Base.{
  ℕ, zero, suc, ◌+◌, ◌-◌, Bool, true, false, not, Option, none, some, List, [], ◌∷◌, ◌++◌, length,
  ltb, leb, ◌==◌, if◌then◌else◌, u64, is_empty,
}
use rule_110_arcade.Ca.{Rule, equal}
use rule_110_arcade.Cellscript.{Compiled}
use rule_110_arcade.Chain.{CellChain, no_chain, Sdk, CellAction, Ledger, tip_row, locking_script}
use rule_110_arcade.Chain.Tips.{verify_successor}

pub data Verdict : Type 0 where
  verdict_halt verdict_resume verdict_adopt : Verdict

pub record Recovery : Type 0 where
  pub verdict : Verdict
  pub tip : CellChain
  pub steps : List CellChain

-- `halt`, and the halts of the walk, which keep the steps.
abbrev pub halt : List CellChain → Recovery
halt steps = record { verdict = verdict_halt; tip = no_chain; steps = steps }

abbrev pub resume : CellChain → Recovery
resume tip = record { verdict = verdict_resume; tip = tip; steps = [] }

-- The loop of `newestCellAction`: the first of the newest.
newest_from : List CellAction → Option CellAction → Option CellAction
newest_from [] found = found
newest_from (a ∷ actions) found =
    let skip = newest_from actions found in
    let take = newest_from actions (some a) in
    if not a.has_generation
    then skip
    else elim found [ none ↦ take | some b ↦ if ltb b.generation a.generation then take else skip ]

unfoldable pub newest_cell_action : List CellAction → Option CellAction
unfolding newest_from
newest_cell_action actions = newest_from actions none

-- `byGen[gen]`: a later action replaces an earlier one of its generation.
unfoldable pub by_gen : List CellAction → ℕ → Option CellAction
by_gen [] gen = none
by_gen (a ∷ actions) gen =
    let rest = by_gen actions gen in
    elim rest [
      | some b ↦ some b
      | none ↦ if a.has_generation then (if a.generation == gen then some a else none) else none
    ]

-- no error
unfoldable pub agrees_with_wallet : Sdk → Compiled → CellAction → CellChain → ℕ → Bool
agrees_with_wallet k c a tip cells =
    if not (a.satoshis == tip.satoshis)
    then false
    else if length a.locking_script == 0
    then true
    else elim (tip_row tip cells) [
      | none ↦ false
      | some row ↦ elim (locking_script k c tip.cell row) [
        | none ↦ false
        | some want ↦ equal a.locking_script want
      ]
    ]

unfoldable pub resume_after : CellChain → List CellChain → Recovery
resume_after tip [] = record { verdict = verdict_resume; tip = tip; steps = [] }
resume_after tip (s ∷ steps) = record { verdict = verdict_adopt; tip = tip; steps = s ∷ steps }

unfoldable pub finish_walk : CellChain → List CellChain → Recovery
finish_walk current [] = halt []
finish_walk current (s ∷ steps) = record {
  verdict = verdict_adopt;
  tip = current;
  steps = s ∷ steps;
}

module _ (k : Sdk) (l : Ledger) (c : Compiled) (n : ℕ) (rule : Rule) where
  -- The loop of `walkForward` with `turns` generations left, the first of them `gen`.
  unfoldable pub walk_loop : List CellAction → ℕ → ℕ → ℕ → CellChain → List CellChain → Recovery
  unfolding by_gen agrees_with_wallet resume_after finish_walk
  walk_loop actions max_walk zero gen current steps = finish_walk current steps
  walk_loop actions max_walk (suc turns) gen current steps =
      if leb max_walk (length steps) then halt steps else elim (by_gen actions gen) [
        | none ↦ halt steps
        | some a ↦
            if is_empty a.txid
            then resume_after current steps
            else if a.is_failed
            then halt steps
            else elim (l.raw_tx a.txid) [
              | none ↦ halt steps
              | some raw ↦ elim (verify_successor k c current n rule a.txid raw) [
                | none ↦ halt steps
                | some next ↦
                    if agrees_with_wallet k c a next n
                    then walk_loop actions max_walk turns (suc gen) next (steps ++ (next ∷ []))
                    else halt steps
              ]
            ]
      ]

  -- Generations below 2 ^ 64 - 1, so that the loop's counter does not wrap around.
  unfoldable pub walk_forward : CellChain → List CellAction → ℕ → ℕ → Recovery
  unfolding walk_loop
  walk_forward tip actions newest max_walk =
      walk_loop actions max_walk (newest - tip.generation) (tip.generation + 1) tip []

  -- What `RecoverCell` does with the actions, of which the wallet has `total`.
  unfoldable pub judge_actions : CellChain → ℕ → ℕ → List CellAction → ℕ → Recovery
  unfolding walk_forward newest_cell_action
  judge_actions tip attempted max_walk actions total =
      if total == 0
      then (if ltb 0 tip.generation then halt [] else resume tip)
      else elim (newest_cell_action actions) [
        | none ↦ halt []
        | some newest ↦
            if ltb newest.generation attempted
            then resume tip
            else if (if newest.generation == attempted then is_empty newest.txid else false)
            then resume tip
            else walk_forward tip actions newest.generation max_walk
      ]

  -- The limit is not negative here, and 0 stands for the default.
  unfoldable pub recover_cell : CellChain → ℕ → ℕ → Recovery
  unfolding judge_actions
  recover_cell tip attempted max_walk =
      let limit = if max_walk == 0 then 8 else max_walk in
      if not (attempted == u64 (tip.generation + 1))
      then halt []
      else elim (l.cell_actions tip.cell limit) [
        | none ↦ halt []
        | some (actions, total) ↦ judge_actions tip attempted limit actions total
      ]
