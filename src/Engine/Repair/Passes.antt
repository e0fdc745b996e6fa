-- ===== src/Engine/Repair/Passes.antt =====
-- internal/engine/recovery.go: the pass over all cells, and the passes that rebuild one refused cell.
use rule_110_arcade.Base.{
  ℕ, zero, suc, true, false, not, Option, none, some, List, [], ◌∷◌, String, if◌then◌else◌, put,
  get_elem?, any,
}
use rule_110_arcade.Cellscript.{Compiled}
use rule_110_arcade.Chain.{Sdk, Ledger}
use rule_110_arcade.Chain.Recover.{Recovery}
use rule_110_arcade.Chain.Oracle.{ArcadeStatus}
use rule_110_arcade.History.{Store}
use rule_110_arcade.Engine.Derive.{max_wreckage}
use rule_110_arcade.Engine.Rows.{Deployment, CellPosition, derive_tips}
use rule_110_arcade.Engine.Runtime.{
  Runtime, not_derived, outside_ring, decided_halt, not_applied, not_clearing,
}
use rule_110_arcade.Engine.Repair.{
  is_halt, RecoverOptions, CellRecovery, apply_recovery, adopt_repaired, halt_repair, decide_cell,
}

module _ (k : Sdk) (l : Ledger) (c : Compiled) (d : Deployment)
    (oracle : Option (String → Option ArcadeStatus)) where
  -- `Recover` from cell `cell` on: the store, the positions and the decisions; `none` is an error of
  -- the store.
  unfoldable pub recover_from :
      Store
      → ℕ
      → RecoverOptions
      → ℕ
      → List CellPosition
      → Option (Store × List CellPosition × List CellRecovery)
  unfolding decide_cell apply_recovery
  recover_from s now opts cell [] = some (s, [], [])
  recover_from s now opts cell (p ∷ ps) = elim (decide_cell k l c d oracle s p opts.retry_refused) [
    | none ↦ elim (recover_from s now opts (suc cell) ps) [
      | none ↦ none
      | some (s', out, decisions) ↦ some (s', p ∷ out, decisions)
    ]
    | some rec ↦ elim (if opts.apply then apply_recovery s cell now p rec else some (s, p)) [
      | none ↦ none
      | some (s', p') ↦ elim (recover_from s' now opts (suc cell) ps) [
        | none ↦ none
        | some (s'', out, decisions) ↦
            some (s'', p' ∷ out, record { cell = cell; recovery = rec } ∷ decisions)
      ]
    ]
  ]

  unfoldable pub recover :
      Store
      → ℕ
      → RecoverOptions
      → List CellPosition
      → Option (Store × List CellPosition × List CellRecovery)
  unfolding recover_from
  recover s now opts positions = recover_from s now opts 0 positions

  -- `recoverUnknown`: an error leaves the positions, halted as they are.
  unfoldable pub recover_unknown : Store → ℕ → List CellPosition → Store × List CellPosition
  unfolding recover
  recover_unknown s now positions =
      if not (any (λ (p : CellPosition). if p.unknown then true else p.rejected) positions)
      then (s, positions)
      else elim (recover s now (record { apply = true; retry_refused = false }) positions) [
        | none ↦ (s, positions)
        | some (s', out, decisions) ↦ (s', out)
      ]

  -- A pass of the loop of `repairCell`, where `again` is what the passes after it do.
  module _ (again : Runtime → Store → Runtime × Store) (e : Runtime) (s : Store)
      (cell now : ℕ) where
    unfoldable pub repair_applied : Option (Store × CellPosition) → Runtime × Store
    unfolding adopt_repaired halt_repair
    repair_applied none = (halt_repair e cell not_applied, s)
    repair_applied (some (s', applied)) = again (adopt_repaired e cell applied) s'

    unfoldable pub repair_decided : CellPosition → Option Recovery → Runtime × Store
    unfolding adopt_repaired halt_repair apply_recovery repair_applied
    repair_decided p none = (adopt_repaired e cell p, s)
    repair_decided p (some rec) =
        if is_halt rec.verdict
        then (halt_repair e cell decided_halt, s)
        else repair_applied (apply_recovery s cell now p rec)

    unfoldable pub repair_at : Option CellPosition → Runtime × Store
    unfolding halt_repair decide_cell repair_decided
    repair_at none = (halt_repair e cell outside_ring, s)
    repair_at (some p) = repair_decided p (decide_cell k l c d oracle s p true)

    unfoldable pub repair_pass : Option (List CellPosition) → Runtime × Store
    unfolding halt_repair repair_at
    repair_pass none = (halt_repair e cell not_derived, s)
    repair_pass (some ps) = repair_at (get_elem? ps cell)

  -- The loop with `passes` left.
  unfoldable pub repair_passes : ℕ → Runtime → Store → ℕ → ℕ → Runtime × Store
  unfolding derive_tips repair_pass
  repair_passes zero e s cell now = (halt_repair e cell not_clearing, s)
  repair_passes (suc passes) e s cell now =
      repair_pass (λ e' s'. repair_passes passes e' s' cell now) e s cell now
        (derive_tips k l c d s)

  unfoldable pub repair_cell : Runtime → Store → ℕ → ℕ → Runtime × Store
  unfolding repair_passes
  repair_cell e s cell now =
      repair_passes (suc max_wreckage) (record e { needs_repair = put e.needs_repair cell false }) s
        cell now
