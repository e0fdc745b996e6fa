-- ===== src/Engine/Repair/Outcome.antt =====
-- internal/engine/recovery.go: how the repair of a refused cell ends.
use rule_110_arcade.Base.{
  ℕ, zero, suc, ◌<◌, ◌≡◌, ◌⊎◌, inl, inr, refl, true, false, Option, none, some, List, String, put,
  get_elem?, length, length-set, get_elem?-set_self, if_either, Bool-cases, ==_refl,
}
use rule_110_arcade.Cellscript.{Compiled}
use rule_110_arcade.Chain.{Sdk, Ledger}
use rule_110_arcade.Chain.Recover.{Recovery}
use rule_110_arcade.Chain.Oracle.{ArcadeStatus}
use rule_110_arcade.History.{Store}
use rule_110_arcade.Engine.Derive.{max_wreckage}
use rule_110_arcade.Engine.Rows.{Deployment, CellPosition, derive_tips}
use rule_110_arcade.Engine.Runtime.{
  Runtime, HaltReason, derived_as, not_derived, outside_ring, decided_halt, not_applied,
  not_clearing,
}
use rule_110_arcade.Engine.Repair.{
  is_halt, apply_recovery, adopt_repaired, halt_repair, decide_cell,
}
use rule_110_arcade.Engine.Repair.Passes.{
  repair_applied, repair_decided, repair_at, repair_pass, repair_passes, repair_cell,
}

module _ (k : Sdk) (l : Ledger) (c : Compiled) (d : Deployment)
    (oracle : Option (String → Option ArcadeStatus)) where
  -- The cell is stopped, and a reason says why.
  abbrev pub IsStopped : ℕ → Runtime → Type 0
  IsStopped cell e =
      (e.engine.halted cell ≡ true) × ((reason : HaltReason) × (e.halt_reason cell ≡ some reason))

  -- The cell runs on the tip that a derivation from the store gives it, which finds nothing above it.
  pub record IsReleased (cell : ℕ) (e : Runtime) (s : Store) : Type 0 where
    pub positions : List CellPosition
    pub here : CellPosition
    pub live : e.engine.halted cell ≡ false
    pub derived : derive_tips k l c d s ≡ some positions
    pub own : get_elem? positions cell ≡ some here
    pub unhalted : here.halted ≡ false
    pub settled : decide_cell k l c d oracle s here true ≡ none
    pub placed : get_elem? e.engine.tips cell ≡ some here.tip

  abbrev pub IsRepaired : ℕ → Runtime × Store → Type 0
  IsRepaired cell (e, s) = (e.needs_repair cell ≡ false) × (IsStopped cell e ⊎ IsReleased cell e s)

  halt_repair-IsRepaired :
      (e : Runtime) (s : Store) (cell : ℕ) (reason : HaltReason)
      → IsRepaired cell (halt_repair e cell reason, s)
  unfolding halt_repair
  halt_repair-IsRepaired e s cell reason = rw (==_refl cell) (refl, inl (refl, (reason, refl)))

  adopt_repaired-IsRepaired :
      (e : Runtime) (s : Store) (cell : ℕ) (ps : List CellPosition) (p : CellPosition)
      → e.needs_repair cell ≡ false
      → cell < length e.engine.tips
      → derive_tips k l c d s ≡ some ps
      → get_elem? ps cell ≡ some p
      → decide_cell k l c d oracle s p true ≡ none
      → IsRepaired cell (adopt_repaired e cell p, s)
  unfolding adopt_repaired
  adopt_repaired-IsRepaired e s cell ps p idle inside derived own settled = (
    idle,
    elim (Bool-cases p.halted) [
      | inl h ↦ inl (rw (==_refl cell, h) (refl, (derived_as p.halt_reason, refl)))
      | inr h ↦ inr (record {
        positions = ps;
        here = p;
        live = rw (==_refl cell, h) refl;
        derived = derived;
        own = own;
        unhalted = h;
        settled = settled;
        placed = get_elem?-set_self e.engine.tips cell p.tip inside;
      })
    ],
  )

  length-adopt_repaired :
      (e : Runtime) (cell : ℕ) (p : CellPosition)
      → length (adopt_repaired e cell p).engine.tips ≡ length e.engine.tips
  unfolding adopt_repaired
  length-adopt_repaired e cell p = length-set e.engine.tips cell p.tip

  module _ (again : Runtime → Store → Runtime × Store) (e : Runtime) (s : Store) (cell now : ℕ)
      (idle : e.needs_repair cell ≡ false) (inside : cell < length e.engine.tips)
      (later : (e' : Runtime) (s' : Store)
        → e'.needs_repair cell ≡ false
        → cell < length e'.engine.tips
        → IsRepaired cell (again e' s')) where
    repair_applied-IsRepaired :
        (found : Option (Store × CellPosition))
        → IsRepaired cell (repair_applied k l c d oracle again e s cell now found)
    unfolding repair_applied
    repair_applied-IsRepaired none = halt_repair-IsRepaired e s cell not_applied
    repair_applied-IsRepaired (some (s', applied)) =
        later (adopt_repaired e cell applied) s' (unfold adopt_repaired in idle)
          (rw (length-adopt_repaired e cell applied) inside)

    repair_decided-IsRepaired :
        (ps : List CellPosition) (p : CellPosition) (decided : Option Recovery)
        → derive_tips k l c d s ≡ some ps
        → get_elem? ps cell ≡ some p
        → decide_cell k l c d oracle s p true ≡ decided
        → IsRepaired cell (repair_decided k l c d oracle again e s cell now p decided)
    unfolding repair_decided
    repair_decided-IsRepaired ps p none derived own settled =
        adopt_repaired-IsRepaired e s cell ps p idle inside derived own settled
    repair_decided-IsRepaired ps p (some rec) derived own decided =
        if_either (IsRepaired cell) (is_halt rec.verdict) (halt_repair e cell decided_halt, s)
          (repair_applied k l c d oracle again e s cell now (apply_recovery s cell now p rec))
          (halt_repair-IsRepaired e s cell decided_halt)
          (repair_applied-IsRepaired (apply_recovery s cell now p rec))

    repair_at-IsRepaired :
        (ps : List CellPosition) (found : Option CellPosition)
        → derive_tips k l c d s ≡ some ps
        → get_elem? ps cell ≡ found
        → IsRepaired cell (repair_at k l c d oracle again e s cell now found)
    unfolding repair_at
    repair_at-IsRepaired ps none derived own = halt_repair-IsRepaired e s cell outside_ring
    repair_at-IsRepaired ps (some p) derived own =
        repair_decided-IsRepaired ps p (decide_cell k l c d oracle s p true) derived own refl

    repair_pass-IsRepaired :
        (derived : Option (List CellPosition))
        → derive_tips k l c d s ≡ derived
        → IsRepaired cell (repair_pass k l c d oracle again e s cell now derived)
    unfolding repair_pass
    repair_pass-IsRepaired none e' = halt_repair-IsRepaired e s cell not_derived
    repair_pass-IsRepaired (some ps) e' = repair_at-IsRepaired ps (get_elem? ps cell) e' refl

  repair_passes-IsRepaired :
      (passes : ℕ) (e : Runtime) (s : Store) (cell now : ℕ)
      → e.needs_repair cell ≡ false
      → cell < length e.engine.tips
      → IsRepaired cell (repair_passes k l c d oracle passes e s cell now)
  unfolding repair_passes
  repair_passes-IsRepaired zero e s cell now idle inside =
      halt_repair-IsRepaired e s cell not_clearing
  repair_passes-IsRepaired (suc passes) e s cell now idle inside =
      repair_pass-IsRepaired (λ e' s'. repair_passes k l c d oracle passes e' s' cell now) e s cell
        now idle inside (λ e' s' i h. repair_passes-IsRepaired passes e' s' cell now i h)
        (derive_tips k l c d s) refl

  -- The repair of a refused cell of the ring ends within four passes and leaves it scheduled for no
  -- other: either it is halted with a reason, or it is not, and stands on the tip that a derivation
  -- from the store as the repair left it gives it, one that derivation does not halt and recovery
  -- finds nothing to decide about.
  pub repair_cell-IsRepaired :
      (e : Runtime) (s : Store) (cell now : ℕ)
      → cell < length e.engine.tips
      → IsRepaired cell (repair_cell k l c d oracle e s cell now)
  unfolding repair_cell
  repair_cell-IsRepaired e s cell now inside =
      repair_passes-IsRepaired (suc max_wreckage)
        (record e { needs_repair = put e.needs_repair cell false }) s cell now
        (rw (==_refl cell) refl) inside
