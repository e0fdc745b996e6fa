-- ===== src/Engine/Repair/Recovered.antt =====
-- internal/engine/recovery.go: what a recovery of all cells leaves of their positions.
use rule_110_arcade.Base.{
  ℕ, suc, ◌≡◌, ◌⊎◌, inl, inr, refl, true, false, Option, none, some, List, [], ◌∷◌, String,
  Option-cases,
}
use rule_110_arcade.Cellscript.{Compiled}
use rule_110_arcade.Chain.{Sdk, Ledger}
use rule_110_arcade.Chain.Recover.{Recovery}
use rule_110_arcade.Chain.Oracle.{ArcadeStatus}
use rule_110_arcade.History.{Store}
use rule_110_arcade.Engine.Rows.{Deployment, CellPosition}
use rule_110_arcade.Engine.Repair.{
  is_halt, released, RecoverOptions, CellRecovery, apply_recovery, decide_cell,
}
use rule_110_arcade.Engine.Repair.Passes.{recover_from, recover}
use rule_110_arcade.Engine.Repair.Releases.{Release}

-- What the decision `r` on the position `p` leaves: all as it was, or the position of a cell that a
-- recovery which is no halt releases.
abbrev IsApplied : Store → CellPosition → Recovery → Store → CellPosition → Type 0
IsApplied s p r s' q = ((q ≡ p) × (s' ≡ s)) ⊎ ((is_halt r.verdict ≡ false) × (q ≡ released r.tip))

module _ (k : Sdk) (l : Ledger) (c : Compiled) (d : Deployment)
    (oracle : Option (String → Option ArcadeStatus)) (now : ℕ) (opts : RecoverOptions) where
  -- From the store `s` to `s'`: the cell and the store are as they were, or the recovery was to be
  -- applied, and writes to the store and releases the cell on a tip that it has grounds for by what
  -- `s` holds.
  abbrev pub IsRecovered : ℕ → Store → CellPosition → Store → CellPosition → Type 0
  IsRecovered cell s p s' q =
      ((q ≡ p) × (s' ≡ s))
      ⊎ ((opts.apply ≡ true)
          × (q ≡ released q.tip)
          × Release k l c d oracle s p opts.retry_refused q.tip
          × ((r : Recovery) × (apply_recovery s cell now p r ≡ some (s', q))))

  -- The cells from `cell` on, one after the other, each by what the store holds after those before it.
  abbrev pub AreRecovered : ℕ → Store → List CellPosition → Store → List CellPosition → Type 0
  AreRecovered cell s [] s' [] = s' ≡ s
  AreRecovered cell s [] s' (q ∷ qs) = ⊥
  AreRecovered cell s (p ∷ ps) s' [] = ⊥
  AreRecovered cell s (p ∷ ps) s' (q ∷ qs) =
      (t : Store) × IsRecovered cell s p t q × AreRecovered (suc cell) t ps s' qs

  abbrev Recovers :
      ℕ
      → Store
      → List CellPosition
      → Option (Store × List CellPosition × List CellRecovery)
      → Type 0
  Recovers cell s ps none = Unit {0}
  Recovers cell s ps (some w) = AreRecovered cell s ps w.0 w.1

module _ (k : Sdk) (l : Ledger) (c : Compiled) (d : Deployment)
    (oracle : Option (String → Option ArcadeStatus)) where
  -- The decisions on the cells from `cell` on, from one store.
  unfoldable pub decide_all : Store → RecoverOptions → ℕ → List CellPosition → List CellRecovery
  unfolding decide_cell
  decide_all s opts cell [] = []
  decide_all s opts cell (p ∷ ps) =
      let rest = decide_all s opts (suc cell) ps in
      elim (decide_cell k l c d oracle s p opts.retry_refused) [
        | none ↦ rest
        | some r ↦ record { cell = cell; recovery = r } ∷ rest
      ]

  recover_from-dry :
      (s : Store) (now : ℕ) (opts : RecoverOptions) (cell : ℕ) (ps : List CellPosition)
      → opts.apply ≡ false
      → recover_from k l c d oracle s now opts cell ps ≡ some (s, ps, decide_all s opts cell ps)
  unfolding recover_from decide_all
  recover_from-dry s now opts cell [] dry = refl
  recover_from-dry s now opts cell (p ∷ ps) dry =
      let rest = recover_from-dry s now opts (suc cell) ps dry in
      elim (Option-cases (decide_cell k l c d oracle s p opts.retry_refused)) [
        | inl none_here ↦ rw (recover_from, decide_all, none_here, rest) refl
        | inr (r, e) ↦ rw (recover_from, decide_all, e, dry, rest) refl
      ]

  -- A recovery that is not to be applied never fails, and leaves the store and the positions: it only
  -- reports what is decided about each cell.
  pub recover-dry :
      (s : Store) (now : ℕ) (opts : RecoverOptions) (ps : List CellPosition)
      → opts.apply ≡ false
      → recover k l c d oracle s now opts ps ≡ some (s, ps, decide_all s opts 0 ps)
  unfolding recover
  recover-dry s now opts ps dry = recover_from-dry s now opts 0 ps dry
