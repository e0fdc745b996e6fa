-- ===== src/Engine/Leadership.antt =====
-- internal/engine/worker.go and engine.go: the turns of `holdLease`, and what a derivation under
-- the lease installs.
use rule_110_arcade.Base.{
  Bool, false, Option, none, some, List, [], ◌∷◌, ◌++◌, map, drop, length, get_elem?, ltb,
  if◌then◌else◌,
}
use rule_110_arcade.Chain.{CellChain}
use rule_110_arcade.Engine.Worker.{Engine, frontier_locked, set_leader}

-- The fields of `CellPosition` that `applyPositions` installs.
pub record Derived : Type 0 where
  pub tip : CellChain
  pub halted : Bool

-- Every cell of the ring has a position.
unfoldable pub apply_positions : Engine → List Derived → Engine
unfolding frontier_locked
apply_positions e ps =
    let installed : Engine = record e {
      tips = map (λ (p : Derived). p.tip) ps ++ drop (length ps) e.tips;
      halted = λ i. elim (get_elem? ps i) [ none ↦ false | some p ↦ p.halted ];
      last_mined = λ i. elim (get_elem? ps i) [ none ↦ e.last_mined i | some p ↦ p.tip.generation ];
      last_seen = λ i. elim (get_elem? ps i) [ none ↦ e.last_seen i | some p ↦ p.tip.generation ];
    } in
    let f = frontier_locked installed in
    record installed { generation = f; target = if ltb e.target f then f else e.target }

-- `derived` is what the derivation, the migration floor and the recovery give when they are run,
-- and `none` an error of one of them.
unfoldable pub rederive_if_needed : Engine → Option (List Derived) → Engine
unfolding apply_positions
rederive_if_needed e none = e
rederive_if_needed e (some ps) =
    if e.needs_rederive then record (apply_positions e ps) { needs_rederive = false } else e

-- One renewal of the lease: an error of the store counts as not holding it.
pub record Renewal : Type 0 where
  pub held : Bool
  pub derived : Option (List Derived)

unfoldable pub renew : Engine → Renewal → Engine
unfolding set_leader rederive_if_needed
renew e r = let e' = set_leader e r.held in if r.held then rederive_if_needed e' r.derived else e'

-- The renewals of `holdLease`, the last one first.
unfoldable pub renew_all : Engine → List Renewal → Engine
unfolding renew
renew_all e [] = e
renew_all e (r ∷ earlier) = renew (renew_all e earlier) r
