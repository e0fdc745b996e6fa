-- ===== src/Examples/Turns.antt =====
-- An engine of two cells: the clock, the frontier and the turns.
use rule_110_arcade.Base.{
  List, ℕ, ◌+◌, ◌≤◌, ◌<◌, ◌≡◌, ◌↔◌, ◌⊎◌, refl, arith, max, Bool, true, false, none, some, [], ◌∷◌,
  ◌==◌, get_elem?,
}
use rule_110_arcade.Chain.{CellChain}
use rule_110_arcade.Engine.Worker.{
  running, starved, Engine, raise_target, turn_ready, frontier_locked,
}
use rule_110_arcade.Engine.Leadership.{Derived, Renewal, renew_all}
use rule_110_arcade.Engine.Trust.{may_advance, derived_since, renew_all-may_advance}
use rule_110_arcade.Engine.Clock.{raise_target_lem}
use rule_110_arcade.Engine.Gates.{turn_ready_lem}
use rule_110_arcade.Engine.Frontier.{frontier_locked_lem}

abbrev pub tip_at : ℕ → ℕ → CellChain
tip_at c g = record {
  cell = c;
  txid = "t";
  vout = 0;
  satoshis = 1;
  generation = g;
  row_hex = [];
  raw_tx_hex = [];
}

abbrev pub engine : Engine
engine = record {
  mode = running;
  target = 9;
  generation = 5;
  tips = tip_at 0 7 ∷ tip_at 1 12 ∷ [];
  halted = λ i. i == 0;
  last_mined = λ i. 6;
  last_seen = λ i. 6;
  leader = true;
  needs_rederive = false;
  starved_since = none;
  last_probe = 0;
  waiting_on_coin = λ i. false;
  lock_controls = false;
  max_lag = 4;
  max_unconfirmed_depth = 5;
  max_unseen_depth = 2;
}

-- Cell 0 is halted, so the frontier jumps past the target.
frontier_jumps : frontier_locked engine ≡ 12
unfolding frontier_locked
frontier_jumps = refl

raise_target_lem_example :
    (9 ≤ (raise_target engine running 12).target)
    × (12 ≤ (raise_target engine running 12).target)
    × ((0 < 4) → (9 < 12 + 4) → (raise_target engine running 12).target ≡ max 9 12 + 1)
    × ((12 + 4 ≤ 9) → (raise_target engine running 12).target ≡ 9)
raise_target_lem_example = raise_target_lem engine 12 (omega arith) (omega arith)

frontier_locked_lem_example :
    ((i : ℕ) (c : CellChain)
      → get_elem? engine.tips i ≡ some c
      → (i == 0) ≡ false
      → frontier_locked engine ≤ c.generation)
    × (((i : ℕ) × (c : CellChain) × (get_elem? engine.tips i ≡ some c)
          × ((i == 0) ≡ false)
          × (frontier_locked engine ≡ c.generation))
        ⊎ (((i : ℕ) (c : CellChain) → get_elem? engine.tips i ≡ some c → (i == 0) ≡ true)
            × (frontier_locked engine ≡ 5)))
frontier_locked_lem_example = frontier_locked_lem engine

turn_ready_lem_example :
    (ready : Bool) × (turn_ready engine 100 0 ≡ some (engine, ready))
    × ((ready ≡ true) ↔ (
        (true ≡ true)
        × (false ≡ false)
        × (7 < 9)
        × (0 < 2 → 7 < 6 + 2)
        × (0 < 5 → (6 ≤ 7) × (7 < 6 + 5))))
turn_ready_lem_example =
    turn_ready_lem engine 100 0 (tip_at 0 7) refl refl (omega arith) (omega arith) (omega arith)

abbrev hungry : Engine
hungry = record engine { mode = starved }

-- The lease is taken, lost, and taken again; only the last renewal derives the tips anew.
abbrev positions : List Derived
positions =
    record { tip = tip_at 0 8; halted = false } ∷ record { tip = tip_at 1 11; halted = false } ∷ []

abbrev renewals : List Renewal
renewals =
    record { held = true; derived = some positions }
    ∷ record { held = false; derived = none }
    ∷ record { held = true; derived = some positions }
    ∷ []

abbrev standby : Engine
standby = record engine { leader = false; needs_rederive = true }

renew_all-may_advance_example : may_advance (renew_all standby renewals) ≡ derived_since renewals
renew_all-may_advance_example = renew_all-may_advance standby renewals refl
