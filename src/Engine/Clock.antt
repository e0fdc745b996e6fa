-- ===== src/Engine/Clock.antt =====
-- internal/engine/worker.go: how far the clock runs ahead of the cells.
use rule_110_arcade.Base.{ℕ, ◌+◌, ◌≤◌, ◌<◌, ◌≡◌, arith, max}
use rule_110_arcade.Engine.Worker.{running, Engine, raise_target}

-- The write of a running clock's turn, for the frontier that it read, on numbers below 2 ^ 64 - 1: the
-- target does not fall and is at the frontier at least. If the allowed lag is not 0 and the target was
-- less than it ahead of the frontier, or behind the frontier, it rises one above the higher of the two.
-- If it was the allowed lag ahead or more, it stays.
pub raise_target_lem :
    (e : Engine) (frontier : ℕ)
    → e.target < 18446744073709551615
    → frontier < 18446744073709551615
    → let t = (raise_target e running frontier).target in
      (e.target ≤ t)
      × (frontier ≤ t)
      × ((0 < e.max_lag) → (e.target < frontier + e.max_lag) → t ≡ max e.target frontier + 1)
      × ((frontier + e.max_lag ≤ e.target) → t ≡ e.target)
unfolding raise_target
raise_target_lem e frontier h k = ground arith
