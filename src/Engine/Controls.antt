-- ===== src/Engine/Controls.antt =====
-- internal/engine/engine.go: what the controls do to the target.
use rule_110_arcade.Base.{◌+◌, ◌<◌, ◌≡◌, refl, arith, max, true, false, if_true}
use rule_110_arcade.Engine.Worker.{Mode, paused, running, Engine, frontier_locked, set_mode, step}

-- Free controls: a run starts at the target or the frontier, the higher of the two, a pause leaves the
-- target, and a single step asks for one generation above the higher of the two. Locked controls change
-- nothing. (The target and the frontier are below 2 ^ 64 - 1.)
pub controls_lem :
    (e : Engine) (m : Mode)
    → e.target < 18446744073709551615
    → frontier_locked e < 18446744073709551615
    → (e.lock_controls ≡ false
        → ((set_mode e running).mode ≡ running)
          × ((set_mode e running).target ≡ max e.target (frontier_locked e))
          × ((set_mode e paused).mode ≡ paused)
          × ((set_mode e paused).target ≡ e.target)
          × ((step e).target ≡ max e.target (frontier_locked e) + 1))
      × (e.lock_controls ≡ true → (set_mode e m ≡ e) × (step e ≡ e))
unfolding set_mode step
controls_lem e m h k = (
  λ free. rw free (refl, ground arith, refl, refl, ground arith),
  λ locked. (if_true e.lock_controls _ _ locked, if_true e.lock_controls _ _ locked),
)
