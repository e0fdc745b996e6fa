-- ===== src/Engine/Refusals/Pause.antt =====
-- internal/engine/status.go: the wait before a rebuild.
use rule_110_arcade.Base.{
  ℕ, refl, sym, ap, ◌∙◌, zero, suc, ◌+◌, ◌-◌, ◌*◌, ◌^◌, ◌≤◌, ◌≡◌, min, arith, Option, some, leb,
  if_known, false, Bool-cases, inl, inr, ==_refl, String,
}
use rule_110_arcade.Engine.Runtime.{RetryState, Runtime}
use rule_110_arcade.Engine.Refusals.Events.{note_refusal_locked-retries}
use rule_110_arcade.Chain.Oracle.{ArcadeStatus}
use rule_110_arcade.Engine.Refusals.{
  rebuild_pause_at, rebuild_pause_locked, retry_pause, count_refusal, note_refusal_locked,
  is_retryable_rejection, max_rebuild_pause,
}

pow_pos : (n : ℕ) → 1 ≤ 2 ^ n
pow_pos zero = omega arith
pow_pos (suc n) = omega (arith, pow_pos n)

pow_large : (k : ℕ) → 8 ≤ k → 256 ≤ 2 ^ k
pow_large zero h = absurd (omega (arith, h))
pow_large (suc k) h = elim (Bool-cases (leb 8 k)) [
  | inl more ↦ omega (arith, pow_large k (ground (arith, more)))
  | inr last ↦ let at : k ≡ 7 = ground (arith, h, last) in rw (at) (omega arith)
]

-- The exponent's own limit lies beyond the pause's.
capped :
    (k : ℕ)
    → min (retry_pause * 2 ^ min k 8) max_rebuild_pause
      ≡ min (retry_pause * 2 ^ k) max_rebuild_pause
capped k = elim (Bool-cases (leb 8 k)) [
  | inl high ↦
      let a : min k 8 ≡ 8 = ground (arith, high) in
      let b = pow_large k (ground (arith, high)) in rw (a) (ground (arith, b))
  | inr low ↦ let a : min k 8 ≡ k = ground (arith, low) in rw (a) refl
]

doubled :
    (k : ℕ)
    → min (retry_pause * 2 ^ suc k) max_rebuild_pause
      ≡ min (2 * min (retry_pause * 2 ^ k) max_rebuild_pause) max_rebuild_pause
doubled k = ground arith

rebuild_pause_at-some :
    (st : RetryState)
    → rebuild_pause_at (some st) ≡ min (retry_pause * 2 ^ (st.attempts - 1)) max_rebuild_pause
unfolding rebuild_pause_at
rebuild_pause_at-some st =
    if_known (λ p. p ≡ min (retry_pause * 2 ^ (st.attempts - 1)) max_rebuild_pause)
      (leb st.attempts 0) _ _
      (λ zero_yet. let a : st.attempts - 1 ≡ 0 = ground (arith, zero_yet) in rw (a) (omega arith))
      (λ _. capped (st.attempts - 1))

count_refusal-attempts :
    (st : RetryState) (now : ℕ)
    → (count_refusal (some st) st.generation now).0.attempts ≡ st.attempts + 1
unfolding count_refusal
count_refusal-attempts st now = rw (==_refl st.generation) refl

-- After `n` refusals in a row of the generation that a cell is being refused for, one at least, the
-- cell waits half a second times two to the power of `n - 1` before it rebuilds, and at most eight
-- seconds; and after one more refusal that counts it waits twice as long, and at most eight
-- seconds.
pub rebuild_pause_locked_lem :
    (e : Runtime) (cell now : ℕ) (status : ArcadeStatus) (reason : String) (st : RetryState)
    → e.retries cell ≡ some st
    → 1 ≤ st.attempts
    → is_retryable_rejection status reason ≡ false
    → (rebuild_pause_locked e cell ≡ min (500 * 2 ^ (st.attempts - 1)) 8000)
      × (rebuild_pause_locked (note_refusal_locked e cell st.generation now status reason) cell
          ≡ min (2 * rebuild_pause_locked e cell) 8000)
unfolding rebuild_pause_locked
rebuild_pause_locked_lem e cell now status reason st known counted other =
    let now_at = ap rebuild_pause_at known ∙ rebuild_pause_at-some st in
    let after = (count_refusal (e.retries cell) st.generation now).0 in
    let same : after.attempts - 1 ≡ suc (st.attempts - 1) =
      ap (λ (o : Option RetryState). (count_refusal o st.generation now).0.attempts - 1) known
      ∙ ap (λ n. n - 1) (count_refusal-attempts st now)
      ∙ omega (arith, counted) in
    (
      now_at,
      rw (note_refusal_locked-retries e cell st.generation now status reason, other, ==_refl cell)
          (rebuild_pause_at-some after
            ∙ ap (λ n. min (retry_pause * 2 ^ n) max_rebuild_pause) same
            ∙ doubled (st.attempts - 1)
            ∙ ap (λ n. min (2 * n) max_rebuild_pause) (sym now_at)),
    )
