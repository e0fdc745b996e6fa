-- ===== src/Engine/Refusals.antt =====
-- internal/engine/status.go: what one network refusal does to its cell. Times are milliseconds, and
-- `now` is not before the first refusal of a run.
pub mod Events
pub mod Halting
pub mod Pause
use rule_110_arcade.Base.{
  ℕ, ◌+◌, ◌-◌, ◌*◌, ◌^◌, min, Bool, true, false, Option, none, some, String, ltb, leb, ◌==◌,
  if◌then◌else◌, put, codes,
}
use rule_110_arcade.Chain.Oracle.{ArcadeStatus, pending_retry}
use rule_110_arcade.Chain.Refusal.{contains, to_lower}
use rule_110_arcade.Engine.Runtime.{RetryState, Runtime, rejected_with}

abbrev pub max_retries : ℕ
max_retries = 3

abbrev pub min_halt_window : ℕ
min_halt_window = 60000

abbrev pub retry_pause : ℕ
retry_pause = 500

abbrev pub max_rebuild_pause : ℕ
max_rebuild_pause = 8000

unfoldable pub rebuild_pause_at : Option RetryState → ℕ
rebuild_pause_at none = retry_pause
rebuild_pause_at (some st) =
    if leb st.attempts 0
    then retry_pause
    else min (retry_pause * 2 ^ min (st.attempts - 1) 8) max_rebuild_pause

unfoldable pub rebuild_pause_locked : Runtime → ℕ → ℕ
unfolding rebuild_pause_at
rebuild_pause_locked e cell = rebuild_pause_at (e.retries cell)

unfoldable pub is_retryable_rejection : ArcadeStatus → String → Bool
unfolding contains to_lower
is_retryable_rejection pending_retry extra = true
is_retryable_rejection _ extra = contains (to_lower (codes extra)) (codes "retryable")

-- The run of refusals with one more; `first` is the time at which it began.
unfoldable pub count_refusal : Option RetryState → ℕ → ℕ → RetryState × ℕ
count_refusal none generation now =
    (record { generation = generation; attempts = 1; first = some now }, now)
count_refusal (some st) generation now =
    if st.generation == generation
    then (let first : ℕ = elim st.first [ none ↦ now | some t ↦ t ] in
        (record { generation = generation; attempts = st.attempts + 1; first = some first }, first))
    else (record { generation = generation; attempts = 1; first = some now }, now)

unfoldable pub note_refusal_locked : Runtime → ℕ → ℕ → ℕ → ArcadeStatus → String → Runtime
unfolding is_retryable_rejection count_refusal
note_refusal_locked e cell generation now status reason =
    if is_retryable_rejection status reason
    then record e { needs_repair = put e.needs_repair cell true }
    else (let (st, first) = count_refusal (e.retries cell) generation now in
        let counted : Runtime = record e { retries = put e.retries cell (some st) } in
        if (if ltb max_retries st.attempts then leb min_halt_window (now - first) else false)
        then record counted {
          engine = record e.engine { halted = put e.engine.halted cell true };
          halt_reason = put e.halt_reason cell (some (rejected_with reason));
          needs_repair = put e.needs_repair cell false;
        }
        else record counted { needs_repair = put e.needs_repair cell true })

unfoldable pub clear_retries_at : Option RetryState → ℕ → Option RetryState
clear_retries_at none generation = none
clear_retries_at (some st) generation = if ltb st.generation generation then none else some st

unfoldable pub clear_retries_locked : Runtime → ℕ → ℕ → Runtime
unfolding clear_retries_at
clear_retries_locked e cell generation = record e {
  retries = put e.retries cell (clear_retries_at (e.retries cell) generation);
}
