-- ===== src/Engine/Refusals/Events.antt =====
-- internal/engine/status.go: sequences of refusals, and what in them is evidence against a cell.
use rule_110_arcade.Base.{
  ℕ, ◌+◌, ◌-◌, ◌≤◌, ◌<◌, ◌≡◌, refl, Bool, true, false, not, some, List, [], ◌∷◌, String, ltb, leb,
  ◌==◌, if◌then◌else◌, put, if_either, Bool-cases, ◌⊎◌, inl, inr,
}
use rule_110_arcade.Engine.Runtime.{Runtime}
use rule_110_arcade.Chain.Oracle.{ArcadeStatus}
use rule_110_arcade.Engine.Refusals.{
  max_retries, min_halt_window, is_retryable_rejection, count_refusal, note_refusal_locked,
  clear_retries_locked,
}

-- A refusal that the network reports, or a generation that a cell has recorded.
pub data Event : Type 0 where
  refused : (cell generation at : ℕ) → ArcadeStatus → String → Event
  advanced : (cell generation : ℕ) → Event

unfoldable pub note_event : Runtime → Event → Runtime
unfolding note_refusal_locked clear_retries_locked
note_event e (refused cell generation at status reason) =
    note_refusal_locked e cell generation at status reason
note_event e (advanced cell generation) = clear_retries_locked e cell generation

-- The last event first.
unfoldable pub note_events : Runtime → List Event → Runtime
unfolding note_event
note_events e [] = e
note_events e (v ∷ earlier) = note_event (note_events e earlier) v

-- A refusal of that cell and generation that is evidence: the network does not call it retryable.
abbrev pub counts : ℕ → ℕ → Event → Bool
counts c g (refused cell generation at status reason) =
    if cell == c
    then (if generation == g then not (is_retryable_rejection status reason) else false)
    else false
counts c g (advanced cell generation) = false

abbrev pub number_of : ℕ → ℕ → List Event → ℕ
number_of c g [] = 0
number_of c g (v ∷ earlier) = (if counts c g v then 1 else 0) + number_of c g earlier

abbrev pub is_at : ℕ → Event → Bool
is_at t (refused cell generation at status reason) = at == t
is_at t (advanced cell generation) = false

-- Such a refusal came in at the time `t`.
abbrev pub HasAt : ℕ → ℕ → ℕ → List Event → Type 0
HasAt c g t [] = (true ≡ false)
HasAt c g t (v ∷ earlier) = ((counts c g v ≡ true) × (is_at t v ≡ true)) ⊎ HasAt c g t earlier

-- Four refusals of one generation, the first and the last of them a minute apart.
abbrev pub HasEvidence : ℕ → List Event → Type 0
HasEvidence c events =
    (g first last : ℕ) × (max_retries < number_of c g events)
    × HasAt c g first events
    × HasAt c g last events
    × (first + min_halt_window ≤ last)

pub note_refusal_locked-retries :
    (e : Runtime) (cell generation now : ℕ) (status : ArcadeStatus) (reason : String)
    → (note_refusal_locked e cell generation now status reason).retries ≡ (
        if is_retryable_rejection status reason
        then e.retries
        else put e.retries cell (some (count_refusal (e.retries cell) generation now).0))
unfolding note_refusal_locked
note_refusal_locked-retries e cell generation now status reason =
    let (st, first) = count_refusal (e.retries cell) generation now in
    elim (Bool-cases (is_retryable_rejection status reason)) [
      | inl r ↦ rw r refl
      | inr r ↦ rw r (
          if_either (λ (q : Runtime). q.retries ≡ put e.retries cell (some st))
            (if ltb max_retries st.attempts then leb min_halt_window (now - first) else false) _ _
            refl refl)
    ]
