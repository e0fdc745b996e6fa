-- ===== src/Engine/Refusals/Halting.antt =====
-- internal/engine/status.go: how much evidence halts a cell.
use rule_110_arcade.Base.{
  ℕ, ◌+◌, ◌-◌, ◌≤◌, ◌<◌, ◌≡◌, refl, sym, ◌∙◌, arith, true, false, Option, none, some, List, [], ◌∷◌,
  String, ltb, leb, ◌==◌, if◌then◌else◌, ==_iff, ==_refl, if_false, both, ltb→lt, leb→le, if_known,
  if_either, Bool-cases, ◌⊎◌, inl, inr,
}
use mathlib.Core.Path.{subst}
use rule_110_arcade.Engine.Runtime.{RetryState, Runtime}
use rule_110_arcade.Chain.Oracle.{ArcadeStatus}
use rule_110_arcade.Engine.Refusals.{
  max_retries, min_halt_window, is_retryable_rejection, count_refusal, note_refusal_locked,
  clear_retries_at, clear_retries_locked,
}
use rule_110_arcade.Engine.Refusals.Events.{
  Event, refused, advanced, note_event, note_events, counts, number_of, is_at, HasAt, HasEvidence,
  note_refusal_locked-retries,
}

-- The generation being counted has been refused as often as the count says, first at its `first`.
abbrev TallyFirst : ℕ → ℕ → List Event → Option ℕ → Type 0
TallyFirst c g events none = (true ≡ false)
TallyFirst c g events (some first) = HasAt c g first events

abbrev Tally : ℕ → List Event → Option RetryState → Type 0
Tally c events none = Unit {0}
Tally c events (some st) =
    (st.attempts ≤ number_of c st.generation events) × TallyFirst c st.generation events st.first

TallyFirst-later :
    (c g : ℕ) (v : Event) (events : List Event) (first : Option ℕ)
    → TallyFirst c g events first
    → TallyFirst c g (v ∷ events) first
TallyFirst-later c g v events none h = h
TallyFirst-later c g v events (some first) h = inr h

Tally-later :
    (c : ℕ) (v : Event) (events : List Event) (known : Option RetryState)
    → Tally c events known
    → Tally c (v ∷ events) known
Tally-later c v events none h = tt
Tally-later c v events (some st) h =
    (omega (arith, h.0), TallyFirst-later c st.generation v events st.first h.1)

HasEvidence-later :
    (c : ℕ) (v : Event) (events : List Event) → HasEvidence c events → HasEvidence c (v ∷ events)
HasEvidence-later c v events (g, first, last, enough, begun, ended, apart) =
    (g, first, last, omega (arith, enough), inr begun, inr ended, apart)

Tally-clear :
    (c generation : ℕ) (events : List Event) (known : Option RetryState)
    → Tally c events known
    → Tally c events (clear_retries_at known generation)
unfolding clear_retries_at
Tally-clear c generation events none h = tt
Tally-clear c generation events (some st) h =
    if_either (Tally c events) (ltb st.generation generation) none (some st) tt h

-- The state of a run with one more refusal.
abbrev Counted : ℕ → ℕ → List Event → RetryState × ℕ → Type 0
Counted c g events (st, first) =
    Tally c events (some st) × (st.attempts ≤ number_of c g events) × HasAt c g first events

TallyFirst-known :
    (c g at : ℕ) (events : List Event) (first : Option ℕ)
    → TallyFirst c g events first
    → HasAt c g (elim first [ none ↦ at | some t ↦ t ]) events
TallyFirst-known c g at events none h = cc h
TallyFirst-known c g at events (some first) h = h

module _ (c g at : ℕ) (v : Event) (events : List Event) where
  count_refusal-Counted :
      (known : Option RetryState)
      → counts c g v ≡ true
      → is_at at v ≡ true
      → Tally c events known
      → Counted c g (v ∷ events) (count_refusal known g at)
  unfolding count_refusal
  count_refusal-Counted none k t h = rw k ((omega arith, inl (refl, t)), omega arith, inl (refl, t))
  count_refusal-Counted (some st) k t h =
      if_known (Counted c g (v ∷ events)) (st.generation == g) _ _
        (λ e.
          let h' : (st.attempts ≤ number_of c g events) × TallyFirst c g events st.first =
            subst (λ x. (st.attempts ≤ number_of c x events) × TallyFirst c x events st.first)
              ((==_iff st.generation g).0 e) h in
          let begun = TallyFirst-known c g at events st.first h'.1 in
          rw k ((omega (arith, h'.0), inr begun), omega (arith, h'.0), inr begun))
        λ e. rw k ((omega arith, inl (refl, t)), omega arith, inl (refl, t))

note_refusal_locked-halted :
    (e : Runtime) (c cell generation now : ℕ) (status : ArcadeStatus) (reason : String)
    → (note_refusal_locked e cell generation now status reason).engine.halted c ≡ true
    → (e.engine.halted c ≡ true)
      ⊎ ((cell == c ≡ true)
          × (is_retryable_rejection status reason ≡ false)
          × (max_retries < (count_refusal (e.retries cell) generation now).0.attempts)
          × ((count_refusal (e.retries cell) generation now).1 + min_halt_window ≤ now))
unfolding note_refusal_locked
note_refusal_locked-halted e c cell generation now status reason =
    let (st, first) = count_refusal (e.retries cell) generation now in
    let P = λ (q : Runtime).
      (q.engine.halted c ≡ true)
      → (e.engine.halted c ≡ true)
        ⊎ ((cell == c ≡ true)
            × (is_retryable_rejection status reason ≡ false)
            × (max_retries < st.attempts)
            × (first + min_halt_window ≤ now)) in
    if_known P (is_retryable_rejection status reason) _ _ (λ r h. inl h)
      λ r.
        if_known P
          (if ltb max_retries st.attempts then leb min_halt_window (now - first) else false) _ _
          (λ bounds h.
            let (many, apart) =
              both (ltb max_retries st.attempts) (leb min_halt_window (now - first)) bounds in
            elim (Bool-cases (c == cell)) [
              | inl same ↦ inr (
                ground arith,
                r,
                ltb→lt max_retries st.attempts many,
                (let wide = leb→le min_halt_window (now - first) apart in omega arith),
              )
              | inr ne ↦ inl (sym (if_false (c == cell) true (e.engine.halted c) ne) ∙ h)
            ])
          λ no h. inl h

IsTallied : ℕ → List Event → Runtime → Type 0
IsTallied c events e =
    Tally c events (e.retries c) × (e.engine.halted c ≡ true → HasEvidence c events)

clear_retries_locked-IsTallied :
    (q : Runtime) (c cell generation : ℕ) (events : List Event)
    → IsTallied c events q
    → IsTallied c (advanced cell generation ∷ events) (clear_retries_locked q cell generation)
unfolding IsTallied clear_retries_locked
clear_retries_locked-IsTallied q c cell generation events (tally, evidence) =
    let v = advanced cell generation in
    (
      if_known (Tally c (v ∷ events)) (c == cell) _ _
          (λ same. Tally-later c v events _ (
            Tally-clear c generation events (q.retries cell)
              (subst (λ x. Tally c events (q.retries x)) ((==_iff c cell).0 same) tally)))
          (λ ne. Tally-later c v events (q.retries c) tally),
      λ h. HasEvidence-later c v events (evidence h),
    )

note_refusal_locked-IsTallied :
    (q : Runtime) (c cell generation at : ℕ) (status : ArcadeStatus) (reason : String)
    (events : List Event)
    → IsTallied c events q
    → IsTallied c
        (refused cell generation at status reason ∷ events)
        (note_refusal_locked q cell generation at status reason)
unfolding IsTallied
note_refusal_locked-IsTallied q c cell generation at status reason events (tally, evidence) =
    let v = refused cell generation at status reason in
    let counted : cell ≡ c
        → is_retryable_rejection status reason ≡ false
        → Counted c generation (v ∷ events) (count_refusal (q.retries cell) generation at) =
      λ same r.
        count_refusal-Counted c generation at v events (q.retries cell)
          (rw (same, r, ==_refl c, ==_refl generation) refl) (==_refl at)
          (subst (λ x. Tally c events (q.retries x)) (sym same) tally) in
    (
      rw (note_refusal_locked-retries q cell generation at status reason) (
          if_known (λ (f : ℕ → Option RetryState). Tally c (v ∷ events) (f c))
            (is_retryable_rejection status reason) _ _
            (λ r. Tally-later c v events (q.retries c) tally)
            λ r.
              if_known (Tally c (v ∷ events)) (c == cell) _ _
                (λ same. (counted (sym ((==_iff c cell).0 same)) r).0)
                λ ne. Tally-later c v events (q.retries c) tally),
      λ h. elim (note_refusal_locked-halted q c cell generation at status reason h) [
        | inl before ↦ HasEvidence-later c v events (evidence before)
        | inr (same, r, many, apart) ↦
            let (_, few, begun) = counted ((==_iff cell c).0 same) r in
            (
              generation,
              (count_refusal (q.retries cell) generation at).1,
              at,
              omega (arith, few, many),
              begun,
              inl (rw (same, r, ==_refl generation) refl, ==_refl at),
              apart,
            )
      ],
    )

note_events-IsTallied :
    (e : Runtime) (c : ℕ) (events : List Event)
    → e.retries c ≡ none
    → e.engine.halted c ≡ false
    → IsTallied c events (note_events e events)
unfolding note_events note_event
note_events-IsTallied e c [] fresh live =
    unfold IsTallied in (rw fresh tt, λ h. absurd (cc (live, h)))
note_events-IsTallied e c (advanced cell generation ∷ events) fresh live =
    clear_retries_locked-IsTallied (note_events e events) c cell generation events
      (note_events-IsTallied e c events fresh live)
note_events-IsTallied e c (refused cell generation at status reason ∷ events) fresh live =
    note_refusal_locked-IsTallied (note_events e events) c cell generation at status reason events
      (note_events-IsTallied e c events fresh live)

-- A cell that no refusal had been counted against, and that was not halted, is halted by a run of
-- refusals and advances of the ring's cells, in any order, only if among them are at least four
-- refusals of one generation of that cell which the network does not call retryable, two of them at
-- least a minute apart.
pub note_events-HasEvidence :
    (e : Runtime) (c : ℕ) (events : List Event)
    → e.retries c ≡ none
    → e.engine.halted c ≡ false
    → (note_events e events).engine.halted c ≡ true
    → HasEvidence c events
note_events-HasEvidence e c events fresh live h =
    unfold IsTallied in (note_events-IsTallied e c events fresh live).1 h
