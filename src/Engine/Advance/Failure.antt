-- ===== src/Engine/Advance/Failure.antt =====
-- internal/engine/worker.go: what the writes of a transition leave in the store.
use rule_110_arcade.Base.{
  ℕ, ◌≡◌, refl, ap, ◌∙◌, Bool, true, false, Option, none, some, ◌⊎◌, List, [], ◌∷◌, String, any,
  if◌then◌else◌, take, get_elem?, bind-some, inl, inr, ==_refl,
}
use mathlib.Core.Option.{some-injective}
use mathlib.Core.Path.{subst}
use rule_110_arcade.History.{Store, CellDetail, cell_at, attempting, broadcast, failed, CellTx}
use rule_110_arcade.History.Write.{record_tx, record_tx-cell_at}
use rule_110_arcade.History.Delete.{delete_attempt, IsKeyed, delete-cell_at}
use rule_110_arcade.Engine.Runtime.{Runtime, not_recorded}
use rule_110_arcade.Engine.Advance.{
  StepResult, StepOutcome, advanced, stopped, halt_cell, persist_retries, persist_loop, persist,
  row_of, note_failure, record_failure, show_cell, record_cell, is_funding_shortfall, after_failure,
  retract_attempt, on_shortfall, done_waiting,
}

-- One of the attempts of `persist` goes through.
abbrev pub reaches : List Bool → Bool
reaches answers = any (λ up. up) (take persist_retries answers)

persist_loop_lem :
    (s : Store) (tx : CellTx) (answers : List Bool)
    → persist_loop s tx answers
      ≡ (if any (λ up. up) answers then (record_tx s tx, true) else (s, false))
unfolding persist_loop
persist_loop_lem s tx [] = refl
persist_loop_lem s tx (true ∷ answers) = refl
persist_loop_lem s tx (false ∷ answers) = persist_loop_lem s tx answers

pub persist-reaches :
    (e : Runtime) (s : Store) (tx : CellTx) (answers : List Bool)
    → reaches answers ≡ true
    → persist e s tx answers ≡ (e, record_tx s tx, true)
unfolding persist
persist-reaches e s tx answers h = rw (persist_loop_lem s tx (take persist_retries answers), h) refl

pub persist-fails :
    (e : Runtime) (s : Store) (tx : CellTx) (answers : List Bool)
    → reaches answers ≡ false
    → persist e s tx answers ≡ (halt_cell e tx.cell (not_recorded tx.generation), s, false)
unfolding persist
persist-fails e s tx answers h = rw (persist_loop_lem s tx (take persist_retries answers), h) refl

-- The write-ahead record.
abbrev pub attempt_only : Option CellDetail
attempt_only = some (record { txid = ""; status = attempting; err = "" })

-- What the store holds of a transition that ended so.
abbrev pub left : Bool → StepOutcome → Option CellDetail
left cancelled (advanced res) = some (record { txid = res.txid; status = broadcast; err = "" })
left cancelled (stopped err) =
    if err.not_broadcast
    then none
    else if (if cancelled then true else is_funding_shortfall err.text)
    then attempt_only
    else some (record { txid = ""; status = failed; err = err.text })

abbrev both_of : Runtime × Store × Bool → Option (Runtime × Store)
both_of (e, s, written) = some (e, s)

record_failure-cell_at :
    (e e' : Runtime) (s s' : Store) (generation cell : ℕ) (err : String) (now : ℕ)
    (answers : List Bool)
    → reaches answers ≡ true
    → record_failure e s generation cell err now answers ≡ some (e', s')
    → cell_at s' generation cell ≡ some (record { txid = ""; status = failed; err = err })
unfolding record_failure
record_failure-cell_at e e' s s' generation cell err now answers h r =
    let (noted, _, done) = bind-some (note_failure e generation cell err) _ r in
    let tx = row_of generation cell "" failed err now in
    let there : record_tx s tx ≡ s' =
      ap (λ (x : Runtime × Store). x.1)
        (some-injective (noted, record_tx s tx) (e', s')
          (subst (λ (x : Runtime × Store × Bool). both_of x ≡ some (e', s'))
            (persist-reaches noted s tx answers h) done)) in
    rw (← there, record_tx-cell_at s tx generation cell, ==_refl generation, ==_refl cell) refl

pub record_cell-cell_at :
    (e e' : Runtime) (s s' : Store) (cell : ℕ) (res : StepResult) (now : ℕ) (answers : List Bool)
    → reaches answers ≡ true
    → record_cell e s cell res now answers ≡ some (e', s')
    → cell_at s' res.generation cell
      ≡ some (record { txid = res.txid; status = broadcast; err = "" })
unfolding record_cell
record_cell-cell_at e e' s s' cell res now answers h r =
    let (shown, _, r1) = bind-some (show_cell e res.generation cell _) _ r in
    let (tip, _, done) = bind-some (get_elem? _ cell) _ r1 in
    let tx = row_of res.generation cell res.txid broadcast "" now in
    let there : record_tx s tx ≡ s' =
      ap (λ (x : Runtime × Store). x.1)
        (some-injective (_, record_tx s tx) (e', s')
          (subst (λ (x : Runtime × Store × Bool). both_of x ≡ some (e', s'))
            (persist-reaches _ s tx answers h) done)) in
    rw (← there, record_tx-cell_at s tx res.generation cell, ==_refl res.generation, ==_refl cell)
      refl

abbrev pub ended : Runtime → Store → Option (Runtime × Store)
ended e s = some (e, s)

module _ (e' : Runtime) (q s' : Store) where
  -- Every end of a transition that was never signed leaves the same store.
  unsigned_end :
      (t u : Bool) (a b : Runtime) (o : Option Runtime)
      → (if t
          then ended a q
          else if u
          then ended b q
          else elim o [ none ↦ none | some e ↦ ended e q ])
        ≡ ended e' s'
      → q ≡ s'
  unsigned_end true u a b o e = ap (λ (x : Runtime × Store). x.1) (some-injective (a, q) (e', s') e)
  unsigned_end false true a b o e =
      ap (λ (x : Runtime × Store). x.1) (some-injective (b, q) (e', s') e)
  unsigned_end false false a b none e = cc e
  unsigned_end false false a b (some c) e =
      ap (λ (x : Runtime × Store). x.1) (some-injective (c, q) (e', s') e)

  signed_end :
      (t u : Bool) (a b : Runtime) (rest : Option (Runtime × Store))
      → (if t then ended a q else if u then ended b q else rest) ≡ ended e' s'
      → (((if t then true else u) ≡ true) × (q ≡ s'))
        ⊎ (((if t then true else u) ≡ false) × (rest ≡ ended e' s'))
  signed_end true u a b rest e =
      inl (refl, ap (λ (x : Runtime × Store). x.1) (some-injective (a, q) (e', s') e))
  signed_end false true a b rest e =
      inl (refl, ap (λ (x : Runtime × Store). x.1) (some-injective (b, q) (e', s') e))
  signed_end false false a b rest e = inr (refl, e)

retracted-cell_at :
    (s : Store) (generation cell : ℕ)
    → IsKeyed s.cell_txs
    → cell_at s generation cell ≡ attempt_only
    → cell_at (delete_attempt s generation cell) generation cell ≡ none
retracted-cell_at s generation cell keyed before =
    (delete-cell_at s generation cell generation cell "" keyed).0
    ∙ rw (==_refl generation, ==_refl cell, before) refl

pub after_failure-cell_at :
    (unsigned : Bool) (e e' : Runtime) (s s' : Store) (generation cell : ℕ) (err : String) (now : ℕ)
    (cancelled : Bool) (answers : List Bool)
    → IsKeyed s.cell_txs
    → cell_at s generation cell ≡ attempt_only
    → reaches answers ≡ true
    → after_failure unsigned e
        (retract_attempt unsigned true s generation cell)
        generation
        cell
        err
        now
        cancelled
        answers
      ≡ ended e' s'
    → cell_at s' generation cell
      ≡ left cancelled (stopped (record { not_broadcast = unsigned; text = err }))
unfolding after_failure retract_attempt
after_failure-cell_at true e e' s s' generation cell err now cancelled answers keyed before h r =
    let same =
      unsigned_end e' (delete_attempt s generation cell) s' cancelled (is_funding_shortfall err) e
        (on_shortfall e cell now) (note_failure (done_waiting e cell) generation cell err) r in
    subst (λ q. cell_at q generation cell ≡ none) same
      (retracted-cell_at s generation cell keyed before)
after_failure-cell_at false e e' s s' generation cell err now cancelled answers keyed before h r =
    let recorded = record_failure (done_waiting e cell) s generation cell err now answers in
    elim (signed_end e' s s' cancelled (is_funding_shortfall err) e (on_shortfall e cell now)
      recorded r) [
        | inl (quiet, same) ↦ rw (quiet, ← same) before
        | inr (loud, rest) ↦ rw loud (
            record_failure-cell_at (done_waiting e cell) e' s s' generation cell err now answers h
              rest)
      ]
