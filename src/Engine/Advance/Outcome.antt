-- ===== src/Engine/Advance/Outcome.antt =====
-- internal/engine/worker.go: the record that a transition leaves of itself.
use rule_110_arcade.Base.{
  ℕ, ◌+◌, ◌≡◌, refl, sym, ap, ◌∙◌, Bool, true, false, not, Option, some, if◌then◌else◌, u64,
  get_elem?, if_known, ==_refl,
}
use mathlib.Core.Path.{subst}
use rule_110_arcade.Chain.{CellChain}
use rule_110_arcade.History.{Store, cell_at, attempting}
use rule_110_arcade.History.Write.{record_tx, record_tx-cell_at}
use rule_110_arcade.History.Delete.{IsKeyed}
use rule_110_arcade.History.Keys.{upsert-IsKeyed}
use rule_110_arcade.Engine.Runtime.{Runtime, not_recorded, HaltReason}
use rule_110_arcade.Engine.Window.{ensure_generation}
use rule_110_arcade.Engine.Advance.{
  StepResult, StepOutcome, advanced, stopped, halt_cell, persist, row_of, done_waiting,
  resume_funded, transition_failed, ensure_recorded, Answers, finish, advance_cell,
}
use rule_110_arcade.Engine.Advance.Failure.{
  reaches, persist-reaches, persist-fails, attempt_only, left, record_cell-cell_at,
  after_failure-cell_at, ended,
}

finish-cell_at :
    (e e' : Runtime) (s s' : Store) (cells cell generation now : ℕ) (cancelled : Bool) (a : Answers)
    (o : StepOutcome)
    → IsKeyed s.cell_txs
    → cell_at s generation cell ≡ attempt_only
    → ((res : StepResult) → o ≡ advanced res → res.generation ≡ generation)
    → reaches a.after ≡ true
    → a.deleted ≡ true
    → finish e s cells cell generation now cancelled a o ≡ ended e' s'
    → cell_at s' generation cell ≡ left cancelled o
unfolding finish transition_failed
finish-cell_at e e' s s' cells cell generation now cancelled a (stopped err) keyed before next h up
      r =
    after_failure-cell_at err.not_broadcast e e' s s' generation cell err.text now cancelled a.after
      keyed before h
      (subst (λ u. transition_failed e s generation cell err now cancelled u a.after ≡ ended e' s')
        up r)
finish-cell_at e e' s s' cells cell generation now cancelled a (advanced res) keyed before next h up
      r =
    let funded = resume_funded (done_waiting e cell) in
    subst (λ g. cell_at s' g cell ≡ left cancelled (advanced res)) (next res refl)
      (record_cell-cell_at
        (record funded {
          history = ensure_generation cells res.generation res.row_hex funded.history;
        })
        e' (ensure_recorded funded.history s res.generation res.row_hex a.recorded) s' cell res now
        a.after h r)

-- What follows the write-ahead record of a transition of `tip`.
abbrev after_persist :
    (CellChain → StepOutcome)
    → ℕ
    → ℕ
    → ℕ
    → Bool
    → Answers
    → CellChain
    → Runtime × Store × Bool
    → Option (Runtime × Store)
after_persist advance cells cell now cancelled a tip (e, s, written) =
    if not written
    then ended e s
    else finish e s cells cell (u64 (tip.generation + 1)) now cancelled a (advance tip)

advance_cell-after_persist :
    (advance : CellChain → StepOutcome) (e : Runtime) (s : Store) (cells cell now : ℕ)
    (cancelled : Bool) (a : Answers) (tip : CellChain)
    → get_elem? e.engine.tips cell ≡ some tip
    → advance_cell advance e s cells cell now cancelled a
      ≡ after_persist advance cells cell now cancelled a tip
          (persist e s (row_of (u64 (tip.generation + 1)) cell "" attempting "" now) a.before)
unfolding advance_cell
advance_cell-after_persist advance e s cells cell now cancelled a tip own =
    rw (advance_cell, own) refl

-- A transition whose write-ahead record and whose outcome can both be written, on a table with its
-- primary key, leaves exactly one of these at the next generation of its cell: the transaction as
-- broadcast, nothing if nothing was signed, the write-ahead record if the engine is shutting down or
-- out of coin, and otherwise the failure.
pub advance_cell-cell_at :
    (advance : CellChain → StepOutcome) (e e' : Runtime) (s s' : Store) (cells cell now : ℕ)
    (cancelled : Bool) (a : Answers) (tip : CellChain)
    → IsKeyed s.cell_txs
    → get_elem? e.engine.tips cell ≡ some tip
    → ((res : StepResult) → advance tip ≡ advanced res → res.generation ≡ u64 (tip.generation + 1))
    → reaches a.before ≡ true
    → reaches a.after ≡ true
    → a.deleted ≡ true
    → advance_cell advance e s cells cell now cancelled a ≡ ended e' s'
    → cell_at s' (u64 (tip.generation + 1)) cell ≡ left cancelled (advance tip)
unfolding advance_cell
advance_cell-cell_at advance e e' s s' cells cell now cancelled a tip keyed own next b h up r =
    let generation = u64 (tip.generation + 1) in
    let tx = row_of generation cell "" attempting "" now in
    let go = after_persist advance cells cell now cancelled a tip in
    finish-cell_at e e' (record_tx s tx) s' cells cell generation now cancelled a (advance tip)
      (unfold record_tx in upsert-IsKeyed tx s.cell_txs keyed)
      (record_tx-cell_at s tx generation cell ∙ rw (==_refl generation, ==_refl cell) refl) next h
      up
      (sym (ap go (persist-reaches e s tx a.before b))
        ∙ sym (advance_cell-after_persist advance e s cells cell now cancelled a tip own)
        ∙ r)

halt_cell-halted :
    (e : Runtime) (cell : ℕ) (reason : HaltReason) {tip : CellChain}
    → get_elem? e.engine.tips cell ≡ some tip
    → (halt_cell e cell reason).engine.halted cell ≡ true
unfolding halt_cell
halt_cell-halted e cell reason own =
    rw (halt_cell, own)
      (if_known (λ (q : Runtime). q.engine.halted cell ≡ true) (e.engine.halted cell) e _ (λ h. h)
        (λ _. rw (==_refl cell) refl))

-- If no attempt to write the write-ahead record goes through, the cell is halted, the store is left as
-- it was, and nothing is asked of the wallet: the result is the same whatever a transition would do.
pub advance_cell-unrecorded :
    (e : Runtime) (s : Store) (cells cell now : ℕ) (cancelled : Bool) (a : Answers)
    (tip : CellChain)
    → get_elem? e.engine.tips cell ≡ some tip
    → reaches a.before ≡ false
    → (e' : Runtime) × (e'.engine.halted cell ≡ true)
      × ((advance : CellChain → StepOutcome)
          → advance_cell advance e s cells cell now cancelled a ≡ some (e', s))
unfolding advance_cell
advance_cell-unrecorded e s cells cell now cancelled a tip own b =
    let generation = u64 (tip.generation + 1) in
    let tx = row_of generation cell "" attempting "" now in
    (
      halt_cell e cell (not_recorded generation),
      halt_cell-halted e cell (not_recorded generation) own,
      λ advance.
          advance_cell-after_persist advance e s cells cell now cancelled a tip own
          ∙ ap (after_persist advance cells cell now cancelled a tip)
              (persist-fails e s tx a.before b),
    )
