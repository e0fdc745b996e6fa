-- ===== src/Engine/Advance.antt =====
-- internal/engine/worker.go and engine.go: one transition of a cell, and what it leaves in memory and
-- in the store. `none` is a panic on a cell outside the ring; times are milliseconds.
pub mod Failure
pub mod Outcome
use rule_110_arcade.Base.{
  ℕ, ◌+◌, ◌-◌, Bool, true, false, not, Option, none, some, ◌>>=◌, List, [], ◌∷◌, String, ltb,
  if◌then◌else◌, u64, put, set, get_elem?, codes, take,
}
use rule_110_arcade.Ca.{HexText}
use rule_110_arcade.Chain.{CellChain}
use rule_110_arcade.Chain.Refusal.{contains, to_lower}
use rule_110_arcade.History.{
  Store, Status, attempting, broadcast, failed, CellTx, record_generation,
}
use rule_110_arcade.History.Write.{record_tx}
use rule_110_arcade.History.Delete.{delete_attempt}
use rule_110_arcade.Engine.Worker.{starved, is_starved, frontier_locked, clear_starvation}
use rule_110_arcade.Engine.Runtime.{
  tx_broadcast, tx_failed, CellTx as WindowTx, Generation, HaltReason, not_recorded, no_error,
  out_of_funds, error_text, cell_halted, Runtime,
}
use rule_110_arcade.Engine.Window.{index_of_generation, put_generation, ensure_generation}
use rule_110_arcade.Engine.Refusals.{clear_retries_locked}
use rule_110_arcade.Engine.Status.{index_tx}

pub record StepResult : Type 0 where
  pub generation : ℕ
  pub txid : String
  pub row_hex : HexText
  pub raw_tx_hex : HexText

-- An error of `AdvanceCell`: whether it wraps ErrNotBroadcast, and its text.
pub record StepError : Type 0 where
  pub not_broadcast : Bool
  pub text : String

pub data StepOutcome : Type 0 where
  advanced : StepResult → StepOutcome
  stopped : StepError → StepOutcome

unfoldable pub halt_cell : Runtime → ℕ → HaltReason → Runtime
halt_cell e cell reason = elim (get_elem? e.engine.tips cell) [
  | none ↦ e
  | some _ ↦ if e.engine.halted cell then e else record e {
    engine = record e.engine { halted = put e.engine.halted cell true };
    halt_reason = put e.halt_reason cell (some reason);
    last_error = cell_halted cell reason;
  }
]

abbrev pub persist_retries : ℕ
persist_retries = 3

-- The attempts of `persist`: each answer of the database says whether its write went through.
unfoldable pub persist_loop : Store → CellTx → List Bool → Store × Bool
unfolding record_tx
persist_loop s tx [] = (s, false)
persist_loop s tx (up ∷ answers) =
    let retry = persist_loop s tx answers in if up then (record_tx s tx, true) else retry

unfoldable pub persist : Runtime → Store → CellTx → List Bool → Runtime × Store × Bool
unfolding persist_loop halt_cell
persist e s tx answers =
    let (s', written) = persist_loop s tx (take persist_retries answers) in
    (if written then e else halt_cell e tx.cell (not_recorded tx.generation), s', written)

-- A write to a cell of a generation that may be out of the window.
unfoldable pub show_cell : Runtime → ℕ → ℕ → WindowTx → Option Runtime
unfolding index_of_generation put_generation
show_cell e generation cell tx = elim (index_of_generation e.history generation) [
  | none ↦ some e
  | some g ↦ elim (get_elem? g.cells cell) [
    | none ↦ none
    | some _ ↦
        some (record e {
          history = put_generation (record g { cells = set g.cells cell tx }) e.history;
        })
  ]
]

unfoldable pub note_failure : Runtime → ℕ → ℕ → String → Option Runtime
unfolding show_cell
note_failure e generation cell err = do
  e' ← show_cell e generation cell (record { cell = cell; txid = ""; state = tx_failed; err = err })
  some (record e' { last_error = error_text err })

abbrev pub row_of : ℕ → ℕ → String → Status → String → ℕ → CellTx
row_of generation cell txid status err now = record {
  generation = generation;
  cell = cell;
  txid = txid;
  status = status;
  err = err;
  updated_at = now;
}

-- `recordCell` without a result.
unfoldable pub record_failure :
    Runtime → Store → ℕ → ℕ → String → ℕ → List Bool → Option (Runtime × Store)
unfolding note_failure persist
record_failure e s generation cell err now answers = do
  e' ← note_failure e generation cell err
  let (e'', s', _) = persist e' s (row_of generation cell "" failed err now) answers
  some (e'', s')

-- `recordCell` with one.
unfoldable pub record_cell :
    Runtime → Store → ℕ → StepResult → ℕ → List Bool → Option (Runtime × Store)
unfolding show_cell index_tx frontier_locked clear_retries_locked persist
record_cell e s cell res now answers = do
  shown ←
      show_cell e res.generation cell
        (record { cell = cell; txid = res.txid; state = tx_broadcast; err = "" })
  let indexed = index_tx shown res.txid res.generation cell
  tip ← get_elem? indexed.engine.tips cell
  let moved : Runtime = record indexed {
    engine = record indexed.engine {
      tips = set indexed.engine.tips cell (record {
        cell = cell;
        txid = res.txid;
        vout = 0;
        satoshis = tip.satoshis;
        generation = res.generation;
        row_hex = res.row_hex;
        raw_tx_hex = res.raw_tx_hex;
      });
    };
  }
  let counted : Runtime = record moved {
    engine = record moved.engine { generation = frontier_locked moved.engine };
    total_tx = moved.total_tx + 1;
  }
  let cleared = clear_retries_locked counted cell res.generation
  let (e', s', _) = persist cleared s (row_of res.generation cell res.txid broadcast "" now) answers
  some (e', s')

unfoldable pub is_funding_shortfall : String → Bool
unfolding contains to_lower
is_funding_shortfall err = contains (to_lower (codes err)) (codes "not enough funds")

abbrev pub starvation_grace : ℕ
starvation_grace = 20000

unfoldable pub enter_starvation : Runtime → Runtime
enter_starvation e =
    if is_starved e.engine.mode
    then e
    else record e { engine = record e.engine { mode = starved }; last_error = out_of_funds }

unfoldable pub on_shortfall : Runtime → ℕ → ℕ → Runtime
unfolding enter_starvation
on_shortfall e cell now =
    let since : ℕ = elim e.engine.starved_since [ none ↦ now | some t ↦ t ] in
    let waiting : Runtime = record e {
      engine = record e.engine {
        starved_since = some since;
        waiting_on_coin = put e.engine.waiting_on_coin cell true;
      };
    } in
    if (if ltb starvation_grace (now - since) then not (is_starved e.engine.mode) else false)
    then enter_starvation waiting
    else waiting

unfoldable pub done_waiting : Runtime → ℕ → Runtime
done_waiting e cell = record e {
  engine = record e.engine { waiting_on_coin = put e.engine.waiting_on_coin cell false };
}

-- `clearStarvation`, with the message that it takes off the page.
unfoldable pub resume_funded : Runtime → Runtime
unfolding clear_starvation
resume_funded e = record e {
  engine = clear_starvation e.engine;
  last_error = if is_starved e.engine.mode then no_error else e.last_error;
}

-- For an error that wraps ErrNotBroadcast; `up` says that the database took the delete.
unfoldable pub retract_attempt : Bool → Bool → Store → ℕ → ℕ → Store
unfolding delete_attempt
retract_attempt true up s generation cell = if up then delete_attempt s generation cell else s
retract_attempt false up s generation cell = s

-- The rest of `transitionFailed`, for an error that wraps ErrNotBroadcast and for another; `cancelled`
-- says that the context is done.
unfoldable pub after_failure :
    Bool → Runtime → Store → ℕ → ℕ → String → ℕ → Bool → List Bool → Option (Runtime × Store)
unfolding is_funding_shortfall on_shortfall done_waiting note_failure record_failure
after_failure true e s generation cell err now cancelled answers =
    let noted = note_failure (done_waiting e cell) generation cell err in
    if cancelled
    then some (e, s)
    else if is_funding_shortfall err
    then some (on_shortfall e cell now, s)
    else elim noted [ none ↦ none | some e' ↦ some (e', s) ]
after_failure false e s generation cell err now cancelled answers =
    let recorded = record_failure (done_waiting e cell) s generation cell err now answers in
    if cancelled
    then some (e, s)
    else if is_funding_shortfall err
    then some (on_shortfall e cell now, s)
    else recorded

unfoldable pub transition_failed :
    Runtime → Store → ℕ → ℕ → StepError → ℕ → Bool → Bool → List Bool → Option (Runtime × Store)
unfolding retract_attempt after_failure
transition_failed e s generation cell err now cancelled up answers =
    after_failure err.not_broadcast e (retract_attempt err.not_broadcast up s generation cell)
      generation cell err.text now cancelled answers

-- The store's part of `ensureGeneration`; a failed write is logged.
unfoldable pub ensure_recorded : List Generation → Store → ℕ → HexText → Bool → Store
unfolding index_of_generation record_generation
ensure_recorded gens s number row_hex up = elim (index_of_generation gens number) [
  | some _ ↦ s
  | none ↦ if up then record_generation s number row_hex else s
]

-- The answers of the database during one transition: to the writes before it and after it, to the
-- delete and to the record of the generation.
pub record Answers : Type 0 where
  pub before : List Bool
  pub after : List Bool
  pub deleted : Bool
  pub recorded : Bool

-- What `advanceCell` does with the outcome of the transition.
unfoldable pub finish :
    Runtime → Store → ℕ → ℕ → ℕ → ℕ → Bool → Answers → StepOutcome → Option (Runtime × Store)
unfolding transition_failed done_waiting resume_funded ensure_generation ensure_recorded record_cell
finish e s cells cell generation now cancelled a (stopped err) =
    transition_failed e s generation cell err now cancelled a.deleted a.after
finish e s cells cell generation now cancelled a (advanced res) =
    let funded = resume_funded (done_waiting e cell) in
    let shown : Runtime = record funded {
      history = ensure_generation cells res.generation res.row_hex funded.history;
    } in
    record_cell shown (ensure_recorded funded.history s res.generation res.row_hex a.recorded) cell
      res now a.after

-- `advanceCell` in a ring of `cells` cells, where `advance` is what `AdvanceCell` does with the tip.
unfoldable pub advance_cell :
    (CellChain → StepOutcome)
    → Runtime
    → Store
    → ℕ
    → ℕ
    → ℕ
    → Bool
    → Answers
    → Option (Runtime × Store)
unfolding persist finish
advance_cell advance e s cells cell now cancelled a = do
  tip ← get_elem? e.engine.tips cell
  let generation = u64 (tip.generation + 1)
  let (e', s', written) = persist e s (row_of generation cell "" attempting "" now) a.before
  if not written
      then some (e', s')
      else finish e' s' cells cell generation now cancelled a (advance tip)
