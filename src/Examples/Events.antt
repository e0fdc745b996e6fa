-- ===== src/Examples/Events.antt =====
-- A ring of two cells whose generation 8 is in flight: batches of network events, refusals, and the
-- writer.
use rule_110_arcade.Base.{
  Bool, put, min, ◌*◌, ◌^◌, ℕ, ◌≡◌, refl, arith, true, false, Option, none, some, List, [], ◌∷◌,
  String, str_eq, if◌then◌else◌, get_elem?,
}
use rule_110_arcade.Ca.{HexText}
use rule_110_arcade.Chain.Oracle.{
  ArcadeStatus, seen_on_network, accepted_by_network, mined, rejected, pending_retry,
}
use rule_110_arcade.History.{Store, Status, seen, failed}
use rule_110_arcade.History.Write.{StatusUpdate, update_status_batch_tx}
use rule_110_arcade.Engine.Runtime.{
  RetryState, tx_broadcast, CellTx, Generation, TxLoc, Runtime, no_error,
}
use rule_110_arcade.Engine.Window.{index_of_generation}
use rule_110_arcade.Engine.Window.Order.{
  IsWindow, ensure_all, search_all, ensure_all-index_of_generation,
}
use rule_110_arcade.Engine.StatusQueue.{done, received, collect_status_writes, write_statuses}
use rule_110_arcade.Engine.StatusQueue.Writer.{
  IsCollected, collect_status_writes-each, write_statuses-each,
}
use rule_110_arcade.Engine.Refusals.{
  is_retryable_rejection, rebuild_pause_locked, note_refusal_locked,
}
use rule_110_arcade.Engine.Refusals.Pause.{rebuild_pause_locked_lem}
use rule_110_arcade.Engine.Refusals.Events.{Event, refused, advanced, note_events, HasEvidence}
use rule_110_arcade.Engine.Refusals.Halting.{note_events-HasEvidence}
use rule_110_arcade.Engine.Status.{
  TxRecord, apply_status_batch, state_for, cell_in_window, fetch_rejection_reason,
}
use rule_110_arcade.Engine.Status.Ahead.{IsAhead, apply_batches, apply_batches-IsAhead}
use rule_110_arcade.Engine.Status.Reasons.{reasons-unshown}
use rule_110_arcade.Engine.Status.Again.{quiet, apply_status_batch-again}
use rule_110_arcade.Examples.Turns.{engine}
use rule_110_arcade.Examples.Storage.{store}

abbrev in_flight : ℕ → String → CellTx
in_flight c id = record { cell = c; txid = id; state = tx_broadcast; err = "" }

abbrev eighth : Generation
eighth = record { number = 8; row_hex = []; cells = in_flight 0 "a8" ∷ in_flight 1 "b8" ∷ [] }

abbrev seventh : Generation
seventh = record { number = 7; row_hex = []; cells = in_flight 0 "a7" ∷ in_flight 1 "b7" ∷ [] }

abbrev location : TxLoc
location = record { generation = 8; cell = 1 }

abbrev index : String → Option TxLoc
index id = if str_eq id "b8" then some location else none

abbrev pub runtime : Runtime
runtime = record {
  engine = engine;
  history = eighth ∷ seventh ∷ [];
  tx_index = index;
  retries = λ i. none;
  needs_repair = λ i. false;
  halt_reason = λ i. none;
  last_error = no_error;
  total_tx = 4;
}

abbrev words : ArcadeStatus → String
words status = "REJECTED"

abbrev update : String → Status → StatusUpdate
update id st = record { txid = id; status = st; err = "" }

-- The second write of `b8` replaces the first.
abbrev queue : List StatusUpdate
queue = update "b8" seen ∷ update "c3" seen ∷ update "b8" failed ∷ []

collected :
    collect_status_writes done queue ≡ (update "b8" failed ∷ update "c3" seen ∷ [], [], false)
unfolding collect_status_writes
collected = refl

-- The timer is taken with a write still queued.
abbrev turn : List StatusUpdate × List StatusUpdate × Bool
turn = collect_status_writes (received 1) queue

left : turn ≡ (update "b8" seen ∷ update "c3" seen ∷ [], update "b8" failed ∷ [], true)
unfolding collect_status_writes
left = refl

collect_status_writes-each_example : IsCollected queue turn.0 turn.1 turn.2
collect_status_writes-each_example = collect_status_writes-each (received 1) queue

write_statuses-each_example :
    write_statuses received 4 store 7 queue ≡ some (update_status_batch_tx store queue 7)
write_statuses-each_example = write_statuses-each received 4 store 7 queue (omega arith)

-- Cells reach generation 10 before 9, and 8 is there already.
abbrev reached : List (ℕ × HexText)
reached = (10, []) ∷ (9, []) ∷ (8, []) ∷ []

two-IsWindow : IsWindow runtime.history
two-IsWindow = (((omega arith, tt), (tt, tt)), omega arith)

ensure_all-index_of_generation_example :
    IsWindow (ensure_all 2 reached runtime.history)
    × (index_of_generation (ensure_all 2 reached runtime.history) 9
        ≡ search_all (ensure_all 2 reached runtime.history) 9)
ensure_all-index_of_generation_example =
    ensure_all-index_of_generation 2 reached runtime.history 9 two-IsWindow

-- A cell that was refused three times for generation 9.
abbrev thrice : RetryState
thrice = record { generation = 9; attempts = 3; first = some 100 }

abbrev refused_thrice : Runtime
refused_thrice = record runtime { retries = put runtime.retries 1 (some thrice) }

counts : is_retryable_rejection rejected "bad" ≡ false
unfolding is_retryable_rejection
counts = refl

rebuild_pause_locked_lem_example :
    (rebuild_pause_locked refused_thrice 1 ≡ min (500 * 2 ^ 2) 8000)
    × (rebuild_pause_locked (note_refusal_locked refused_thrice 1 9 900 rejected "bad") 1
        ≡ min (2 * rebuild_pause_locked refused_thrice 1) 8000)
rebuild_pause_locked_lem_example =
    rebuild_pause_locked_lem refused_thrice 1 900 rejected "bad" thrice refl (omega arith) counts

-- Four refusals that count and one that does not, and an advance of the other cell; the last comes
-- first.
abbrev events : List Event
events =
    refused 1 8 61000 rejected "bad"
    ∷ refused 1 8 60500 pending_retry "bad"
    ∷ refused 1 8 900 rejected "bad"
    ∷ advanced 0 8
    ∷ refused 1 8 500 rejected "bad"
    ∷ refused 1 8 100 rejected "bad"
    ∷ []

events-halt : (note_events runtime events).engine.halted 1 ≡ true
unfolding note_events
events-halt = refl

note_events-HasEvidence_example : HasEvidence 1 events
note_events-HasEvidence_example = note_events-HasEvidence runtime 1 events refl refl events-halt

abbrev event : ArcadeStatus → TxRecord
event status = record { txid = "b8"; status = status; extra_info = ""; at = 100 }

abbrev batches : List (List TxRecord)
batches = (event mined ∷ []) ∷ (event seen_on_network ∷ event rejected ∷ []) ∷ []

apply_batches-IsAhead_example : IsAhead runtime (apply_batches words runtime batches)
apply_batches-IsAhead_example = apply_batches-IsAhead words runtime batches

reason-asked :
    get_elem? (apply_status_batch words runtime (event rejected ∷ [])).reasons 0 ≡ some ("b8", 1)
unfolding apply_status_batch
reason-asked = refl

reasons-unshown_example :
    (s' : Store) × (fetch_rejection_reason words
        (apply_batches words
          (apply_status_batch words runtime (event rejected ∷ [])).runtime
          batches)
        store
        "b8"
        7
        (some (record (event rejected) { extra_info = "utxo already spent" }))
      ≡ some (
        apply_batches words
            (apply_status_batch words runtime (event rejected ∷ [])).runtime
            batches,
        s',
      ))
reasons-unshown_example =
    reasons-unshown words runtime (event rejected ∷ []) batches 0 "b8" 1 store 7
      (some (record (event rejected) { extra_info = "utxo already spent" })) reason-asked

located : cell_in_window runtime.history location ≡ some (eighth, in_flight 1 "b8")
unfolding cell_in_window
located = refl

apply_status_batch-again_example :
    apply_status_batch words
      (apply_status_batch words runtime (event seen_on_network ∷ [])).runtime
      (event accepted_by_network ∷ [])
    ≡ quiet (apply_status_batch words runtime (event seen_on_network ∷ [])).runtime
apply_status_batch-again_example =
    apply_status_batch-again words runtime (event seen_on_network) (event accepted_by_network)
      location eighth (in_flight 1 "b8") refl located refl (unfold state_for in refl)
