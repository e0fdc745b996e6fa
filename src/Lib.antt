-- ===== src/Lib.antt =====
-- rule-110-arcade runs Rule 110 on a chain: every cell of a ring is a chain of transactions of
-- its own, each of which carries the whole row and is accepted by a covenant that checks one
-- bit of the next row. The program builds those transactions from a reference automaton, keeps
-- what it did in a database, derives each cell's position from the database and the chain at a
-- start, and advances the cells independently of each other.
--
-- Which file models what. Paths of the source are from the repository's root. A function keeps
-- its name, in lower case with underscores.
--
-- - Base: names shared by all modules: Boolean tests, lists over the native numbers, bits of a
--   byte, Go's integers, sorting, texts.
-- - Ca: internal/ca/ca.go: rows as bytes, the rule, the neighbours, `step`, seeds and hex
--   texts. Ca/Step and Ca/Hex prove about them, Ca/Bits reads a row as its bits.
-- - Cellscript: internal/cellscript/cellscript.go: the constructor arguments of one cell's
--   covenant, and in Cellscript/Unlocking what an unlocking script pushes; Cellscript/Amount
--   proves about its numbers; Cellscript/Decode reads a locking script back over the record
--   `Artifact`, which Cellscript/Binding proves about, with the index of the code parts and
--   what the compiled contract does (`IsArtifact`) in Cellscript/Index, on the pieces of
--   Cellscript/Pieces.
-- - Contract: contracts/Cell.runar.go: the covenant as a Go function. What it calls of the
--   runar library is the record `Runar`, and the documented behaviour that the theorems use is
--   `IsRunar`. Contract/Agreement relates one covenant to the automaton, Contract/Generation
--   all covenants of a ring.
-- - History: internal/history/history.go: the tables as lists of rows, each statement as a
--   function on them. History/Write, /Delete and /Tips hold the statements on transactions,
--   with what a failed record names in /Rejected, /Load the queries of many rows, /Election
--   the lease, with its proofs in Election/Exclusion, /Keys the primary key.
-- - Chain: internal/chain: the types of genesis.go and ledger.go. Chain/Tips is tips.go;
--   Chain/Recover, Chain/Refusal and Chain/SpentTip are the decisions of recover.go, and
--   Chain/Oracle arcade's verdicts. go-sdk's parser and transaction id and the script that the
--   compiler's artifact gives are the record `Sdk`, the wallet's answers the record `Ledger`,
--   and arcade a function that may have no answer. Chain/Derived, /Successor, /Walk,
--   /Spending, /Evidence, /Sentinel, SpentTip/Adopted, SpentTip/Ids and SpentTip/Named prove
--   about them.
-- - Engine: internal/engine: Engine/Derive is the classification in derive.go, Engine/Rows the
--   rest of `DeriveTips` and the migration floor, with proofs in its Computed, Derived and
--   Floor, Engine/Worker the clock, the frontier and the gates of worker.go, with SetMode and
--   Step of engine.go, and Engine/Leadership the renewals of the lease and what a derivation
--   under it installs. Engine/Buried, /Wreckage, /Verdict and /Quiet prove about the first,
--   /Clock, /Frontier, /Gates, /Controls and /Trust about the others.
-- - Engine/Runtime: the state that the cell workers and the events share: the fields of
--   `Engine` (engine.go) around the record of Engine/Worker. Engine/Window is the window of
--   generations of worker.go and engine.go, its last generation first, with its order in
--   Window/Order. Engine/Refusals is what one refusal does (status.go), with sequences of them
--   in Refusals/Events and the proofs in Refusals/Halting and /Pause. Engine/Status is
--   `applyStatusBatch` and what it calls, with proofs in Status/Cells, /Ahead, /Reasons and
--   /Again. Engine/StatusQueue is the queue of status writes and its writer, with proofs in
--   StatusQueue/Batch and /Writer.
-- - Engine/Advance: one transition of a cell in worker.go, with `persist` and `haltCell` of
--   engine.go; what the wallet does with the tip is an argument, and the answers of the
--   database are the record `Answers`. Advance/Failure and /Outcome prove what the store holds
--   afterwards.
-- - Engine/Repair: recovery.go: what is decided about a halted cell and what the decision
--   writes; Repair/Passes holds `Recover` and the passes of `repairCell`, Repair/Outcome how
--   they end, Repair/Releases on what grounds a cell is released, and Repair/Recovered what a
--   recovery of all cells leaves.
-- - Audit: internal/audit/audit.go: the report and the steps of an audit, which report and may
--   return early; Audit/Fetch holds what it reads, over the record `World` of the source, go-
--   sdk and runar, Audit/Cell the audit of a cell, Audit/Run that of a range, and
--   Audit/Preimage the reading of a preimage. Audit/Evidence says what an audit is to find,
--   apart from how it looks for it. Audit/Proves has a rule for each way to build a step, by
--   which Audit/Genuine, /Transition, /Cells, /Leads and /Sound follow the code from a report
--   to the evidence; Audit/Passes has such rules for the way back, which Audit/Complete, /Ends
--   and /Exact take. Audit/Recorded relates what is read to the tables, by History/Loaded.
--   Audit/ScriptCode is about Audit/Preimage.
-- - Examples: the theorems at concrete inputs.
--
-- How the parts interact. `classify` reads the rows that `tips_of` gives, newest first, and
-- the answer of `deep_tip`; the position it gives decides, in `decide_cell`, which of the
-- decisions in Chain/Recover, Chain/Refusal and Chain/SpentTip runs, and `apply_recovery`
-- writes its outcome to the tables that the next derivation reads. An event that
-- `apply_status_batch` applies opens the gates of Engine/Worker, and a refusal among them
-- schedules `repair_cell` or halts the cell; its writes go through the queue, whose batches
-- meet the condition of `update_status_batch` that their transactions differ. Those decisions,
-- and the derived tips, read a transaction only through `parse_tip`, and compare its scripts
-- with `locking_script`, which is `ctor_args` and the compiler. `verify_successor` steps the
-- row with the automaton of Ca, and Contract/Generation relates the covenants to the same one.
-- The audit reads the same tables and the chain, and nothing of the engine's: it decodes
-- scripts with `decode`, steps the rows with the automaton and asks runar for the preimage of
-- each spend.
--
-- Conventions. A uint64 is a native number with its wrap-around written out where the code
-- computes with it; an error and a panic are `none`; a map's missing entry reads as Go's zero
-- value. The loops run over lists, or over a count of the turns left: `step_loop` over the
-- cells, and `walk_loop` over the generations from the tip to the wallet's newest, which is as
-- many turns as the loop in the source can make. Only `write_statuses` runs on fuel, a turn of
-- the writer for each; one more than the queue's length is enough. What the selects of that
-- loop take, when several cases are ready, is an argument, and its theorems hold for every
-- choice. `repair_passes` counts the source's four passes. Times are numbers, read once where
-- the source reads the clock once. Where the source reads state under one lock and writes it
-- under a later one, as the clock does, what was read is an argument of the write. Waking
-- waiters, logging and pauses change no state and are left out; the pause before a rebuild is
-- `rebuild_pause_locked`.
--
-- Not modelled: the web server, the commands, boot and configuration, keys, payments and fuel,
-- the building and signing of transactions by the wallet, the loops that poll arcade, the
-- snapshots for a page, and the pruning of the wallet's database. Most of these are calls of
-- other systems. The reasons of a verdict are texts for an operator; Chain leaves them out and
-- Engine keeps their data. A database error ends every operation of History before it changes
-- anything, and is left out, except in Engine/Advance, where the writes of a transition may
-- fail.
pub mod Base
pub mod Ca
pub mod Contract
pub mod Cellscript
pub mod History
pub mod Chain
pub mod Engine
pub mod Audit
pub mod Examples
