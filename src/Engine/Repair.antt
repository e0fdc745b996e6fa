-- ===== src/Engine/Repair.antt =====
-- internal/engine/recovery.go: what is decided about a halted cell, and what the decision writes. A
-- verdict's reason is left out, and so is the error of a decision, which no path of the decisions
-- returns.
pub mod Passes
pub mod Outcome
pub mod Releases
pub mod Recovered
use rule_110_arcade.Base.{
  ℕ, zero, suc, ◌+◌, Bool, true, false, not, ◌&&◌, ◌||◌, Option, none, some, ◌>>=◌, List, [], ◌∷◌,
  String, ltb, ◌==◌, if◌then◌else◌, is_empty, put, set, get_elem?, codes, any,
}
use rule_110_arcade.Ca.{step as next_row}
use rule_110_arcade.Cellscript.{Compiled}
use rule_110_arcade.Chain.{CellChain, Sdk, Ledger, tip_row}
use rule_110_arcade.Chain.Recover.{
  Verdict, verdict_halt, verdict_resume, verdict_adopt, Recovery, halt, recover_cell,
}
use rule_110_arcade.Chain.Refusal.{
  is_utxo_spent, is_not_broadcast, recover_stale_rejection, retry_refusal, recover_not_broadcast,
}
use rule_110_arcade.Chain.Oracle.{ArcadeStatus}
use rule_110_arcade.Chain.SpentTip.{recover_spent_tip}
use rule_110_arcade.History.{Store, broadcast, record_generation}
use rule_110_arcade.History.Write.{record_tx}
use rule_110_arcade.History.Tips.{has_txid}
use rule_110_arcade.History.Delete.{delete_attempt, delete_rejection, delete_unsigned_rejection}
use rule_110_arcade.Engine.Derive.{zero_position, tip_depth, max_wreckage}
use rule_110_arcade.Engine.Rows.{Deployment, CellPosition, derive_tips}
use rule_110_arcade.Engine.Worker.{frontier_locked}
use rule_110_arcade.Engine.Runtime.{
  Runtime, HaltReason, derived_as, not_derived, outside_ring, decided_halt, not_applied,
  not_clearing,
}

abbrev pub is_halt : Verdict → Bool
is_halt verdict_halt = true
is_halt _ = false

abbrev pub is_resume : Verdict → Bool
is_resume verdict_resume = true
is_resume _ = false

pub record RecoverOptions : Type 0 where
  pub apply : Bool
  pub retry_refused : Bool

pub record CellRecovery : Type 0 where
  pub cell : ℕ
  pub recovery : Recovery

unfoldable pub is_spent_tip : CellPosition → Bool
unfolding is_utxo_spent
is_spent_tip p = if p.rejected then is_utxo_spent (codes p.rejection_err) else false

unfoldable pub is_never_broadcast : CellPosition → Bool
unfolding is_not_broadcast
is_never_broadcast p = if p.rejected then is_not_broadcast (codes p.rejection_err) else false

-- The position of a cell that is released.
abbrev pub released : CellChain → CellPosition
released tip = record { tip = tip; position = zero_position }

-- The adopted steps, written one after the other.
unfoldable pub record_steps : Store → ℕ → ℕ → List CellChain → Store
unfolding record_generation record_tx
record_steps s cell now [] = s
record_steps s cell now (t ∷ steps) =
    record_steps
      (record_tx (record_generation s t.generation t.row_hex) (record {
        generation = t.generation;
        cell = cell;
        txid = t.txid;
        status = broadcast;
        err = "";
        updated_at = now;
      }))
      cell now steps

-- The record that a resumed cell was examined for is taken away; `none` is the store's error.
unfoldable pub retract : Store → ℕ → CellPosition → Option Store
unfolding delete_attempt delete_rejection delete_unsigned_rejection
retract s cell p =
    if p.unknown
    then some (delete_attempt s p.attempted cell)
    else if p.rejected && is_empty p.rejection_txid
    then some (delete_unsigned_rejection s p.rejected_at cell)
    else if p.rejected
    then delete_rejection s p.rejected_at cell p.rejection_txid
    else some s

unfoldable pub apply_verdict :
    Store → ℕ → ℕ → CellPosition → Recovery → Verdict → Option (Store × CellPosition)
unfolding record_steps retract
apply_verdict s cell now p rec verdict_adopt =
    some (record_steps s cell now rec.steps, released rec.tip)
apply_verdict s cell now p rec verdict_resume = do
  s' ← retract s cell p
  some (s', released rec.tip)
apply_verdict s cell now p rec verdict_halt = some (s, p)

unfoldable pub apply_recovery :
    Store → ℕ → ℕ → CellPosition → Recovery → Option (Store × CellPosition)
unfolding apply_verdict
apply_recovery s cell now p rec = apply_verdict s cell now p rec rec.verdict

-- For a cell of the ring.
unfoldable pub adopt_repaired : Runtime → ℕ → CellPosition → Runtime
unfolding frontier_locked
adopt_repaired e cell p =
    let installed : Runtime = record e {
      engine = record e.engine {
        tips = set e.engine.tips cell p.tip;
        halted = put e.engine.halted cell p.halted;
      };
      halt_reason =
          put e.halt_reason cell (if p.halted then some (derived_as p.halt_reason) else none);
    } in
    record installed {
      engine = record installed.engine { generation = frontier_locked installed.engine };
    }

unfoldable pub halt_repair : Runtime → ℕ → HaltReason → Runtime
halt_repair e cell reason = record e {
  engine = record e.engine { halted = put e.engine.halted cell true };
  halt_reason = put e.halt_reason cell (some reason);
  needs_repair = put e.needs_repair cell false;
}

module _ (k : Sdk) (l : Ledger) (c : Compiled) (d : Deployment)
    (oracle : Option (String → Option ArcadeStatus)) where
  -- `Step` does not panic on a row that was read.
  unfoldable pub recover_spent : Store → CellPosition → Recovery
  unfolding recover_spent_tip tip_row next_row has_txid
  recover_spent s p = elim (tip_row p.tip d.cells >>= next_row d.rule) [
    | none ↦ halt []
    | some next ↦
        recover_spent_tip k l c (λ txid. some (has_txid s txid)) oracle p.tip
          (codes p.rejection_err) next
  ]

  -- Every repair that establishes what happened.
  unfoldable pub explained : Store → CellPosition → Recovery
  unfolding recover_spent recover_stale_rejection is_spent_tip
  explained s p =
      let stale = recover_stale_rejection k l p.tip p.rejected_at p.rejection_txid in
      if not (is_spent_tip p)
      then stale
      else (let rec = recover_spent s p in
          if not (is_halt rec.verdict) then rec else if is_resume stale.verdict then stale else rec)

  unfoldable pub recover_rejected : Store → CellPosition → Bool → Recovery
  unfolding explained retry_refusal recover_not_broadcast is_never_broadcast
  recover_rejected s p retry_refused =
      if is_never_broadcast p
      then recover_not_broadcast p.tip p.rejected_at p.rejection_txid (codes p.rejection_err)
      else (let rec = explained s p in
          if not (is_halt rec.verdict) || not retry_refused
          then rec
          else (let retry =
                retry_refusal k l p.tip p.rejected_at p.rejection_txid (codes p.rejection_err) in
              if is_resume retry.verdict then retry else rec))

  -- `none` is a cell with nothing to decide.
  unfoldable pub decide_cell : Store → CellPosition → Bool → Option Recovery
  unfolding recover_cell recover_rejected
  decide_cell s p retry_refused =
      if p.unknown
      then some (recover_cell k l c d.cells d.rule p.tip p.attempted tip_depth)
      else if p.rejected
      then some (recover_rejected s p retry_refused)
      else none
