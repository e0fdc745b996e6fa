-- ===== src/Engine/Derive.antt =====
-- internal/engine/derive.go: the classification of one cell from its newest records. A message of the
-- source is a constructor that holds the values printed in it.
use rule_110_arcade.Base.{
  ℕ, ◌+◌, Bool, true, false, Option, none, some, List, [], ◌∷◌, String, ltb, leb, if◌then◌else◌,
  is_empty, length, u64,
}
use rule_110_arcade.History.{Status, attempting, failed}
use rule_110_arcade.History.Tips.{Tip, DeepTip, is_settled_status}

abbrev pub tip_depth : ℕ
tip_depth = 8

abbrev pub max_wreckage : ℕ
max_wreckage = 3

pub data Reason : Type 0 where
  no_reason : Reason
  underivable : (generation : ℕ) (status : Status) → Reason
  buried : (tip failed : ℕ) (err : String) (records : ℕ) → Reason
  unresolved : (generation : ℕ) → Reason
  cascade : (tip above generation : ℕ) (err : String) → Reason
  refused : (generation tip above : ℕ) (err : String) → Reason

-- `CellPosition` without its `Tip`, which is filled in from the claim below.
pub record Position : Type 0 where
  pub halted : Bool
  pub halt_reason : Reason
  pub attempted : ℕ
  pub unknown : Bool
  pub rejected : Bool
  pub rejected_at : ℕ
  pub rejection_err : String
  pub rejection_txid : String

abbrev pub zero_position : Position
zero_position = record {
  halted = false;
  halt_reason = no_reason;
  attempted = 0;
  unknown = false;
  rejected = false;
  rejected_at = 0;
  rejection_err = "";
  rejection_txid = "";
}

-- The generation and the transaction that a cell's tip is claimed to be.
pub record Claim : Type 0 where
  pub gen : ℕ
  pub txid : String

unfoldable pub newest_settled : List Tip → Option Tip
newest_settled [] = none
newest_settled (r ∷ rs) =
    let rest = newest_settled rs in
    if is_settled_status r.status then (if is_empty r.txid then rest else some r) else rest

unfoldable pub note_rejection : Position → ℕ → Tip → ℕ → Position
note_rejection p tip r above =
    if ltb max_wreckage above
    then record p { halted = true; halt_reason = cascade tip above r.generation r.err }
    else record p {
      halted = true;
      halt_reason = refused r.generation tip above r.err;
      rejected = true;
      rejected_at = r.generation;
      rejection_err = r.err;
      rejection_txid = r.txid;
    }

-- The variables of the loop over the records above the tip.
pub record Wreck : Type 0 where
  pub failure : Option Tip
  pub failures : ℕ
  pub attempt : Option Tip
  pub attempts : ℕ

abbrev pub no_wreck : Wreck
no_wreck = record { failure = none; failures = 0; attempt = none; attempts = 0 }

unfoldable pub count_record : Status → Tip → Wreck → Wreck
count_record failed r w = record w { failure = some r; failures = w.failures + 1 }
count_record attempting r w = record w { attempt = some r; attempts = w.attempts + 1 }
count_record _ r w = w

unfoldable pub survey : ℕ → List Tip → Wreck → Wreck
unfolding count_record
survey base [] w = w
survey base (r ∷ rs) w =
    let rest = survey base rs (count_record r.status r w) in
    if leb r.generation base then w else rest

unfoldable pub note_failure : ℕ → Wreck → Option Tip → Position
unfolding note_rejection
note_failure base w none = zero_position
note_failure base w (some r) = note_rejection zero_position base r w.failures

unfoldable pub note_attempt : ℕ → Wreck → Option Tip → Position → Position
note_attempt base w none p = p
note_attempt base w (some r) p = if ltb max_wreckage w.failures then p else record p {
  unknown = true;
  halted = true;
  attempted = u64 (base + 1);
  halt_reason = unresolved r.generation;
}

-- The tip is inside the window.
unfoldable pub judge_shallow : List Tip → Tip → Position
unfolding survey note_failure note_attempt
judge_shallow rows base =
    let w = survey base.generation rows no_wreck in
    note_attempt base.generation w w.attempt (note_failure base.generation w w.failure)

-- The tip is below the window.
unfoldable pub judge_deep : ℕ → Tip → Option Tip → Option Tip → Position
judge_deep records base (some f) attempt = record zero_position {
  halted = true;
  halt_reason = buried base.generation f.generation f.err records;
}
judge_deep records base none (some a) = record zero_position {
  unknown = true;
  halted = true;
  attempted = u64 (base.generation + 1);
  halt_reason = unresolved a.generation;
}
judge_deep records base none none = zero_position

unfoldable pub dig : Tip → ℕ → DeepTip → Option Tip → Claim × Position
unfolding judge_deep
dig newest records deep none = (
  record { gen = 0; txid = "" },
  record zero_position { halted = true; halt_reason = underivable newest.generation newest.status },
)
dig newest records deep (some base) = (
  record { gen = base.generation; txid = base.txid },
  judge_deep records base deep.failure deep.attempt,
)

unfoldable pub judge : Tip → List Tip → DeepTip → Option Tip → Claim × Position
unfolding dig judge_shallow
judge newest rows deep none = dig newest (length rows) deep deep.settled
judge newest rows deep (some base) =
    (record { gen = base.generation; txid = base.txid }, judge_shallow rows base)

-- One turn of the loop over the cells: `deep` is what `DeepTip` answers for the cell.
unfoldable pub classify : String → List Tip → DeepTip → Claim × Position
unfolding judge newest_settled
classify genesis_txid [] deep = (record { gen = 0; txid = genesis_txid }, zero_position)
classify genesis_txid (r ∷ rs) deep = judge r (r ∷ rs) deep (newest_settled (r ∷ rs))
