-- ===== src/Audit.antt =====
-- internal/audit/audit.go: the report of an audit and the state it runs on. The texts of failures and
-- gaps are left out; each stands for the call that writes it.
pub mod Preimage
pub mod ScriptCode
pub mod Fetch
pub mod Cell
pub mod Run
pub mod Evidence
pub mod Proves
pub mod Genuine
pub mod Transition
pub mod Cells
pub mod Leads
pub mod Passes
pub mod Complete
pub mod Sound
pub mod Ends
pub mod Exact
pub mod Recorded
use rule_110_arcade.Base.{
  ℕ, suc, ◌+◌, Bool, true, false, Option, none, some, List, [], ◌∷◌, ◌++◌, String, length, ltb, leb,
  ◌==◌, if◌then◌else◌,
}
use rule_110_arcade.Ca.{Row}
use rule_110_arcade.Chain.{Tx}

pub data Check : Type 0 where
  continuity identity linkage binding covenant neighbourhood carried_row rule_check successor :
      Check

-- A generation's own finding has no cell.
pub record Failure : Type 0 where
  pub generation : ℕ
  pub cell : Option ℕ
  pub check : Check

pub data Reason : Type 0 where
  no_row not_derivable not_recorded no_txid refused_there no_seed no_outpoint no_bytes : Reason

pub record Gap : Type 0 where
  pub generation : ℕ
  pub cell : Option ℕ
  pub reason : Reason

pub record Report : Type 0 where
  pub from : ℕ
  pub to : ℕ
  pub generations : ℕ
  pub transactions : ℕ
  pub passed : Check → ℕ
  pub failures : List Failure
  pub gaps : List Gap
  pub truncated : Bool

-- `MaxFailures` that is not positive is 0 here.
pub record Options : Type 0 where
  pub from : ℕ
  pub to : ℕ
  pub seed : Option Row
  pub max_failures : ℕ

-- The report and the two caches. `prev` begins as a nil map, which reads as an empty one.
pub record Auditor : Type 0 where
  pub rep : Report
  pub txs : List (String × Tx)
  pub prev : List (String × Tx)

-- `Report.OK`
unfoldable pub ok : Report → Bool
ok r = length r.failures == 0

abbrev pub check_order : List Check
check_order =
    continuity ∷ identity ∷ linkage ∷ binding ∷ covenant ∷ neighbourhood ∷ carried_row ∷ rule_check
    ∷ successor ∷ []

abbrev pub check_index : Check → ℕ
check_index continuity = 0
check_index identity = 1
check_index linkage = 2
check_index binding = 3
check_index covenant = 4
check_index neighbourhood = 5
check_index carried_row = 6
check_index rule_check = 7
check_index successor = 8

-- Every key of the map is one of the checks.
unfoldable pub total_of : (Check → ℕ) → List Check → ℕ
total_of passed [] = 0
total_of passed (c ∷ cs) = passed c + total_of passed cs

unfoldable pub passed_total : Report → ℕ
unfolding total_of
passed_total r = total_of r.passed check_order

unfoldable pub counts_of : (Check → ℕ) → List Check → List (Check × ℕ)
counts_of passed [] = []
counts_of passed (c ∷ cs) =
    let rest = counts_of passed cs in if ltb 0 (passed c) then (c, passed c) ∷ rest else rest

unfoldable pub counts : Report → List (Check × ℕ)
unfolding counts_of
counts r = counts_of r.passed check_order

-- One part of the audit: `none` is a panic or an error that ends it, and an inner `none` a return
-- from the function after it has reported something.
abbrev pub Step : Type 0 → Type 0
Step A = Auditor → Option (Option A × Auditor)

unfoldable pub pure : {A : Type 0} → A → Step A
pure x a = some (some x, a)

-- A value, or a panic.
unfoldable pub lift : {A : Type 0} → Option A → Step A
lift none a = none
lift (some x) a = some (some x, a)

-- A value that the audit needs, or the step for its absence; a test likewise.
unfoldable pub or_else : {A : Type 0} → Option A → Step A → Step A
unfolding pure
or_else none other = other
or_else (some x) other = pure x

unfoldable pub ensure : Bool → Step (Unit {0}) → Step (Unit {0})
unfolding pure
ensure true other = pure tt
ensure false other = other

abbrev pub proceed :
    {A B : Type 0} → Option (Option A × Auditor) → (A → Step B) → Option (Option B × Auditor)
proceed none f = none
proceed (some (none, a)) f = some (none, a)
proceed (some (some x, a)) f = f x a

infixl 5 ◌>>=◌ ◌>>◌
-- Opening this opens the steps above.
unfoldable pub ◌>>=◌ : {A B : Type 0} → Step A → (A → Step B) → Step B
unfolding pure lift or_else ensure
◌>>=◌ m f a = proceed (m a) f

abbrev pub ◌>>◌ : {B : Type 0} → Step (Unit {0}) → Step B → Step B
m >> k = m >>= λ _. k

unfoldable pub pass_in : Check → Report → Report
pass_in c r = record r {
  passed = λ d. if check_index d == check_index c then suc (r.passed d) else r.passed d;
}

unfoldable pub pass : Check → Step (Unit {0})
unfolding pass_in
pass c a = some (some tt, record a { rep = pass_in c a.rep })

unfoldable pub add_failure : Failure → Auditor → Auditor
add_failure f a = record a { rep = record a.rep { failures = a.rep.failures ++ (f ∷ []) } }

unfoldable pub add_gap : Gap → Auditor → Auditor
add_gap g a = record a { rep = record a.rep { gaps = a.rep.gaps ++ (g ∷ []) } }

-- `fail` and `gap` where the function returns after them.
unfoldable pub fail : {A : Type 0} → ℕ → Option ℕ → Check → Step A
unfolding add_failure
fail generation cell check a =
    some (none, add_failure (record { generation = generation; cell = cell; check = check }) a)

unfoldable pub gap : {A : Type 0} → ℕ → Option ℕ → Reason → Step A
unfolding add_gap
gap generation cell reason a =
    some (none, add_gap (record { generation = generation; cell = cell; reason = reason }) a)

unfoldable pub stop : Options → Auditor → Bool
stop opts a =
    if ltb 0 opts.max_failures then leb opts.max_failures (length a.rep.failures) else false
