-- ===== src/Audit/Run.antt =====
-- internal/audit/audit.go: the audit of a range of generations.
use rule_110_arcade.Base.{
  ℕ, zero, suc, ◌-◌, true, false, not, Option, none, some, [], ltb, ◌==◌, if◌then◌else◌,
}
use rule_110_arcade.Ca.{Row, equal, step as next_row}
use rule_110_arcade.History.{Store}
use rule_110_arcade.Audit.{
  continuity, no_row, not_derivable, no_seed, Report, Options, Auditor, Step, ◌>>=◌, ◌>>◌, pass,
  pass_in, add_failure, add_gap, gap, fail, or_else, ensure, stop,
}
use rule_110_arcade.Audit.Fetch.{World, Recorded, load}
use rule_110_arcade.Audit.Cell.{audit_record}

unfoldable pub rotate : Auditor → Auditor
rotate a = record a { txs = []; prev = a.txs }

-- The state after a function that may have returned early.
abbrev pub after : {A : Type 0} → Option (Option A × Auditor) → Option Auditor
after none = none
after (some (r, a)) = some a

abbrev pub onward : Option Auditor → (Auditor → Option Auditor) → Option Auditor
onward none f = none
onward (some a) f = f a

module _ (v : World) (s : Store) (opts : Options) where
  unfoldable pub audit_seed_row : Recorded → Step (Unit {0})
  unfolding gap fail equal pass
  audit_seed_row cur = do
    seed ← or_else opts.seed (gap 0 none no_seed)
    ensure (equal seed cur.row) (fail 0 none continuity)
    pass continuity

  -- The row against the one that the rule gives; a difference is reported and the cells are still
  -- audited.
  unfoldable pub continuity_with : Recorded → Row → Auditor → Auditor
  unfolding equal pass_in add_failure
  continuity_with cur want a =
      if equal want cur.row
      then record a { rep = pass_in continuity a.rep }
      else add_failure (record { generation = cur.number; cell = none; check = continuity }) a

  unfoldable pub audit_image : Recorded → Option Row → Auditor → Option Auditor
  unfolding continuity_with
  audit_image cur none a = none
  audit_image cur (some want) a = some (continuity_with cur want a)

  -- The loop over the cells with `turns` left, the first of them `cell`.
  unfoldable pub audit_cells : Recorded → Option Recorded → ℕ → ℕ → Auditor → Option Auditor
  unfolding stop audit_record
  audit_cells cur prev zero cell a = some a
  audit_cells cur prev (suc turns) cell a =
      let rest =
        onward (after (audit_record v cur prev cell (cur.cell_tx cell) a))
          (audit_cells cur prev turns (suc cell)) in
      if stop opts a then some a else rest

  -- A generation after the first, whose predecessor may not be recorded.
  unfoldable pub audit_later_generation : Recorded → Option Recorded → Auditor → Option Auditor
  unfolding gap next_row audit_image audit_cells
  audit_later_generation cur none a = after (gap {A = Unit {0}} cur.number none not_derivable a)
  audit_later_generation cur (some p) a =
      if not (suc p.number == cur.number)
      then after (gap {A = Unit {0}} cur.number none not_derivable a)
      else onward (audit_image cur (next_row v.compiled.rule p.row) a)
          (audit_cells cur (some p) v.compiled.cells 0)

  unfoldable pub audit_generation : Recorded → Option Recorded → Auditor → Option Auditor
  unfolding audit_seed_row audit_later_generation audit_cells
  audit_generation cur prev a =
      if cur.number == 0
      then onward (after (audit_seed_row cur a)) (audit_cells cur prev v.compiled.cells 0)
      else audit_later_generation cur prev a

  unfoldable pub previous : ℕ → Option Recorded → Option (Option Recorded)
  unfolding load
  previous zero prev = some prev
  previous (suc g) (some p) = some (some p)
  previous (suc g) none = load v s g

  abbrev pub count_generation : Auditor → Auditor
  count_generation a = record a { rep = record a.rep { generations = suc a.rep.generations } }

  abbrev pub truncate : Auditor → Auditor
  truncate a = record a { rep = record a.rep { truncated = true } }

  -- The end of a turn of `auditor.run`: a return, or the rest of the loop.
  unfoldable pub stop_or : Auditor → (Auditor → Option Auditor) → Option Auditor
  unfolding stop rotate
  stop_or a rest = if stop opts a then some (truncate a) else rest (rotate a)

  -- A turn for the generation `g`, with what was loaded before it and for it.
  unfoldable pub run_turn :
      ℕ
      → Option (Option Recorded)
      → Option (Option Recorded)
      → (Option Recorded → Auditor → Option Auditor)
      → Auditor
      → Option Auditor
  unfolding add_gap audit_generation stop_or rotate
  run_turn g none cur rest a = none
  run_turn g (some prev) none rest a = none
  run_turn g (some prev) (some none) rest a =
      rest none (rotate (add_gap (record { generation = g; cell = none; reason = no_row }) a))
  run_turn g (some prev) (some (some cur)) rest a =
      onward (audit_generation cur prev (count_generation a)) (λ b. stop_or b (rest (some cur)))

  -- The loop of `auditor.run` with `turns` generations left, the first of them `g`, on a context
  -- that is not done. No range ends at the largest uint64.
  unfoldable pub run_loop : ℕ → ℕ → Option Recorded → Auditor → Option Auditor
  unfolding previous load run_turn
  run_loop zero g prev a = some a
  run_loop (suc turns) g prev a =
      run_turn g (previous g prev) (load v s g) (run_loop turns (suc g)) a

  abbrev pub start : Auditor
  start = record {
    rep = record {
      from = opts.from;
      to = opts.to;
      generations = 0;
      transactions = 0;
      passed = λ c. 0;
      failures = [];
      gaps = [];
      truncated = false;
    };
    txs = [];
    prev = [];
  }

  unfoldable pub report_of : Option Auditor → Option Report
  report_of none = none
  report_of (some a) = some a.rep

  -- `Run` on a store, a source and a contract that are there.
  unfoldable pub run : Option Report
  unfolding run_loop report_of
  run =
      if ltb opts.to opts.from
      then none
      else report_of (run_loop (suc opts.to - opts.from) opts.from none start)
