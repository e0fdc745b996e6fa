-- ===== src/Audit/Sound.antt =====
-- internal/audit/audit.go: a clean report means that what ran was the rule.
use rule_110_arcade.Base.{
  ℕ, zero, suc, ◌+◌, ◌-◌, ◌≤◌, ◌<◌, ◌≡◌, ◌≢◌, inl, inr, refl, sym, ap, ◌∙◌, arith, not, Option,
  none, some, List, [], ◌∷◌, ltb, ◌==◌, ==_iff, ==→ne, if_known, option_known, Bool-cases,
  refuse-some,
}
use mathlib.Core.Path.{subst}
use mathlib.Core.Option.{some-injective}
use rule_110_arcade.Ca.{Row, seed_hex, step as next_row}
use rule_110_arcade.Chain.Walk.{later_row}
use rule_110_arcade.Engine.Rows.Computed.{later_row-suc}
use rule_110_arcade.History.{Store}
use rule_110_arcade.History.Load.{Loaded}
use rule_110_arcade.History.Load as history
use rule_110_arcade.Audit.Evidence.{IsClean, IsTransition, AuditedAt}
use rule_110_arcade.Audit.{Gap, no_row, Report, Options, Auditor, add_gap, stop}
use rule_110_arcade.Audit.Fetch.{World, Recorded, cell_map, recorded_of, load}
use rule_110_arcade.Audit.Run.{
  audit_generation, previous, count_generation, truncate, rotate, stop_or, run_turn, run_loop,
  start, report_of, run,
}
use rule_110_arcade.Audit.Proves.{IsKeeping, snoc-nil}
use rule_110_arcade.Audit.Leads.{
  IsClean-stop, Leads, Leads-onward, Leads-later, above, IsWhole, audit_generation-Leads,
}

recorded_of-number :
    (v : World) (g : ℕ) (gens : List Loaded) (cur : Recorded)
    → recorded_of v g gens ≡ some (some cur)
    → cur.number ≡ g
unfolding recorded_of
recorded_of-number v g [] cur = λ e. absurd (cc (some-injective _ _ e))
recorded_of-number v g (x ∷ gens) cur =
    let P : Option (Option Recorded) → Type 0 = λ o. o ≡ some (some cur) → cur.number ≡ g in
    let fresh : Row → Recorded = λ row. record {
      number = g;
      row = row;
      cell_tx = cell_map v.compiled.cells x.txs (λ cell. none);
    } in
    if_known P (not (x.number == g)) (some none) _ (λ _ e. absurd (cc (some-injective _ _ e)))
      (λ _.
        option_known P (seed_hex v.compiled.cells x.row_hex) none (λ row. some (some (fresh row)))
          (λ e. absurd (cc e))
          (λ row _ e.
            ap (λ (r : Recorded). r.number)
              (sym
                (some-injective (fresh row) cur (some-injective (some (fresh row)) (some cur) e)))))

pub load-number :
    (v : World) (s : Store) (g : ℕ) (cur : Recorded) → load v s g ≡ some (some cur) → cur.number ≡ g
unfolding load
load-number v s g cur e = recorded_of-number v g (history.load s g 1) cur e

module _ (v : World) (s : Store) (opts : Options) where
  -- What the loop keeps of the generation before.
  abbrev pub IsBefore : ℕ → Option Recorded → Type 0
  IsBefore g prev =
      (p : Recorded) → prev ≡ some p → (k : ℕ) × (g ≡ suc k) × (load v s k ≡ some (some p))

  previous-IsBefore :
      (g : ℕ) (prev before : Option Recorded)
      → previous v s opts g prev ≡ some before
      → IsBefore g prev
      → IsBefore g before
  unfolding previous
  previous-IsBefore zero prev before e h p f = h p (some-injective prev before e ∙ f)
  previous-IsBefore (suc g) (some q) before e h p f = h p (some-injective (some q) before e ∙ f)
  previous-IsBefore (suc g) none before e h p f =
      (g, refl, e ∙ ap (λ (o : Option Recorded). some o) f)

  IsWhole-AuditedAt :
      (g : ℕ) (cur : Recorded) (prev : Option Recorded)
      → load v s g ≡ some (some cur)
      → IsBefore g prev
      → IsWhole v s opts cur prev
      → AuditedAt v s opts g
  IsWhole-AuditedAt zero cur prev e b (row, cells) =
      let z = load-number v s 0 cur e in
      (
        cur,
        e,
        row.0 z,
        λ i h. let (rec, at, named, live, proved) = cells i h in (rec, at, named, live, proved.0 z),
      )
  IsWhole-AuditedAt (suc k) cur prev e b (row, cells) =
      let z = load-number v s (suc k) cur e in
      let n : cur.number ≢ 0 = λ f. absurd (omega (arith, z, f)) in
      let (p, at, next, image) = row.1 n in
      let (j, same, loaded) = b p at in
      let down : j ≡ k = omega (arith, same) in
      (
        p,
        cur,
        subst (λ (x : ℕ). load v s x ≡ some (some p)) down loaded,
        e,
        image,
        λ i h.
            let (rec, there, named, live, proved) = cells i h in
            let (q, at', moved) = proved.1 n in
            (
              rec,
              there,
              named,
              live,
              subst (λ (x : Recorded). IsTransition v cur x i rec)
                  (some-injective q p (sym at' ∙ at)) moved,
            ),
      )

  stop_or-Leads :
      (Q : Type 0) (a : Auditor) (rest : Auditor → Option Auditor)
      → IsKeeping v a
      → ((b : Auditor) → IsKeeping v b → Leads v Q b (rest b))
      → Leads v Q a (stop_or v s opts a rest)
  unfolding stop_or rotate
  stop_or-Leads Q a rest k f =
      if_known (Leads v Q a) (stop opts a) (some (truncate v s opts a)) (rest (rotate a))
        (λ full. (k, λ c. absurd (cc (full, IsClean-stop opts a c))))
        (λ room.
          Leads-later v (Unit {0}) Q Q a (rotate a) (rest (rotate a)) (λ c. (c, tt)) (λ _ q. q)
            (f (rotate a) (tt, k.0)))

  run_turn-Leads :
      (g : ℕ) (before o : Option (Option Recorded)) (Q : Type 0)
      (rest : Option Recorded → Auditor → Option Auditor) (a : Auditor)
      → IsKeeping v a
      → ((prev : Option Recorded) → before ≡ some prev → IsBefore g prev)
      → load v s g ≡ o
      → ((prev : Option Recorded) (b : Auditor)
          → IsBefore (suc g) prev
          → IsKeeping v b
          → Leads v Q b (rest prev b))
      → Leads v (AuditedAt v s opts g × Q) a (run_turn v s opts g before o rest a)
  unfolding run_turn add_gap rotate
  run_turn-Leads g none o Q rest a k hb e f = tt
  run_turn-Leads g (some prev) none Q rest a k hb e f = tt
  run_turn-Leads g (some prev) (some none) Q rest a k hb e f =
      let lost : Gap = record { generation = g; cell = none; reason = no_row } in
      Leads-later v (AuditedAt v s opts g) Q (AuditedAt v s opts g × Q) a (rotate (add_gap lost a))
        (rest none (rotate (add_gap lost a))) (λ c. absurd (snoc-nil v a.rep.gaps lost c.1))
        (λ p q. (p, q)) (f none (rotate (add_gap lost a)) (λ p x. absurd (cc x)) (tt, k.0))
  run_turn-Leads g (some prev) (some (some cur)) Q rest a k hb e f =
      let here = audit_generation v s opts cur prev (count_generation v s opts a) in
      Leads-onward v (IsWhole v s opts cur prev) Q (AuditedAt v s opts g × Q) a here
        (λ b. stop_or v s opts b (rest (some cur)))
        (audit_generation-Leads v s opts cur prev (count_generation v s opts a) k)
        (λ b kb. stop_or-Leads Q b (rest (some cur)) kb (λ b' kb'.
          f (some cur) b' (λ p x. (g, refl, e ∙ ap (λ (r : Option Recorded). some r) x)) kb'))
        (λ w q. (IsWhole-AuditedAt g cur prev e (hb prev refl) w, q))

  Leads-weaken :
      (P Q : Type 0) (a : Auditor) (o : Option Auditor) → (P → Q) → Leads v P a o → Leads v Q a o
  Leads-weaken P Q a none w h = tt
  Leads-weaken P Q a (some b) w (k, h) = (k, λ c. let (d, p) = h c in (d, w p))

  run_loop-Leads :
      (turns g : ℕ) (prev : Option Recorded) (a : Auditor)
      → IsKeeping v a
      → IsBefore g prev
      → Leads v
          ((j : ℕ) → g ≤ j → j < g + turns → AuditedAt v s opts j)
          a
          (run_loop v s opts turns g prev a)
  unfolding run_loop
  run_loop-Leads zero g prev a k b = (k, λ c. (c, λ j h l. absurd (omega (arith, h, l))))
  run_loop-Leads (suc turns) g prev a k b =
      let Rest : Type 0 = (j : ℕ) → suc g ≤ j → j < suc g + turns → AuditedAt v s opts j in
      let rest = run_loop v s opts turns (suc g) in
      Leads-weaken (AuditedAt v s opts g × Rest)
        ((j : ℕ) → g ≤ j → j < g + suc turns → AuditedAt v s opts j) a
        (run_turn v s opts g (previous v s opts g prev) (load v s g) rest a)
        (λ w j h l. elim (Bool-cases (g == j)) [
          | inl same ↦ subst (AuditedAt v s opts) ((==_iff g j).0 same) w.0
          | inr other ↦ w.1 j (above g j h (==→ne g j other)) (omega (arith, l))
        ])
        (run_turn-Leads g (previous v s opts g prev) (load v s g) Rest rest a k
          (λ before e. previous-IsBefore g prev before e b) refl
          (λ p a' b' k'. run_loop-Leads turns (suc g) p a' k' b'))

  report_of_clean :
      (a : Option Auditor) (rep : Report) (Q : Type 0)
      → Leads v Q (start v s opts) a
      → report_of v s opts a ≡ some rep
      → IsClean rep
      → Q
  unfolding report_of
  report_of_clean none rep Q h e c = absurd (cc e)
  report_of_clean (some b) rep Q (k, h) e c =
      (h (subst IsClean (sym (some-injective b.rep rep e)) c)).1

  -- Of a range that an audit reports on with no failure and no gap, every generation is recorded, the
  -- first of all has the seed's row and the cells' outputs in its transactions; every later one has
  -- the row that the rule gives for its predecessor's, and of each cell a transaction that spends the
  -- cell's own last output, whose covenant carries all of the predecessor's row, with the preimage of
  -- this very spend, and whose continuation is the cell's covenant with the bit that the rule gives.
  pub run-AuditedAt :
      (rep : Report) (j : ℕ)
      → run v s opts ≡ some rep
      → IsClean rep
      → opts.from ≤ j
      → j ≤ opts.to
      → AuditedAt v s opts j
  unfolding run
  run-AuditedAt rep j e c h l =
      let (ordered, e1) = refuse-some (ltb opts.to opts.from) _ e in
      let turns = suc opts.to - opts.from in
      let start_rep = start v s opts in
      report_of_clean (run_loop v s opts turns opts.from none start_rep) rep
        ((i : ℕ) → opts.from ≤ i → i < opts.from + turns → AuditedAt v s opts i)
        (run_loop-Leads turns opts.from none start_rep (tt, tt) (λ p x. absurd (cc x))) e1 c j h
        (omega (arith, h, l))

  -- Of a clean audit from the first generation on, the row of every generation of the range is the
  -- one that the rule gives from the seed.
  pub run-later_row :
      (rep : Report) (j : ℕ)
      → run v s opts ≡ some rep
      → IsClean rep
      → opts.from ≡ 0
      → j ≤ opts.to
      → (seed : Row) × (cur : Recorded) × (opts.seed ≡ some seed)
        × (load v s j ≡ some (some cur))
        × (later_row v.compiled.rule j seed ≡ some cur.row)
  run-later_row rep zero e c z l =
      let (cur, at, seeded, cells) = run-AuditedAt rep 0 e c (omega (arith, z)) l in
      (cur.row, cur, seeded, at, refl)
  run-later_row rep (suc j) e c z l =
      let (seed, p, seeded, at, row) = run-later_row rep j e c z (omega (arith, l)) in
      let (prev, cur, at', there, image, cells) =
        run-AuditedAt rep (suc j) e c (omega (arith, z)) l in
      (
        seed,
        cur,
        seeded,
        there,
        later_row-suc v.compiled.rule j seed p.row cur.row row (
            subst (λ (x : Recorded). next_row v.compiled.rule x.row ≡ some cur.row)
              (some-injective prev p (some-injective (some prev) (some p) (sym at' ∙ at))) image),
      )
