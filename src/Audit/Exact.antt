-- ===== src/Audit/Exact.antt =====
-- internal/audit/audit.go: an audit of what the rule made is clean.
use rule_110_arcade.Base.{
  ℕ, zero, suc, ◌+◌, ◌-◌, ◌≤◌, ◌<◌, ◌≡◌, ◌≢◌, refl, sym, ap, ◌∙◌, arith, false, Option, none, some,
  ltb,
}
use rule_110_arcade.History.{Store}
use rule_110_arcade.Audit.Evidence.{IsClean, AuditedAt}
use rule_110_arcade.Audit.{Report, Options, Auditor}
use rule_110_arcade.Audit.Fetch.{World, Recorded, load}
use rule_110_arcade.Audit.Run.{
  rotate, audit_generation, previous, count_generation, stop_or, run_turn, run_loop, start,
  report_of, run,
}
use rule_110_arcade.Audit.Proves.{IsKeeping}
use rule_110_arcade.Audit.Leads.{IsClean-stop, IsWhole}
use rule_110_arcade.Audit.Sound.{load-number, IsBefore}
use rule_110_arcade.Audit.Ends.{Ends, Ends-onward, audit_generation-Ends}

module _ (v : World) (s : Store) (opts : Options) (byte : v.compiled.rule < 256) where
  -- What the loop finds for a generation that passes.
  abbrev Found : ℕ → Option Recorded → Type 0
  Found g prev =
      (before : Option Recorded) × (cur : Recorded) × (previous v s opts g prev ≡ some before)
      × (load v s g ≡ some (some cur))
      × IsWhole v s opts cur before

  previous-lem :
      (k : ℕ) (prev : Option Recorded) (p : Recorded)
      → IsBefore v s opts (suc k) prev
      → load v s k ≡ some (some p)
      → previous v s opts (suc k) prev ≡ some (some p)
  unfolding previous
  previous-lem k none p b e = e
  previous-lem k (some q) p b e =
      let (j, same, at) = b q refl in
      let down : j ≡ k = omega (arith, same) in sym at ∙ ap (load v s) down ∙ e

  AuditedAt-Found :
      (g : ℕ) (prev : Option Recorded)
      → IsBefore v s opts g prev
      → AuditedAt v s opts g
      → Found g prev
  unfolding previous
  AuditedAt-Found zero prev b (cur, at, seeded, cells) =
      let z = load-number v s 0 cur at in
      (
        prev,
        cur,
        refl,
        at,
        (
          (λ _. seeded, λ n. absurd (n z)),
          λ i h.
              let (rec, there, named, live, g) = cells i h in
              (rec, there, named, live, (λ _. g, λ n. absurd (n z))),
        ),
      )
  AuditedAt-Found (suc k) prev b (p, cur, at', at, image, cells) =
      let z = load-number v s (suc k) cur at in
      let y = load-number v s k p at' in
      let n : cur.number ≢ 0 = λ f. absurd (omega (arith, z, f)) in
      (
        some p,
        cur,
        previous-lem k prev p b at',
        at,
        (
          (λ f. absurd (n f), λ _. (p, refl, omega (arith, y, z), image)),
          λ i h.
              let (rec, there, named, live, g) = cells i h in
              (rec, there, named, live, (λ f. absurd (n f), λ _. (p, refl, g))),
        ),
      )

  run_turn-Ends :
      (g : ℕ) (before : Option Recorded) (cur : Recorded)
      (rest : Option Recorded → Auditor → Option Auditor) (a : Auditor)
      → IsWhole v s opts cur before
      → ((b : Auditor) → IsKeeping v b → IsClean b.rep → Ends v (rest (some cur) b))
      → IsKeeping v a
      → IsClean a.rep
      → Ends v (run_turn v s opts g (some before) (some (some cur)) rest a)
  unfolding run_turn stop_or rotate
  run_turn-Ends g before cur rest a w f k c =
      Ends-onward v (audit_generation v s opts cur before (count_generation v s opts a))
        (λ b. stop_or v s opts b (rest (some cur)))
        (audit_generation-Ends v s opts byte cur before (count_generation v s opts a) w k c)
        (λ b kb cb. rw (IsClean-stop opts b cb) (f (rotate b) (tt, kb.0) cb))

  run_loop-Ends :
      (turns g : ℕ) (prev : Option Recorded) (a : Auditor)
      → ((j : ℕ) → g ≤ j → j < g + turns → AuditedAt v s opts j)
      → IsBefore v s opts g prev
      → IsKeeping v a
      → IsClean a.rep
      → Ends v (run_loop v s opts turns g prev a)
  unfolding run_loop
  run_loop-Ends zero g prev a h b k c = (k, c)
  run_loop-Ends (suc turns) g prev a h b k c =
      let (before, cur, e, at, whole) =
        AuditedAt-Found g prev b (h g (omega arith) (omega arith)) in
      rw (e, at)
        (run_turn-Ends g before cur (run_loop v s opts turns (suc g)) a whole
          (λ b' kb cb.
            run_loop-Ends turns (suc g) (some cur) b'
              (λ j l m. h j (omega (arith, l)) (omega (arith, m)))
              (λ p x. (g, refl, at ∙ ap (λ (o : Option Recorded). some o) x)) kb cb)
          k c)

  report_of-lem :
      (o : Option Auditor)
      → Ends v o
      → (rep : Report) × (report_of v s opts o ≡ some rep) × IsClean rep
  unfolding report_of
  report_of-lem none h = elim h [ ]
  report_of-lem (some b) (k, c) = (b.rep, refl, c)

  -- Of a range in which every generation is recorded, with the row that the rule gives and the
  -- transactions of its cells as they should be, under a rule of one byte, the audit reports, with
  -- no failure and no gap. A continuation is as it should be if it is the cell's covenant for the
  -- row that was presented and agrees with the record at the cell's own bit, whatever its other
  -- bits are.
  pub run-IsClean :
      opts.from ≤ opts.to
      → ((j : ℕ) → opts.from ≤ j → j ≤ opts.to → AuditedAt v s opts j)
      → (rep : Report) × (run v s opts ≡ some rep) × IsClean rep
  unfolding run
  run-IsClean h f =
      let turns = suc opts.to - opts.from in
      let ordered : ltb opts.to opts.from ≡ false = ground (arith, h) in
      rw (ordered) (
        report_of-lem (run_loop v s opts turns opts.from none (start v s opts)) (
          run_loop-Ends turns opts.from none (start v s opts) (λ j l m. f j l (omega (arith, l, m)))
            (λ p x. absurd (cc x)) (tt, tt) (refl, refl)))
