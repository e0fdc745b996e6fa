-- ===== src/Audit/Ends.antt =====
-- internal/audit/audit.go: the audit of a generation that is as it should be ends with a clean report.
use rule_110_arcade.Base.{
  ℕ, zero, suc, ◌<◌, ◌≡◌, ◌≢◌, sym, ap, ◌∙◌, arith, true, false, Option, none, some, ◌==◌, ==_iff,
  ==→ne, if_known, is_empty,
}
use mathlib.Core.Path.{subst}
use mathlib.Core.Option.{some-injective}
use rule_110_arcade.Ca.{Row, step as next_row}
use rule_110_arcade.Cellscript.Pieces.{equal_refl}
use rule_110_arcade.History.{Store, CellTx, is_failed}
use rule_110_arcade.Audit.Evidence.{IsClean, IsTransition, IsProved, IsAudited}
use rule_110_arcade.Audit.{continuity, no_seed, Options, Auditor, Step, gap, pass_in}
use rule_110_arcade.Audit.Fetch.{World, Recorded}
use rule_110_arcade.Audit.Cell.{audit_record, audit_later}
use rule_110_arcade.Audit.Run.{
  after, onward, audit_seed_row, continuity_with, audit_image, audit_cells, audit_later_generation,
  audit_generation,
}
use rule_110_arcade.Audit.Proves.{IsKeeping}
use rule_110_arcade.Audit.Leads.{IsClean-stop, CellsFrom, IsWhole}
use rule_110_arcade.Audit.Passes.{GoesOn, Passes, Passes-pass, Passes-bind, Passes-or_else}
use rule_110_arcade.Audit.Complete.{Passes-test, audit_genesis_cell-Passes, audit_cell-Passes}

module _ (v : World) where
  -- A part of the audit ends with a clean report.
  abbrev pub Ends : Option Auditor → Type 0
  Ends none = ⊥
  Ends (some b) = IsKeeping v b × IsClean b.rep

  GoesOn-Ends :
      {A : Type 0} (x : A) (a : Auditor) (o : Option (Option A × Auditor))
      → GoesOn v x a o
      → IsClean a.rep
      → Ends (after o)
  GoesOn-Ends x a none h c = h
  GoesOn-Ends x a (some (none, b)) h c = elim h [ ]
  GoesOn-Ends x a (some (some y, b)) (e, k, f) c = (k, f c)

  pub Ends-onward :
      (o : Option Auditor) (f : Auditor → Option Auditor)
      → Ends o
      → ((b : Auditor) → IsKeeping v b → IsClean b.rep → Ends (f b))
      → Ends (onward o f)
  Ends-onward none f h g = elim h [ ]
  Ends-onward (some b) f (k, c) g = g b k c

  audit_later-Passes :
      (cur : Recorded) (prev : Option Recorded) (cell : ℕ) (rec : CellTx)
      → v.compiled.rule < 256
      → (p : Recorded) × (prev ≡ some p) × IsTransition v cur p cell rec
      → Passes v (audit_later v cur prev cell rec) tt
  unfolding audit_later
  audit_later-Passes cur none cell rec byte (p, e, t) = absurd (cc e)
  audit_later-Passes cur (some q) cell rec byte (p, e, t) =
      audit_cell-Passes v cur q cell rec byte
        (subst (λ (x : Recorded). IsTransition v cur x cell rec) (sym (some-injective q p e)) t)

  audit_named-Passes :
      (cur : Recorded) (prev : Option Recorded) (cell : ℕ) (rec : CellTx)
      → v.compiled.rule < 256
      → is_empty rec.txid ≡ false
      → is_failed rec.status ≡ false
      → IsProved v cur prev cell rec
      → Passes v (audit_record v cur prev cell (some rec)) tt
  unfolding audit_record
  audit_named-Passes cur prev cell rec byte named live h =
      rw (named, live)
        (if_known (λ (m : Step (Unit {0})). Passes v m tt) (cur.number == 0) _ _
          (λ first.
            audit_genesis_cell-Passes v cur.number cell cur rec
              (h.0 ((==_iff cur.number 0).0 first)))
          (λ later. audit_later-Passes cur prev cell rec byte (h.1 (==→ne cur.number 0 later))))

  audit_record-Passes :
      (cur : Recorded) (prev : Option Recorded) (cell : ℕ) (o : Option CellTx)
      → v.compiled.rule < 256
      → IsAudited v cur prev cell o
      → Passes v (audit_record v cur prev cell o) tt
  audit_record-Passes cur prev cell o byte (rec, e, named, live, h) =
      subst (λ (x : Option CellTx). Passes v (audit_record v cur prev cell x) tt) (sym e)
        (audit_named-Passes cur prev cell rec byte named live h)

module _ (v : World) (s : Store) (opts : Options) (byte : v.compiled.rule < 256) where
  audit_cells-Ends :
      (cur : Recorded) (prev : Option Recorded) (turns cell : ℕ) (a : Auditor)
      → CellsFrom v s opts cur prev turns cell
      → IsKeeping v a
      → IsClean a.rep
      → Ends v (audit_cells v s opts cur prev turns cell a)
  unfolding audit_cells
  audit_cells-Ends cur prev zero cell a h k c = (k, c)
  audit_cells-Ends cur prev (suc turns) cell a h k c =
      let o = cur.cell_tx cell in
      let here = audit_record-Passes v cur prev cell o byte (h cell (omega arith) (omega arith)) in
      rw (IsClean-stop opts a c) (
        Ends-onward v (after (audit_record v cur prev cell o a))
          (audit_cells v s opts cur prev turns (suc cell))
          (GoesOn-Ends v tt a (audit_record v cur prev cell o a) (here.at a k) c)
          (λ b kb cb.
            audit_cells-Ends cur prev turns (suc cell) b
              (λ i l m. h i (omega (arith, l)) (omega (arith, m))) kb cb))

  audit_seed_row-Passes :
      (cur : Recorded) → opts.seed ≡ some cur.row → Passes v (audit_seed_row v s opts cur) tt
  unfolding audit_seed_row
  audit_seed_row-Passes cur e =
      Passes-bind v _ (Passes-or_else v opts.seed (gap 0 none no_seed) cur.row e) (
        Passes-bind v _ (Passes-test v 0 none continuity (equal_refl cur.row))
          (Passes-pass v continuity))

  audit_image-Ends :
      (cur : Recorded) (o : Option Row) (a : Auditor)
      → o ≡ some cur.row
      → IsKeeping v a
      → IsClean a.rep
      → Ends v (audit_image v s opts cur o a)
  unfolding audit_image continuity_with pass_in
  audit_image-Ends cur o a e k c = rw (e, equal_refl cur.row) (k, c)

  audit_later_generation-Ends :
      (cur : Recorded) (prev : Option Recorded) (a : Auditor)
      → cur.number ≢ 0
      → IsWhole v s opts cur prev
      → IsKeeping v a
      → IsClean a.rep
      → Ends v (audit_later_generation v s opts cur prev a)
  unfolding audit_later_generation
  audit_later_generation-Ends cur none a n (row, cells) k c =
      let (p, e, at, image) = row.1 n in absurd (cc e)
  audit_later_generation-Ends cur (some q) a n (row, cells) k c =
      let (p, e, at, image) = row.1 n in
      let same = some-injective q p e in
      let follows : (suc q.number == cur.number) ≡ true =
        (==_iff (suc q.number) cur.number).1 (ap (λ (x : Recorded). suc x.number) same ∙ at) in
      rw (follows) (
        Ends-onward v (audit_image v s opts cur (next_row v.compiled.rule q.row) a)
          (audit_cells v s opts cur (some q) v.compiled.cells 0)
          (audit_image-Ends cur (next_row v.compiled.rule q.row) a
            (ap (λ (x : Recorded). next_row v.compiled.rule x.row) same ∙ image) k c)
          (λ b kb cb.
            audit_cells-Ends cur (some q) v.compiled.cells 0 b (λ i l m. cells i (omega (arith, m)))
              kb cb))

  pub audit_generation-Ends :
      (cur : Recorded) (prev : Option Recorded) (a : Auditor)
      → IsWhole v s opts cur prev
      → IsKeeping v a
      → IsClean a.rep
      → Ends v (audit_generation v s opts cur prev a)
  unfolding audit_generation
  audit_generation-Ends cur prev a (row, cells) k c =
      if_known (Ends v) (cur.number == 0) _ _
        (λ first.
          Ends-onward v (after (audit_seed_row v s opts cur a))
            (audit_cells v s opts cur prev v.compiled.cells 0)
            (GoesOn-Ends v tt a (audit_seed_row v s opts cur a)
              ((audit_seed_row-Passes cur (row.0 ((==_iff cur.number 0).0 first))).at a k) c)
            (λ b kb cb.
              audit_cells-Ends cur prev v.compiled.cells 0 b (λ i l m. cells i (omega (arith, m)))
                kb cb))
        (λ later.
          audit_later_generation-Ends cur prev a (==→ne cur.number 0 later) (row, cells) k c)
