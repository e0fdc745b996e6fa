-- ===== src/Audit/Leads.antt =====
-- internal/audit/audit.go: what the loops of an audit keep.
use rule_110_arcade.Base.{
  ℕ, zero, suc, ◌+◌, ◌≤◌, ◌<◌, ◌≡◌, ◌≢◌, refl, ap, ◌∙◌, arith, false, not, Option, none, some, ◌==◌,
  ==_iff, ==→ne, if_known, Bool-cases, inl, inr, not-false,
}
use mathlib.Core.Path.{subst}
use rule_110_arcade.Ca.{Row, equal, step as next_row}
use rule_110_arcade.Chain.Successor.{equal_sound}
use rule_110_arcade.History.{Store}
use rule_110_arcade.Audit.Evidence.{IsClean, IsAudited}
use rule_110_arcade.Audit.{
  continuity, not_derivable, no_seed, Options, Auditor, pass_in, add_failure, gap, stop,
}
use rule_110_arcade.Audit.Fetch.{World, Recorded}
use rule_110_arcade.Audit.Cell.{audit_record}
use rule_110_arcade.Audit.Run.{
  after, onward, audit_seed_row, continuity_with, audit_image, audit_cells, audit_later_generation,
  audit_generation,
}
use rule_110_arcade.Audit.Proves.{
  IsKeeping, EndsWith, Proves, Proves-gap, Proves-pass, Proves-bind, Proves-weaken, Proves-or_gap,
  Proves-test, snoc-nil,
}
use rule_110_arcade.Audit.Cells.{audit_record-Proves}

pub above : (m i : ℕ) → m ≤ i → m ≢ i → suc m ≤ i
above m i h n = grind arith

-- A report that is clean is not at its limit.
pub IsClean-stop : (opts : Options) (a : Auditor) → IsClean a.rep → stop opts a ≡ false
unfolding stop
IsClean-stop opts a c = rw (c.0) (ground arith)

module _ (v : World) where
  -- What a part of the audit leads to from `a`: if the report is clean at its end, it was so
  -- before, and `Q`.
  abbrev pub Leads : Type 0 → Auditor → Option Auditor → Type 0
  Leads Q a none = Unit {0}
  Leads Q a (some b) = IsKeeping v b × (IsClean b.rep → IsClean a.rep × Q)

  pub Leads-after :
      {A : Type 0} (Q : Type 0) (a : Auditor) (o : Option (Option A × Auditor))
      → EndsWith v (λ (x : A). Q) a o
      → Leads Q a (after o)
  Leads-after Q a none e = tt
  Leads-after Q a (some (none, b)) (k, n) = (k, λ c. absurd (n c))
  Leads-after Q a (some (some x, b)) (k, (q, back)) = (k, λ c. (back c, q))

  pub Leads-later :
      (P Q R : Type 0) (a b : Auditor) (o : Option Auditor)
      → (IsClean b.rep → IsClean a.rep × P)
      → (P → Q → R)
      → Leads Q b o
      → Leads R a o
  Leads-later P Q R a b none back f e = tt
  Leads-later P Q R a b (some c) back f (k, g) =
      (k, λ h. let (h', q) = g h in let (h'', p) = back h' in (h'', f p q))

  pub Leads-onward :
      (P Q R : Type 0) (a : Auditor) (o : Option Auditor) (f : Auditor → Option Auditor)
      → Leads P a o
      → ((b : Auditor) → IsKeeping v b → Leads Q b (f b))
      → (P → Q → R)
      → Leads R a (onward o f)
  Leads-onward P Q R a none f e g w = tt
  Leads-onward P Q R a (some b) f (k, back) g w = Leads-later P Q R a b (f b) back w (g b k)

module _ (v : World) (s : Store) (opts : Options) where
  abbrev pub CellsFrom : Recorded → Option Recorded → ℕ → ℕ → Type 0
  CellsFrom cur prev turns cell =
      (i : ℕ) → cell ≤ i → i < cell + turns → IsAudited v cur prev i (cur.cell_tx i)

  audit_cells-Leads :
      (cur : Recorded) (prev : Option Recorded) (turns cell : ℕ) (a : Auditor)
      → IsKeeping v a
      → Leads v (CellsFrom cur prev turns cell) a (audit_cells v s opts cur prev turns cell a)
  unfolding audit_cells
  audit_cells-Leads cur prev zero cell a k = (k, λ c. (c, λ i h l. absurd (omega (arith, h, l))))
  audit_cells-Leads cur prev (suc turns) cell a k =
      let here = IsAudited v cur prev cell (cur.cell_tx cell) in
      let step = audit_record v cur prev cell (cur.cell_tx cell) a in
      if_known (Leads v (CellsFrom cur prev (suc turns) cell) a) (stop opts a) (some a)
        (onward (after step) (audit_cells v s opts cur prev turns (suc cell)))
        (λ full. (k, λ c. absurd (cc (full, IsClean-stop opts a c))))
        (λ room.
          Leads-onward v here (CellsFrom cur prev turns (suc cell))
            (CellsFrom cur prev (suc turns) cell) a (after step)
            (audit_cells v s opts cur prev turns (suc cell))
            (Leads-after v here a step
              ((audit_record-Proves v cur prev cell (cur.cell_tx cell)).at a k))
            (λ b kb. audit_cells-Leads cur prev turns (suc cell) b kb)
            (λ first rest i h l. elim (Bool-cases (cell == i)) [
              | inl same ↦
                  subst (λ (j : ℕ). IsAudited v cur prev j (cur.cell_tx j)) ((==_iff cell i).0 same)
                    first
              | inr other ↦ rest i (above cell i h (==→ne cell i other)) (omega (arith, l))
            ]))

  -- The row against its evidence: the seed, or the predecessor's image.
  abbrev pub RowIs : Recorded → Option Recorded → Type 0
  RowIs cur prev =
      (cur.number ≡ 0 → opts.seed ≡ some cur.row)
      × (cur.number ≢ 0
          → (p : Recorded) × (prev ≡ some p)
            × (suc p.number ≡ cur.number)
            × (next_row v.compiled.rule p.row ≡ some cur.row))

  -- All that the audit of one generation looks at.
  abbrev pub IsWhole : Recorded → Option Recorded → Type 0
  IsWhole cur prev =
      RowIs cur prev × ((i : ℕ) → i < v.compiled.cells → IsAudited v cur prev i (cur.cell_tx i))

  audit_seed_row-Proves :
      (cur : Recorded) → Proves v (audit_seed_row v s opts cur) (λ _. opts.seed ≡ some cur.row)
  unfolding audit_seed_row
  audit_seed_row-Proves cur = Proves-bind v (Proves-or_gap v opts.seed 0 none no_seed) λ seed known.
      Proves-bind v (Proves-test v (equal seed cur.row) 0 none continuity) λ _ same.
        Proves-weaken v (λ _. Unit {0}) (λ _. opts.seed ≡ some cur.row)
          (λ _ _. known ∙ ap (λ (r : Row). some r) (equal_sound seed cur.row same))
          (Proves-pass v continuity)

  audit_image-Leads :
      (cur : Recorded) (o : Option Row) (a : Auditor)
      → IsKeeping v a
      → Leads v (o ≡ some cur.row) a (audit_image v s opts cur o a)
  unfolding audit_image continuity_with pass_in add_failure
  audit_image-Leads cur none a k = tt
  audit_image-Leads cur (some want) a k =
      if_known (λ (b : Auditor). Leads v (some want ≡ some cur.row) a (some b)) (equal want cur.row)
        (record a { rep = pass_in continuity a.rep })
        (add_failure (record { generation = cur.number; cell = none; check = continuity }) a)
        (λ same. (k, λ c. (c, ap (λ (r : Row). some r) (equal_sound want cur.row same))))
        (λ other. (
          k,
          λ c. absurd (
              snoc-nil v a.rep.failures
                (record { generation = cur.number; cell = none; check = continuity }) c.0),
        ))

  cells-IsWhole :
      (cur : Recorded) (prev : Option Recorded)
      → RowIs cur prev
      → CellsFrom cur prev v.compiled.cells 0
      → IsWhole cur prev
  cells-IsWhole cur prev row cells = (row, λ i h. cells i (omega arith) (omega (arith, h)))

  not_derivable-Leads :
      (cur : Recorded) (Q : Type 0) (a : Auditor)
      → IsKeeping v a
      → Leads v Q a (after (gap {A = Unit {0}} cur.number none not_derivable a))
  not_derivable-Leads cur Q a k =
      Leads-after v Q a (gap {A = Unit {0}} cur.number none not_derivable a)
        ((Proves-gap v (λ _. Q) cur.number none not_derivable).at a k)

  audit_later_generation-Leads :
      (cur : Recorded) (prev : Option Recorded) (a : Auditor)
      → cur.number ≢ 0
      → IsKeeping v a
      → Leads v (IsWhole cur prev) a (audit_later_generation v s opts cur prev a)
  unfolding audit_later_generation
  audit_later_generation-Leads cur none a n k = not_derivable-Leads cur (IsWhole cur none) a k
  audit_later_generation-Leads cur (some p) a n k =
      let image = next_row v.compiled.rule p.row in
      let cells = audit_cells v s opts cur (some p) v.compiled.cells 0 in
      if_known (Leads v (IsWhole cur (some p)) a) (not (suc p.number == cur.number))
        (after (gap {A = Unit {0}} cur.number none not_derivable a))
        (onward (audit_image v s opts cur image a) cells)
        (λ _. not_derivable-Leads cur (IsWhole cur (some p)) a k)
        (λ next.
          Leads-onward v (image ≡ some cur.row) (CellsFrom cur (some p) v.compiled.cells 0)
            (IsWhole cur (some p)) a (audit_image v s opts cur image a) cells
            (audit_image-Leads cur image a k)
            (λ b kb. audit_cells-Leads cur (some p) v.compiled.cells 0 b kb)
            (λ row. cells-IsWhole cur (some p) (
              λ z. absurd (n z),
              λ _. (p, refl, (==_iff (suc p.number) cur.number).0 (not-false _ next), row),
            )))

  pub audit_generation-Leads :
      (cur : Recorded) (prev : Option Recorded) (a : Auditor)
      → IsKeeping v a
      → Leads v (IsWhole cur prev) a (audit_generation v s opts cur prev a)
  unfolding audit_generation
  audit_generation-Leads cur prev a k =
      let cells = audit_cells v s opts cur prev v.compiled.cells 0 in
      if_known (Leads v (IsWhole cur prev) a) (cur.number == 0)
        (onward (after (audit_seed_row v s opts cur a)) cells)
        (audit_later_generation v s opts cur prev a)
        (λ first.
          Leads-onward v (opts.seed ≡ some cur.row) (CellsFrom cur prev v.compiled.cells 0)
            (IsWhole cur prev) a (after (audit_seed_row v s opts cur a)) cells
            (Leads-after v (opts.seed ≡ some cur.row) a (audit_seed_row v s opts cur a)
              ((audit_seed_row-Proves cur).at a k))
            (λ b kb. audit_cells-Leads cur prev v.compiled.cells 0 b kb)
            (λ row.
              cells-IsWhole cur prev (λ _. row, λ n. absurd (n ((==_iff cur.number 0).0 first)))))
        (λ later. audit_later_generation-Leads cur prev a (==→ne cur.number 0 later) k)
