-- ===== src/Audit/Recorded.antt =====
-- internal/audit/audit.go: what the audit reads of a generation is what the store holds of it.
use mathlib.Core.List.{Memᴰ}
use mathlib.Core.Path.{subst}
use mathlib.Core.Option.{some-injective}
use rule_110_arcade.Base.{
  ℕ, zero, suc, ◌≤◌, ◌<◌, ◌≡◌, ◌⊎◌, inl, inr, refl, sym, ap, ◌∙◌, false, not, Option, none, some,
  List, [], ◌∷◌, ltb, ◌==◌, ==_iff, if◌then◌else◌, is_empty, put, if_known, option_known, not-false,
}
use rule_110_arcade.Ca.{Row, seed_hex}
use rule_110_arcade.Chain.{Tx}
use rule_110_arcade.History.{Store, CellTx, Generation, is_failed}
use rule_110_arcade.History.Load.{Loaded}
use rule_110_arcade.History.Load as history
use rule_110_arcade.History.Loaded.{IsLoaded, load-IsLoaded}
use rule_110_arcade.Audit.{Report, Options}
use rule_110_arcade.Audit.Fetch.{World, Recorded, cell_map, recorded_of, load}
use rule_110_arcade.Audit.Run.{run}
use rule_110_arcade.Audit.Evidence.{IsClean, IsTxOf, ForCells, AuditedAt}
use rule_110_arcade.Audit.Sound.{run-AuditedAt}

cell_map-some :
    (cells i : ℕ) (txs : List CellTx) (m : ℕ → Option CellTx) (rec : CellTx)
    → cell_map cells txs m i ≡ some rec
    → (Memᴰ rec txs × (rec.cell ≡ i)) ⊎ (m i ≡ some rec)
unfolding cell_map
cell_map-some cells i [] m rec e = inr e
cell_map-some cells i (t ∷ txs) m rec e =
    elim (cell_map-some cells i txs (if ltb t.cell cells then put m t.cell (some t) else m) rec e) [
      | inl (k, own) ↦ inl (Memᴰ.tail k, own)
      | inr first ↦
          if_known
            (λ (n : ℕ → Option CellTx).
              n i ≡ some rec → (Memᴰ rec (t ∷ txs) × (rec.cell ≡ i)) ⊎ (m i ≡ some rec))
            (ltb t.cell cells) (put m t.cell (some t)) m
            (λ _.
              if_known
                (λ (o : Option CellTx).
                  o ≡ some rec → (Memᴰ rec (t ∷ txs) × (rec.cell ≡ i)) ⊎ (m i ≡ some rec))
                (i == t.cell) (some t) (m i)
                (λ same f.
                  let own = some-injective t rec f in
                  inl (
                    Memᴰ.head (sym own),
                    ap (λ (u : CellTx). u.cell) (sym own) ∙ sym ((==_iff i t.cell).0 same),
                  ))
                (λ _ f. inr f))
            (λ _ f. inr f) first
    ]

module _ (v : World) (s : Store) where
  -- The row of the table for the generation, whose text is the row, and for each cell with a record a
  -- row of its table.
  pub record IsRecord (g : ℕ) (cur : Recorded) : Type 0 where
    pub row : Generation
    pub held : Memᴰ row s.generations
    pub number : row.number ≡ g
    pub read : seed_hex v.compiled.cells row.row_hex ≡ some cur.row
    pub records :
        (i : ℕ) (rec : CellTx)
        → cur.cell_tx i ≡ some rec
        → Memᴰ rec s.cell_txs × (rec.generation ≡ g) × (rec.cell ≡ i)

  recorded_of-IsRecord :
      (g : ℕ) (gens : List Loaded) (cur : Recorded)
      → ((x : Loaded) (rest : List Loaded) → gens ≡ x ∷ rest → IsLoaded s x)
      → recorded_of v g gens ≡ some (some cur)
      → IsRecord g cur
  unfolding recorded_of
  recorded_of-IsRecord g [] cur f = λ e. absurd (cc (some-injective _ _ e))
  recorded_of-IsRecord g (x ∷ gens) cur f =
      let P : Option (Option Recorded) → Type 0 = λ o. o ≡ some (some cur) → IsRecord g cur in
      let here = f x gens refl in
      let fresh : Row → Recorded = λ row. record {
        number = g;
        row = row;
        cell_tx = cell_map v.compiled.cells x.txs (λ cell. none);
      } in
      if_known P (not (x.number == g)) (some none) _ (λ _ e. absurd (cc (some-injective _ _ e)))
        (λ same.
          let at : here.row.number ≡ g =
            sym here.number ∙ (==_iff x.number g).0 (not-false _ same) in
          option_known P (seed_hex v.compiled.cells x.row_hex) none (λ row. some (some (fresh row)))
            (λ e. absurd (cc e))
            (λ row read e.
              subst (IsRecord g)
                (some-injective (fresh row) cur (some-injective (some (fresh row)) (some cur) e))
                (record {
                  row = here.row;
                  held = here.held;
                  number = at;
                  read = ap (seed_hex v.compiled.cells) (sym here.row_hex) ∙ read;
                  records = λ i rec there.
                      elim (cell_map-some v.compiled.cells i x.txs (λ cell. none) rec there) [
                        | inl (k, own) ↦ let (h, n) = here.own rec k in (h, n ∙ at, own)
                        | inr nothing ↦ absurd (cc nothing)
                      ];
                })))

  load-IsRecord : (g : ℕ) (cur : Recorded) → load v s g ≡ some (some cur) → IsRecord g cur
  unfolding load
  load-IsRecord g cur e = recorded_of-IsRecord g (history.load s g 1) cur (load-IsLoaded s g 1) e

module _ (v : World) (s : Store) (opts : Options) where
  -- The store has a record of the generation and the cell, unrefused and with a transaction that the
  -- source holds.
  pub record HasRecord (g i : ℕ) : Type 0 where
    pub row : Generation
    pub row_held : Memᴰ row s.generations
    pub row_number : row.number ≡ g
    pub rec : CellTx
    pub held : Memᴰ rec s.cell_txs
    pub generation : rec.generation ≡ g
    pub cell : rec.cell ≡ i
    pub named : is_empty rec.txid ≡ false
    pub live : is_failed rec.status ≡ false
    pub tx : Tx
    pub genuine : IsTxOf v rec.txid tx

  cells-HasRecord :
      (g i : ℕ) (cur : Recorded) (P : ℕ → CellTx → Type 0)
      → load v s g ≡ some (some cur)
      → ForCells v s opts cur P
      → ((rec : CellTx) → P i rec → (tx : Tx) × IsTxOf v rec.txid tx)
      → i < v.compiled.cells
      → HasRecord g i
  cells-HasRecord g i cur P at cells genuine inside =
      let r = load-IsRecord v s g cur at in
      let (rec, there, named, live, p) = cells i inside in
      let (held, generation, own) = r.records i rec there in
      let (tx, t) = genuine rec p in
      record {
        row = r.row;
        row_held = r.held;
        row_number = r.number;
        rec = rec;
        held = held;
        generation = generation;
        cell = own;
        named = named;
        live = live;
        tx = tx;
        genuine = t;
      }

  AuditedAt-HasRecord : (g i : ℕ) → AuditedAt v s opts g → i < v.compiled.cells → HasRecord g i
  AuditedAt-HasRecord zero i (cur, at, seeded, cells) l =
      cells-HasRecord zero i cur _ at cells (λ rec h. (h.tx, h.genuine)) l
  AuditedAt-HasRecord (suc g) i (prev, cur, before, at, image, cells) l =
      cells-HasRecord (suc g) i cur _ at cells (λ rec h. (h.tx, h.genuine)) l

  -- Of a range that is audited with no failure and no gap, the tables hold the row of every
  -- generation, and for each of its cells a record that is not a refusal and names a transaction that
  -- the source holds under this id.
  pub run-HasRecord :
      (rep : Report) (j i : ℕ)
      → run v s opts ≡ some rep
      → IsClean rep
      → opts.from ≤ j
      → j ≤ opts.to
      → i < v.compiled.cells
      → HasRecord j i
  run-HasRecord rep j i e c h l inside =
      AuditedAt-HasRecord j i (run-AuditedAt v s opts rep j e c h l) inside
