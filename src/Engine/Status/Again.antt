-- ===== src/Engine/Status/Again.antt =====
-- internal/engine/status.go: a status that is delivered a second time.
use rule_110_arcade.Base.{
  ℕ, ◌≡◌, refl, sym, ap, ◌∙◌, arith, Bool, true, false, ◌||◌, none, some, List, [], ◌∷◌, ◌++◌,
  String, ltb, leb, if◌then◌else◌, put, set, str_eq_refl, Bool-cases, Option-cases, inl, inr,
  if_known, if_either,
}
use mathlib.Core.Path.{subst, ap₂}
use rule_110_arcade.History.{is_terminal}
use rule_110_arcade.Engine.Runtime.{
  TxState, tx_pending, tx_broadcast, tx_seen, tx_mined, tx_failed, tx_other, status_of, CellTx,
  Generation, TxLoc, Runtime,
}
use rule_110_arcade.Chain.Oracle.{ArcadeStatus}
use rule_110_arcade.Engine.Refusals.{note_refusal_locked}
use rule_110_arcade.Engine.Status.{
  rank, is_tx_failed, is_tx_mined, is_tx_seen, state_for, TxRecord, Pending, Applied, forget_tx,
  select_work, pick, release_gates, cell_in_window, write_cell, rejection_message, settle,
  apply_found, apply_at, apply_pending, apply_work, apply_status_batch,
}
use rule_110_arcade.Engine.Status.Cells.{cell_in_window-write_cell}
use rule_110_arcade.Engine.Status.Ahead.{note_refusal_locked-IsAhead}

raised : (t : Bool) (f : ℕ → ℕ) (k v : ℕ) → ℕ → ℕ
raised t f k v = if (if t then ltb (f k) v else false) then put f k v else f

raised_again : (t : Bool) (f : ℕ → ℕ) (k v : ℕ) → raised t (raised t f k v) k v ≡ raised t f k v
unfolding raised
raised_again false f k v = refl
raised_again true f k v = elim (Bool-cases (ltb (f k) v)) [
  | inl e ↦ let top : ltb (put f k v k) v ≡ false = ground arith in rw (e, top) refl
  | inr e ↦ rw (e, e) refl
]

release_gates_idem :
    (e : Runtime) (loc : TxLoc) (next : TxState)
    → release_gates (release_gates e loc next) loc next ≡ release_gates e loc next
unfolding release_gates raised
release_gates_idem e loc next =
    ap
      (λ (f : (ℕ → ℕ) × (ℕ → ℕ)). record e {
        engine = record e.engine { last_mined = f.0; last_seen = f.1 };
      })
      (ap₂ (λ (m s : ℕ → ℕ). (m, s))
        (raised_again (is_tx_mined next) e.engine.last_mined loc.cell loc.generation)
        (raised_again (is_tx_seen next || is_tx_mined next) e.engine.last_seen loc.cell
          loc.generation))

release_gates-history :
    (e : Runtime) (loc : TxLoc) (next : TxState) (gens : List Generation)
    → release_gates e loc next ≡ e
    → release_gates (record e { history = gens }) loc next ≡ record e { history = gens }
unfolding release_gates
release_gates-history e loc next gens h = ap (λ (q : Runtime). record q { history = gens }) h

-- Nothing is changed, written or asked for.
abbrev pub quiet : Runtime → Applied
quiet e = record { runtime = e; writes = []; reasons = [] }

only_terminal-failed :
    (next : TxState) → is_terminal (status_of next) ≡ false → is_tx_failed next ≡ false
unfolding is_terminal status_of
only_terminal-failed tx_pending e = refl
only_terminal-failed tx_broadcast e = refl
only_terminal-failed tx_seen e = refl
only_terminal-failed tx_mined e = refl
only_terminal-failed tx_failed e = cc e
only_terminal-failed (tx_other s) e = refl

module _ (words : ArcadeStatus → String) where
  quiet_pending :
      (q : Runtime) (w : Pending)
      → apply_pending words q w ≡ quiet q
      → apply_work words q (w ∷ []) ≡ quiet q
  unfolding apply_work
  quiet_pending q w e =
      ap
        (λ (a : Applied).
          let rest = apply_work words a.runtime [] in
          record {
            runtime = rest.runtime;
            writes = a.writes ++ rest.writes;
            reasons = a.reasons ++ rest.reasons;
          })
        e

  forgotten_quiet :
      (q : Runtime) (rec : TxRecord)
      → q.tx_index rec.txid ≡ none
      → apply_status_batch words q (rec ∷ []) ≡ quiet q
  unfolding apply_status_batch select_work pick apply_work
  forgotten_quiet q rec n = elim (Option-cases (state_for rec.status)) [
    | inl e ↦ rw e refl
    | inr (next, e) ↦ rw (e, pick, n) refl
  ]

  ignored_quiet :
      (q : Runtime) (rec : TxRecord)
      → state_for rec.status ≡ none
      → apply_status_batch words q (rec ∷ []) ≡ quiet q
  unfolding apply_status_batch select_work pick apply_work
  ignored_quiet q rec e = rw e refl

  module _ (loc : TxLoc) (next : TxState) (rec : TxRecord)
      (says : state_for rec.status ≡ some next) where
    -- A status that is no stronger than what the window shows.
    stale_quiet :
        (q : Runtime) (g : Generation) (c : CellTx)
        → q.tx_index rec.txid ≡ some loc
        → release_gates q loc next ≡ q
        → cell_in_window q.history loc ≡ some (g, c)
        → leb (rank next) (rank c.state) ≡ true
        → apply_status_batch words q (rec ∷ []) ≡ quiet q
    unfolding apply_status_batch select_work pick
    stale_quiet q g c tx open_ found weak =
        rw (says, pick, tx)
          (quiet_pending q (record { rec = rec; next = next })
            (rw (apply_pending, tx)
              (unfold apply_at in rw (open_, found) (unfold apply_found settle in rw weak refl))))

    -- After a status has been applied to a cell of the window.
    settled_quiet :
        (e : Runtime) (first : TxRecord) (g : Generation) (c : CellTx) (err : String)
        → first.txid ≡ rec.txid
        → e.tx_index rec.txid ≡ some loc
        → release_gates e loc next ≡ e
        → cell_in_window e.history loc ≡ some (g, c)
        → apply_status_batch words (settle words e first next loc g c err).runtime (rec ∷ [])
          ≡ quiet (settle words e first next loc g c err).runtime
    unfolding settle
    settled_quiet e first g c err same tx open_ found =
        let c' : CellTx = record c {
          state = next;
          err = if is_tx_failed next then err else c.err;
        } in
        let shown : Runtime = record e { history = write_cell e.history g loc.cell c' } in
        let kept : Runtime =
          if is_terminal (status_of next) then forget_tx shown first.txid else shown in
        let P = λ (q : Runtime). apply_status_batch words q (rec ∷ []) ≡ quiet q in
        if_known (λ (a : Applied). P a.runtime) (leb (rank next) (rank c.state)) _ _
          (λ weak. stale_quiet e g c tx open_ found weak)
          λ strong. elim (Bool-cases (is_terminal (status_of next))) [
            | inl last ↦
                let gone : kept.tx_index rec.txid ≡ none =
                  rw (last, ← same, str_eq_refl first.txid) refl in
                if_either P (is_tx_failed next)
                  (note_refusal_locked kept loc.cell loc.generation first.at first.status err) kept
                  (forgotten_quiet _ rec (
                    (note_refusal_locked-IsAhead kept loc.cell loc.generation first.at first.status
                        err).4
                      rec.txid gone))
                  (forgotten_quiet kept rec gone)
            | inr more ↦
                if_known P (is_tx_failed next)
                  (note_refusal_locked kept loc.cell loc.generation first.at first.status err) kept
                  (λ t. cc (t, only_terminal-failed next more))
                  λ _.
                    if_known P (is_terminal (status_of next)) (forget_tx shown first.txid) shown
                      (λ t. cc (t, more))
                      λ _.
                        stale_quiet shown (record g { cells = set g.cells loc.cell c' }) c' tx
                          (release_gates-history e loc next shown.history open_)
                          (cell_in_window-write_cell e.history loc g c c' found) (ground arith)
          ]

  apply_status_batch_one :
      (e : Runtime) (rec : TxRecord) (next : TxState) (loc : TxLoc) (g : Generation) (c : CellTx)
      → state_for rec.status ≡ some next
      → e.tx_index rec.txid ≡ some loc
      → cell_in_window e.history loc ≡ some (g, c)
      → (err : String) × ((apply_status_batch words e (rec ∷ [])).runtime
          ≡ (settle words (release_gates e loc next) rec next loc g c err).runtime)
  unfolding apply_status_batch select_work pick apply_work apply_at apply_found release_gates
  apply_status_batch_one e rec next loc g c says tx found = (
    if is_tx_failed next then rejection_message words rec.status rec.extra_info else "",
    rw (says, pick, tx) (rw (apply_pending, tx) (rw found refl)),
  )

  -- A transaction that the engine follows and whose cell is in the window: after a status of it has
  -- been applied, a delivery that says the same changes nothing and issues no write, whether the
  -- write that the first delivery issued has reached the store or not.
  pub apply_status_batch-again :
      (e : Runtime) (first second : TxRecord) (loc : TxLoc) (g : Generation) (c : CellTx)
      → e.tx_index first.txid ≡ some loc
      → cell_in_window e.history loc ≡ some (g, c)
      → second.txid ≡ first.txid
      → state_for second.status ≡ state_for first.status
      → apply_status_batch words (apply_status_batch words e (first ∷ [])).runtime (second ∷ [])
        ≡ quiet (apply_status_batch words e (first ∷ [])).runtime
  unfolding release_gates
  apply_status_batch-again e first second loc g c tx found same says =
      let P = λ (q : Runtime). apply_status_batch words q (second ∷ []) ≡ quiet q in
      elim (Option-cases (state_for first.status)) [
        | inl n ↦
            subst P (sym (ap (λ (a : Applied). a.runtime) (ignored_quiet e first n)))
              (ignored_quiet e second (says ∙ n))
        | inr (next, s) ↦
            let (err, one) = apply_status_batch_one e first next loc g c s tx found in
            subst P (sym one) (
              settled_quiet loc next second (says ∙ s) (release_gates e loc next) first g c err
                (sym same) (rw same tx) (release_gates_idem e loc next) found)
      ]
