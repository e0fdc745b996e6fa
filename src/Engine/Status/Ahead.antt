-- ===== src/Engine/Status/Ahead.antt =====
-- internal/engine/status.go: no batch of events takes anything back.
use rule_110_arcade.Base.{
  ℕ, ◌-◌, ◌≤◌, ◌≡◌, refl, sym, arith, Bool, true, false, ◌||◌, Option, none, some, List, [], ◌∷◌,
  String, ltb, leb, ◌==◌, if◌then◌else◌, put, str_eq, if_known, if_either, option_split,
  leb-false→lt, ltb→lt, both, ==_iff,
}
use mathlib.Core.Path.{subst}
use rule_110_arcade.History.{is_terminal}
use rule_110_arcade.Engine.Runtime.{TxState, status_of, CellTx, Generation, TxLoc, Runtime}
use rule_110_arcade.Chain.Oracle.{ArcadeStatus}
use rule_110_arcade.Engine.Refusals.{
  max_retries, min_halt_window, is_retryable_rejection, count_refusal, note_refusal_locked,
}
use rule_110_arcade.Engine.Status.{
  rank, is_tx_failed, is_tx_mined, is_tx_seen, TxRecord, Pending, Applied, forget_tx, select_work,
  release_gates, cell_in_window, write_cell, settle, apply_found, apply_at, apply_pending,
  apply_work, apply_status_batch,
}
use rule_110_arcade.Engine.Status.Cells.{rank_at, rank_at-write_cell}

-- What the first state shows and allows, the second one does too.
abbrev pub IsAhead : Runtime → Runtime → Type 0
IsAhead e q =
    ((loc : TxLoc) → rank_at e.history loc ≤ rank_at q.history loc)
    × ((cell : ℕ) → e.engine.last_mined cell ≤ q.engine.last_mined cell)
    × ((cell : ℕ) → e.engine.last_seen cell ≤ q.engine.last_seen cell)
    × ((cell : ℕ) → e.engine.halted cell ≡ true → q.engine.halted cell ≡ true)
    × ((txid : String) → e.tx_index txid ≡ none → q.tx_index txid ≡ none)

IsAhead-refl : (e : Runtime) → IsAhead e e
IsAhead-refl e = (λ loc. omega arith, λ c. omega arith, λ c. omega arith, λ c h. h, λ txid h. h)

IsAhead-trans : (e q r : Runtime) → IsAhead e q → IsAhead q r → IsAhead e r
IsAhead-trans e q r (w, m, s, h, i) (w', m', s', h', i') = (
  λ loc. omega (arith, w loc, w' loc),
  λ c. omega (arith, m c, m' c),
  λ c. omega (arith, s c, s' c),
  λ c t. h' c (h c t),
  λ txid n. i' txid (i txid n),
)

raise_le :
    (f : ℕ → ℕ) (k v : ℕ) (t : Bool) (cell : ℕ)
    → f cell ≤ (if (if t then ltb (f k) v else false) then put f k v else f) cell
raise_le f k v t cell =
    if_known (λ (g : ℕ → ℕ). f cell ≤ g cell) (if t then ltb (f k) v else false) (put f k v) f
      (λ e.
        let lt = ltb→lt (f k) v (both t (ltb (f k) v) e).1 in
        if_known (λ n. f cell ≤ n) (cell == k) v (f cell)
          (λ same. subst (λ x. f x ≤ v) (sym ((==_iff cell k).0 same)) (omega arith))
          (λ _. omega arith))
      λ _. omega arith

forget_tx-IsAhead : (e : Runtime) (txid : String) → IsAhead e (forget_tx e txid)
unfolding forget_tx
forget_tx-IsAhead e txid = (
  λ loc. omega arith,
  λ c. omega arith,
  λ c. omega arith,
  λ c h. h,
  λ id n. if_either (λ (o : Option TxLoc). o ≡ none) (str_eq id txid) none (e.tx_index id) refl n,
)

release_gates-IsAhead :
    (e : Runtime) (loc : TxLoc) (next : TxState) → IsAhead e (release_gates e loc next)
unfolding release_gates
release_gates-IsAhead e loc next = (
  λ l. omega arith,
  λ c. raise_le e.engine.last_mined loc.cell loc.generation (is_tx_mined next) c,
  λ c. raise_le e.engine.last_seen loc.cell loc.generation (is_tx_seen next || is_tx_mined next) c,
  λ c h. h,
  λ id n. n,
)

put-true : (f : ℕ → Bool) (k cell : ℕ) → f cell ≡ true → put f k true cell ≡ true
put-true f k cell h = if_either (λ b. b ≡ true) (cell == k) true (f cell) refl h

pub note_refusal_locked-IsAhead :
    (e : Runtime) (cell generation now : ℕ) (status : ArcadeStatus) (reason : String)
    → IsAhead e (note_refusal_locked e cell generation now status reason)
unfolding note_refusal_locked
note_refusal_locked-IsAhead e cell generation now status reason =
    let (st, first) = count_refusal (e.retries cell) generation now in
    if_either (IsAhead e) (is_retryable_rejection status reason) _ _ (IsAhead-refl e) (
      if_either (IsAhead e)
        (if ltb max_retries st.attempts then leb min_halt_window (now - first) else false) _ _
        (
          λ loc. omega arith,
          λ c. omega arith,
          λ c. omega arith,
          λ c h. put-true e.engine.halted cell c h,
          λ txid n. n,
        )
        (IsAhead-refl e))

module _ (words : ArcadeStatus → String) where
  settle-IsAhead :
      (e : Runtime) (rec : TxRecord) (next : TxState) (loc : TxLoc) (g : Generation) (c : CellTx)
      (err : String)
      → cell_in_window e.history loc ≡ some (g, c)
      → IsAhead e (settle words e rec next loc g c err).runtime
  unfolding settle
  settle-IsAhead e rec next loc g c err found =
      let c' : CellTx = record c { state = next; err = if is_tx_failed next then err else c.err } in
      let shown : Runtime = record e { history = write_cell e.history g loc.cell c' } in
      let kept : Runtime =
        if is_terminal (status_of next) then forget_tx shown rec.txid else shown in
      if_known (λ (a : Applied). IsAhead e a.runtime) (leb (rank next) (rank c.state)) _ _
        (λ _. IsAhead-refl e)
        λ stronger.
          let forward : IsAhead e shown = (
            λ l.
                rank_at-write_cell e.history loc l g c c' found
                  (let lt = leb-false→lt (rank next) (rank c.state) stronger in omega arith),
            λ x. omega arith,
            λ x. omega arith,
            λ x h. h,
            λ txid n. n,
          ) in
          let dropped : IsAhead e kept =
            if_either (IsAhead e) (is_terminal (status_of next)) (forget_tx shown rec.txid) shown
              (IsAhead-trans e shown (forget_tx shown rec.txid) forward
                (forget_tx-IsAhead shown rec.txid))
              forward in
          let noted = note_refusal_locked kept loc.cell loc.generation rec.at rec.status err in
          if_either (IsAhead e) (is_tx_failed next) noted kept
            (IsAhead-trans e kept noted dropped
              (note_refusal_locked-IsAhead kept loc.cell loc.generation rec.at rec.status err))
            dropped

  apply_found-IsAhead :
      (e : Runtime) (rec : TxRecord) (next : TxState) (loc : TxLoc) (err : String)
      (found : Option (Generation × CellTx))
      → cell_in_window e.history loc ≡ found
      → IsAhead e (apply_found words e rec next loc err found).runtime
  unfolding apply_found
  apply_found-IsAhead e rec next loc err none at =
      if_either (IsAhead e) (is_terminal (status_of next)) (forget_tx e rec.txid) e
        (forget_tx-IsAhead e rec.txid) (IsAhead-refl e)
  apply_found-IsAhead e rec next loc err (some (g, c)) at = settle-IsAhead e rec next loc g c err at

  apply_at-IsAhead :
      (e : Runtime) (rec : TxRecord) (next : TxState) (loc : TxLoc)
      → IsAhead e (apply_at words e rec next loc).runtime
  unfolding apply_at
  apply_at-IsAhead e rec next loc =
      let open_ = release_gates e loc next in
      IsAhead-trans e open_ (apply_at words e rec next loc).runtime
        (release_gates-IsAhead e loc next)
        (apply_found-IsAhead open_ rec next loc _ (cell_in_window open_.history loc) refl)

  apply_pending-IsAhead : (e : Runtime) (w : Pending) → IsAhead e (apply_pending words e w).runtime
  unfolding apply_pending
  apply_pending-IsAhead e w =
      option_split {A = TxLoc} {B = Applied} (λ (a : Applied). IsAhead e a.runtime)
        (e.tx_index w.rec.txid) _ _ (λ _. IsAhead-refl e)
        λ loc _. apply_at-IsAhead e w.rec w.next loc

  pub apply_work-IsAhead :
      (e : Runtime) (work : List Pending) → IsAhead e (apply_work words e work).runtime
  unfolding apply_work
  apply_work-IsAhead e [] = IsAhead-refl e
  apply_work-IsAhead e (w ∷ work) =
      let first = (apply_pending words e w).runtime in
      IsAhead-trans e first (apply_work words first work).runtime (apply_pending-IsAhead e w)
        (apply_work-IsAhead first work)

  -- The batches that the monitor and the reconciler deliver, one after the other.
  unfoldable pub apply_batches : Runtime → List (List TxRecord) → Runtime
  apply_batches e [] = e
  apply_batches e (recs ∷ batches) = apply_batches (apply_status_batch words e recs).runtime batches

  -- Whatever batches of events arrive, and in whatever order: no transaction in the window falls back
  -- to a weaker state, no generation that is mined or seen of a cell is taken back, no halted cell is
  -- released, and no transaction that the engine has stopped following is followed again.
  pub apply_batches-IsAhead :
      (e : Runtime) (batches : List (List TxRecord)) → IsAhead e (apply_batches e batches)
  unfolding apply_batches apply_status_batch
  apply_batches-IsAhead e [] = IsAhead-refl e
  apply_batches-IsAhead e (recs ∷ batches) =
      let first = (apply_status_batch words e recs).runtime in
      IsAhead-trans e first (apply_batches first batches)
        (apply_work-IsAhead e (select_work e recs)) (apply_batches-IsAhead first batches)
