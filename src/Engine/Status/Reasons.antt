-- ===== src/Engine/Status/Reasons.antt =====
-- internal/engine/status.go: what a reason that is fetched after a refusal can still change.
use rule_110_arcade.Base.{
  ℕ, ◌≡◌, refl, sym, false, Option, none, some, List, [], ◌∷◌, ◌++◌, String, leb, str_eq_refl,
  is_empty, get_elem?, All, All-get_elem?, inl, inr, if_either, option_known, ◌⊎◌,
}
use mathlib.Core.Path.{subst}
use rule_110_arcade.History.{Store, is_terminal, failed}
use rule_110_arcade.History.Write.{update_status}
use rule_110_arcade.Engine.Runtime.{
  TxState, tx_failed, tx_pending, tx_broadcast, tx_seen, tx_mined, tx_other, status_of, CellTx,
  Generation, TxLoc, Runtime,
}
use rule_110_arcade.Chain.Oracle.{ArcadeStatus}
use rule_110_arcade.Engine.Refusals.{note_refusal_locked}
use rule_110_arcade.Engine.Status.{
  rank, is_tx_failed, TxRecord, Pending, Applied, forget_tx, select_work, release_gates,
  cell_in_window, write_cell, rejection_message, settle, apply_found, apply_at, apply_pending,
  apply_work, apply_status_batch, show_reason, fetch_rejection_reason,
}
use rule_110_arcade.Engine.Status.Ahead.{
  IsAhead, note_refusal_locked-IsAhead, apply_work-IsAhead, apply_batches, apply_batches-IsAhead,
}

-- Every transaction whose reason is asked for is followed no more.
abbrev AreForgotten : Runtime → List (String × ℕ) → Type 0
AreForgotten e reasons = All (λ (r : String × ℕ). e.tx_index r.0 ≡ none) reasons

AreForgotten-later :
    (e q : Runtime) (reasons : List (String × ℕ))
    → IsAhead e q
    → AreForgotten e reasons
    → AreForgotten q reasons
AreForgotten-later e q [] ahead h = tt
AreForgotten-later e q (r ∷ reasons) ahead h =
    (ahead.4 r.0 h.0, AreForgotten-later e q reasons ahead h.1)

AreForgotten-append :
    (e : Runtime) (rs ss : List (String × ℕ))
    → AreForgotten e rs
    → AreForgotten e ss
    → AreForgotten e (rs ++ ss)
AreForgotten-append e [] ss h k = k
AreForgotten-append e (r ∷ rs) ss h k = (h.0, AreForgotten-append e rs ss h.1 k)

failed_or_not : (next : TxState) → (next ≡ tx_failed) ⊎ (is_tx_failed next ≡ false)
failed_or_not tx_failed = inl refl
failed_or_not tx_pending = inr refl
failed_or_not tx_broadcast = inr refl
failed_or_not tx_seen = inr refl
failed_or_not tx_mined = inr refl
failed_or_not (tx_other s) = inr refl

module _ (words : ArcadeStatus → String) where
  settle-AreForgotten_failed :
      (e : Runtime) (rec : TxRecord) (loc : TxLoc) (g : Generation) (c : CellTx) (err : String)
      → AreForgotten
          (settle words e rec tx_failed loc g c err).runtime
          (settle words e rec tx_failed loc g c err).reasons
  unfolding settle forget_tx is_terminal status_of
  settle-AreForgotten_failed e rec loc g c err =
      let shown : Runtime = record e {
        history = write_cell e.history g loc.cell (record c { state = tx_failed; err = err });
      } in
      let kept = forget_tx shown rec.txid in
      let forgotten : kept.tx_index rec.txid ≡ none = rw (str_eq_refl rec.txid) refl in
      let noted = note_refusal_locked-IsAhead kept loc.cell loc.generation rec.at rec.status err in
      if_either (λ (a : Applied). AreForgotten a.runtime a.reasons)
        (leb (rank tx_failed) (rank c.state)) _ _ tt
        (if_either
          (AreForgotten (note_refusal_locked kept loc.cell loc.generation rec.at rec.status err))
          (is_empty rec.extra_info) ((rec.txid, loc.cell) ∷ []) [] (noted.4 rec.txid forgotten, tt)
          tt)

  settle-AreForgotten :
      (e : Runtime) (rec : TxRecord) (next : TxState) (loc : TxLoc) (g : Generation) (c : CellTx)
      (err : String)
      → AreForgotten
          (settle words e rec next loc g c err).runtime
          (settle words e rec next loc g c err).reasons
  settle-AreForgotten e rec next loc g c err = elim (failed_or_not next) [
    | inl failing ↦
        subst
          (λ n.
            AreForgotten (settle words e rec n loc g c err).runtime
              (settle words e rec n loc g c err).reasons)
          (sym failing) (settle-AreForgotten_failed e rec loc g c err)
    | inr other_ ↦
        unfold settle in
        if_either (λ (a : Applied). AreForgotten a.runtime a.reasons)
          (leb (rank next) (rank c.state)) _ _ tt (rw other_ tt)
  ]

  apply_found-AreForgotten :
      (e : Runtime) (rec : TxRecord) (next : TxState) (loc : TxLoc) (err : String)
      (found : Option (Generation × CellTx))
      → AreForgotten
          (apply_found words e rec next loc err found).runtime
          (apply_found words e rec next loc err found).reasons
  unfolding apply_found
  apply_found-AreForgotten e rec next loc err none = tt
  apply_found-AreForgotten e rec next loc err (some (g, c)) =
      settle-AreForgotten e rec next loc g c err

  apply_pending-AreForgotten :
      (e : Runtime) (w : Pending)
      → AreForgotten (apply_pending words e w).runtime (apply_pending words e w).reasons
  unfolding apply_pending apply_at
  apply_pending-AreForgotten e w =
      option_known {A = TxLoc} {B = Applied} (λ (a : Applied). AreForgotten a.runtime a.reasons)
        (e.tx_index w.rec.txid) _ _ tt
        λ loc _.
          let open_ = release_gates e loc w.next in
          apply_found-AreForgotten open_ w.rec w.next loc _ (cell_in_window open_.history loc)

  apply_work-AreForgotten :
      (e : Runtime) (work : List Pending)
      → AreForgotten (apply_work words e work).runtime (apply_work words e work).reasons
  unfolding apply_work
  apply_work-AreForgotten e [] = tt
  apply_work-AreForgotten e (w ∷ work) =
      let first = apply_pending words e w in
      let rest = apply_work words first.runtime work in
      AreForgotten-append rest.runtime first.reasons rest.reasons
        (AreForgotten-later first.runtime rest.runtime first.reasons
          (apply_work-IsAhead words first.runtime work) (apply_pending-AreForgotten e w))
        (apply_work-AreForgotten first.runtime work)

  fetch_rejection_reason-forgotten :
      (e : Runtime) (s : Store) (txid : String) (now : ℕ) (answer : Option TxRecord)
      → e.tx_index txid ≡ none
      → (s' : Store) × (fetch_rejection_reason words e s txid now answer ≡ some (e, s'))
  unfolding fetch_rejection_reason show_reason
  fetch_rejection_reason-forgotten e s txid now none n = (s, refl)
  fetch_rejection_reason-forgotten e s txid now (some rec) n =
      if_either (λ (r : Option (Runtime × Store)). (s' : Store) × (r ≡ some (e, s')))
        (is_empty rec.extra_info) _ _ (s, refl)
        (
          update_status s
              (record {
                txid = txid;
                status = failed;
                err = rejection_message words rec.status rec.extra_info;
              })
              now,
          rw n refl,
        )

  -- A reason that is asked for because of a batch reaches the store at most: once it is there, with
  -- or without later batches, the engine follows its transaction no more, so that the cell's text in
  -- the window stays what the refusal left, whatever the network answers.
  pub reasons-unshown :
      (e : Runtime) (recs : List TxRecord) (batches : List (List TxRecord)) (i : ℕ) (txid : String)
      (cell : ℕ) (s : Store) (now : ℕ) (answer : Option TxRecord)
      → get_elem? (apply_status_batch words e recs).reasons i ≡ some (txid, cell)
      → (s' : Store) × (fetch_rejection_reason words
            (apply_batches words (apply_status_batch words e recs).runtime batches)
            s
            txid
            now
            answer
          ≡ some (apply_batches words (apply_status_batch words e recs).runtime batches, s'))
  unfolding apply_status_batch
  reasons-unshown e recs batches i txid cell s now answer at =
      let applied = apply_work words e (select_work e recs) in
      let gone =
        All-get_elem? (λ (r : String × ℕ). applied.runtime.tx_index r.0 ≡ none) applied.reasons i
          (apply_work-AreForgotten e (select_work e recs)) at in
      fetch_rejection_reason-forgotten (apply_batches words applied.runtime batches) s txid now
        answer ((apply_batches-IsAhead words applied.runtime batches).4 txid gone)
