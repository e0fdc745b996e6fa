-- ===== src/Engine/Repair/Releases.antt =====
-- internal/engine/recovery.go: on what grounds a recovery releases a cell.
use rule_110_arcade.Base.{
  ℕ, ◌+◌, ◌<◌, ◌≡◌, refl, sym, arith, Bool, true, false, not, ◌||◌, Option, some, ◌>>=◌, List, [],
  ◌∷◌, ◌++◌, String, any, u64, leb, ◌==◌, codes, is_empty, if_known, if_either, option_known,
}
use mathlib.Core.Path.{subst}
use mathlib.Core.Option.{some-injective}
use rule_110_arcade.Ca.{Row, step as next_row}
use rule_110_arcade.Cellscript.{Compiled}
use rule_110_arcade.Chain.{CellChain, Bytes, Input, Tx, Sdk, Ledger, tip_row}
use rule_110_arcade.Chain.Tips.{spends}
use rule_110_arcade.Chain.Spending.{SpendsTip, any-SpendsTip}
use rule_110_arcade.Chain.Recover.{
  Verdict, verdict_halt, verdict_resume, verdict_adopt, Recovery, halt, resume, recover_cell,
}
use rule_110_arcade.Chain.Walk.{PathOf, stay, recover_cell-IsSound}
use rule_110_arcade.Chain.Refusal.{
  is_utxo_spent, refused_tx, judge_stale, judge_retry, not_broadcast_prefix,
  recover_stale_rejection, retry_refusal, recover_not_broadcast, all_elsewhere,
}
use rule_110_arcade.Chain.Sentinel.{recover_not_broadcast_lem}
use rule_110_arcade.Chain.Evidence.{
  IsHeld, AreOthers, refused_tx-IsHeld, recover_stale_rejection_lem, retry_refusal_lem,
}
use rule_110_arcade.Chain.Oracle.{ArcadeStatus}
use rule_110_arcade.Chain.SpentTip.{spent_by, spent_successor, hex_string, recover_spent_tip}
use rule_110_arcade.Chain.SpentTip.Adopted.{adopt, IsLost, recover_spent_tip_lem}
use rule_110_arcade.History.{Store}
use rule_110_arcade.History.Tips.{has_txid}
use rule_110_arcade.Engine.Derive.{tip_depth}
use rule_110_arcade.Engine.Rows.{Deployment, CellPosition}
use rule_110_arcade.Engine.Repair.{
  is_halt, is_resume, is_spent_tip, is_never_broadcast, recover_spent, explained, recover_rejected,
  decide_cell,
}

-- A recovery that goes on, at the tip that it was asked about.
abbrev Resumes : CellChain → Recovery → Type 0
Resumes tip r = is_halt r.verdict ≡ false → r ≡ resume tip

halts : (tip : CellChain) → Resumes tip (halt [])
halts tip e = cc e

recover_not_broadcast-Resumes :
    (tip : CellChain) (failed : ℕ) (txid : String) (recorded : Bytes)
    → Resumes tip (recover_not_broadcast tip failed txid recorded)
unfolding recover_not_broadcast
recover_not_broadcast-Resumes tip failed txid recorded =
    let P = Resumes tip in
    if_either P (leb failed tip.generation) _ _ (halts tip)
      (if_either P _ _ _ (halts tip) (if_either P _ _ _ (halts tip) (λ _. refl)))

judge_stale-Resumes : (tip : CellChain) (inputs : List Input) → Resumes tip (judge_stale tip inputs)
unfolding judge_stale
judge_stale-Resumes tip [] = halts tip
judge_stale-Resumes tip (i ∷ inputs) =
    if_either (Resumes tip) (all_elsewhere tip (i ∷ inputs)) _ _ (λ _. refl) (halts tip)

recover_stale_rejection-Resumes :
    (k : Sdk) (l : Ledger) (tip : CellChain) (rejected : ℕ) (txid : String)
    → Resumes tip (recover_stale_rejection k l tip rejected txid)
unfolding recover_stale_rejection
recover_stale_rejection-Resumes k l tip rejected txid =
    let P = Resumes tip in
    if_either P (leb rejected tip.generation) _ _ (halts tip) (
      if_either P (is_empty txid) _ _ (halts tip) (
        option_known P (refused_tx k l txid) _ _ (halts tip)
          (λ tx _. judge_stale-Resumes tip tx.inputs)))

retry_refusal-Resumes :
    (k : Sdk) (l : Ledger) (tip : CellChain) (rejected : ℕ) (txid : String) (rejection : Bytes)
    → Resumes tip (retry_refusal k l tip rejected txid rejection)
unfolding retry_refusal judge_retry
retry_refusal-Resumes k l tip rejected txid rejection =
    let P = Resumes tip in
    if_either P (not (rejected == u64 (tip.generation + 1))) _ _ (halts tip) (
      if_either P (is_utxo_spent rejection) _ _ (halts tip) (
        if_either P (is_empty txid) _ _ (halts tip) (
          option_known P (refused_tx k l txid) _ _ (halts tip)
            (λ tx _. if_either P (any (spends tip) tx.inputs) _ _ (λ _. refl) (halts tip)))))

going_on :
    (A B C D : Type 0) (v : Verdict)
    → is_halt v ≡ false
    → (B → D)
    → (C → D)
    → (elim v as (λ x. Type 0) [ verdict_halt ↦ A | verdict_resume ↦ B | verdict_adopt ↦ C ])
    → D
going_on A B C D verdict_halt e f g x = cc e
going_on A B C D verdict_resume e f g x = f x
going_on A B C D verdict_adopt e f g x = g x

module _ (k : Sdk) (l : Ledger) (c : Compiled) (d : Deployment)
    (oracle : Option (String → Option ArcadeStatus)) where
  -- The transaction `t` of the cell that the refusal at `p` names, of which the store `s` has no record.
  abbrev pub IsLostAt : Store → CellPosition → CellChain → Type 0
  IsLostAt s p t =
      (next : Row) × ((tip_row p.tip d.cells >>= next_row d.rule) ≡ some next)
      × IsLost k l c (λ txid. some (has_txid s txid)) oracle p.tip (codes p.rejection_err) next t

  -- The grounds on which the cell at `p` goes on from `t`, where the last argument says that refusals
  -- are to be retried.
  pub data Release (s : Store) (p : CellPosition) (retry : Bool) : CellChain → Type 0 where
    walked :
        (steps : List CellChain) (t : CellChain)
        → p.unknown ≡ true
        → PathOf k l c d.cells d.rule p.tip steps t
        → Release s p retry t
    unsent :
        (cause : Bytes)
        → p.rejected ≡ true
        → p.tip.generation < p.rejected_at
        → codes p.rejection_err ≡ not_broadcast_prefix ++ cause
        → p.rejection_txid ≡ ""
        → Release s p retry p.tip
    elsewhere :
        (tx : Tx)
        → p.rejected ≡ true
        → p.tip.generation < p.rejected_at
        → IsHeld k l p.rejection_txid tx
        → AreOthers p.tip tx.inputs
        → Release s p retry p.tip
    retried :
        (tx : Tx)
        → p.rejected ≡ true
        → retry ≡ true
        → p.rejected_at ≡ u64 (p.tip.generation + 1)
        → is_utxo_spent (codes p.rejection_err) ≡ false
        → IsHeld k l p.rejection_txid tx
        → SpendsTip p.tip tx.inputs
        → Release s p retry p.tip
    lost : (t : CellChain) → p.rejected ≡ true → IsLostAt s p t → Release s p retry t

  abbrev pub IsGrounded : Store → CellPosition → Bool → Recovery → Type 0
  IsGrounded s p retry r = is_halt r.verdict ≡ false → Release s p retry r.tip

  at_tip :
      (s : Store) (p : CellPosition) (retry : Bool) (r : Recovery)
      → r ≡ resume p.tip
      → Release s p retry p.tip
      → Release s p retry r.tip
  at_tip s p retry r e h = subst (λ (x : Recovery). Release s p retry x.tip) (sym e) h

  recover_cell-IsGrounded :
      (s : Store) (p : CellPosition) (retry : Bool)
      → p.unknown ≡ true
      → IsGrounded s p retry (recover_cell k l c d.cells d.rule p.tip p.attempted tip_depth)
  recover_cell-IsGrounded s p retry unknown on =
      let r = recover_cell k l c d.cells d.rule p.tip p.attempted tip_depth in
      going_on _ _ _ (Release s p retry r.tip) r.verdict on
        (λ (same, still).
          subst (λ t. Release s p retry t) (sym same) (walked [] p.tip unknown (stay p.tip)))
        (λ (path, more). walked r.steps r.tip unknown path)
        (recover_cell-IsSound k l c d.cells d.rule p.tip p.attempted tip_depth).1

  recover_spent_tip-adopt :
      (s : Store) (p : CellPosition) (next : Row)
      → let r =
          recover_spent_tip k l c
            (λ txid. some (has_txid s txid))
            oracle
            p.tip
            (codes p.rejection_err)
            next in
        is_halt r.verdict ≡ false → r ≡ adopt r.tip
  unfolding recover_spent_tip
  recover_spent_tip-adopt s p next =
      let P : Recovery → Type 0 = λ r. is_halt r.verdict ≡ false → r ≡ adopt r.tip in
      let stop : P (halt []) = λ e. absurd (cc e) in
      option_known P (spent_by (codes p.rejection_err)) _ _ stop (λ id _.
        option_known P
          (spent_successor k l c (λ txid. some (has_txid s txid)) oracle p.tip next (hex_string id))
          _ _ stop (λ t _ _. refl))

  recover_spent-IsGrounded :
      (s : Store) (p : CellPosition) (retry : Bool)
      → p.rejected ≡ true
      → IsGrounded s p retry (recover_spent k l c d oracle s p)
  unfolding recover_spent
  recover_spent-IsGrounded s p retry refused =
      option_known (IsGrounded s p retry) (tip_row p.tip d.cells >>= next_row d.rule) _ _
        (λ on. absurd (cc on))
        (λ next e on.
          let r =
            recover_spent_tip k l c (λ txid. some (has_txid s txid)) oracle p.tip
              (codes p.rejection_err) next in
          lost r.tip refused (
            next,
            e,
            (recover_spent_tip_lem k l c (λ txid. some (has_txid s txid)) oracle p.tip
                  (codes p.rejection_err) next r.tip).0
                (recover_spent_tip-adopt s p next on),
          ))

  stale-IsGrounded :
      (s : Store) (p : CellPosition) (retry : Bool)
      → p.rejected ≡ true
      → IsGrounded s p retry (recover_stale_rejection k l p.tip p.rejected_at p.rejection_txid)
  stale-IsGrounded s p retry refused on =
      let r = recover_stale_rejection k l p.tip p.rejected_at p.rejection_txid in
      let e = recover_stale_rejection-Resumes k l p.tip p.rejected_at p.rejection_txid on in
      let (above, (tx, held, apart)) =
        recover_stale_rejection_lem k l p.tip p.rejected_at p.rejection_txid e in
      at_tip s p retry r e
        (elsewhere tx refused above (refused_tx-IsHeld k l p.rejection_txid tx held) apart)

  explained-IsGrounded :
      (s : Store) (p : CellPosition) (retry : Bool)
      → p.rejected ≡ true
      → IsGrounded s p retry (explained k l c d oracle s p)
  unfolding explained
  explained-IsGrounded s p retry refused =
      let P = IsGrounded s p retry in
      let stale = stale-IsGrounded s p retry refused in
      let spent = recover_spent-IsGrounded s p retry refused in
      if_either P (not (is_spent_tip p)) _ _ stale (
        if_either P (not (is_halt (recover_spent k l c d oracle s p).verdict)) _ _ spent (
          if_either P
            (is_resume (recover_stale_rejection k l p.tip p.rejected_at p.rejection_txid).verdict) _
            _ stale spent))

  retry-IsGrounded :
      (s : Store) (p : CellPosition) (retry : Bool)
      → p.rejected ≡ true
      → retry ≡ true
      → IsGrounded s p retry
          (retry_refusal k l p.tip p.rejected_at p.rejection_txid (codes p.rejection_err))
  retry-IsGrounded s p retry refused asked on =
      let r = retry_refusal k l p.tip p.rejected_at p.rejection_txid (codes p.rejection_err) in
      let e =
        retry_refusal-Resumes k l p.tip p.rejected_at p.rejection_txid (codes p.rejection_err) on in
      let (next, unspent, named, (tx, held, own)) =
        (retry_refusal_lem k l p.tip p.rejected_at p.rejection_txid (codes p.rejection_err)).0 e in
      at_tip s p retry r e (
        retried tx refused asked next unspent (refused_tx-IsHeld k l p.rejection_txid tx held)
          (any-SpendsTip p.tip tx.inputs own))

  not_broadcast-IsGrounded :
      (s : Store) (p : CellPosition) (retry : Bool)
      → p.rejected ≡ true
      → IsGrounded s p retry
          (recover_not_broadcast p.tip p.rejected_at p.rejection_txid (codes p.rejection_err))
  not_broadcast-IsGrounded s p retry refused on =
      let r = recover_not_broadcast p.tip p.rejected_at p.rejection_txid (codes p.rejection_err) in
      let e =
        recover_not_broadcast-Resumes p.tip p.rejected_at p.rejection_txid (codes p.rejection_err)
          on in
      let (above, (cause, text), unnamed) =
        (recover_not_broadcast_lem p.tip p.rejected_at p.rejection_txid (codes p.rejection_err)).0
          e in
      at_tip s p retry r e (unsent cause refused above text unnamed)

  recover_rejected-IsGrounded :
      (s : Store) (p : CellPosition) (retry : Bool)
      → p.rejected ≡ true
      → IsGrounded s p retry (recover_rejected k l c d oracle s p retry)
  unfolding recover_rejected
  recover_rejected-IsGrounded s p retry refused =
      let P = IsGrounded s p retry in
      let rec = explained k l c d oracle s p in
      let why = explained-IsGrounded s p retry refused in
      if_either P (is_never_broadcast p) _ _ (not_broadcast-IsGrounded s p retry refused) (
        if_known P (not (is_halt rec.verdict) || not retry) _ _ (λ _. why)
          (λ asked.
            if_either P
              (is_resume
                (retry_refusal k l p.tip p.rejected_at p.rejection_txid
                  (codes p.rejection_err)).verdict)
              _ _ (retry-IsGrounded s p retry refused (ground (arith, asked))) why))

  pub decide_cell-IsGrounded :
      (s : Store) (p : CellPosition) (retry : Bool) (r : Recovery)
      → decide_cell k l c d oracle s p retry ≡ some r
      → IsGrounded s p retry r
  unfolding decide_cell
  decide_cell-IsGrounded s p retry r =
      let P : Option Recovery → Type 0 = λ o. o ≡ some r → IsGrounded s p retry r in
      if_known P p.unknown _ _
        (λ unknown e.
          subst (IsGrounded s p retry) (some-injective _ r e)
            (recover_cell-IsGrounded s p retry unknown))
        (λ _.
          if_known P p.rejected _ _
            (λ refused e.
              subst (IsGrounded s p retry) (some-injective _ r e)
                (recover_rejected-IsGrounded s p retry refused))
            (λ _ e. absurd (cc e)))
