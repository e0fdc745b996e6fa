-- ===== src/Audit/Cells.antt =====
-- internal/audit/audit.go: a cell that the audit passes made its transition.
use rule_110_arcade.Base.{
  ℕ, ◌≡◌, ◌≢◌, refl, sym, ap, ◌∙◌, Bool, false, Option, none, some, ◌==◌, is_empty, get_elem?,
  ==_iff, if_known, ==→ne,
}
use mathlib.Core.Path.{subst}
use mathlib.Core.Option.{some-injective}
use rule_110_arcade.Ca.{Row, equal, next, to_bit}
use rule_110_arcade.Cellscript.Decode.{Binding, decode}
use rule_110_arcade.Chain.Successor.{equal_sound}
use rule_110_arcade.History.{CellTx, is_failed}
use rule_110_arcade.Audit.Evidence.{IsSpend, IsTransition, IsGenesis, IsProved, IsAudited}
use rule_110_arcade.Audit.{
  identity, binding, rule_check, not_recorded, no_txid, refused_there, no_outpoint, Step,
}
use rule_110_arcade.Audit.Fetch.{World, Recorded}
use rule_110_arcade.Audit.Cell.{
  named_parent, output_index, bump_transactions, audit_genesis_cell, audit_cell, audit_later,
  audit_record,
}
use rule_110_arcade.Audit.Proves.{
  Proves, Proves-lift, Proves-gap, Proves-pass, Proves-bind, Proves-weaken, Proves-or_fail,
  Proves-or_gap, Proves-test,
}
use rule_110_arcade.Audit.Genuine.{Proves-fetched}
use rule_110_arcade.Audit.Transition.{
  to_bit-eq, binding_path, check_spend-Proves, check_neighbourhood-Proves, check_successor-Proves,
}

named_parent-some :
    (o : Option CellTx) (t : CellTx)
    → named_parent o ≡ some t
    → (o ≡ some t) × (is_empty t.txid ≡ false)
unfolding named_parent
named_parent-some none t = λ e. cc e
named_parent-some (some u) t =
    if_known (λ (o : Option CellTx). o ≡ some t → (some u ≡ some t) × (is_empty t.txid ≡ false))
      (is_empty u.txid) none (some u) (λ _ e. absurd (cc e))
      (λ full e. (e, ap (λ (x : CellTx). is_empty x.txid) (sym (some-injective u t e)) ∙ full))

module _ (v : World) where
  Proves-bump : Proves v bump_transactions (λ _. Unit {0})
  unfolding bump_transactions
  Proves-bump = record { at = λ a k. (k, (tt, λ c. c)) }

  audit_genesis_cell-Proves :
      (g cell : ℕ) (cur : Recorded) (rec : CellTx)
      → Proves v (audit_genesis_cell v g cell cur.row rec) (λ _. IsGenesis v cur cell rec)
  unfolding audit_genesis_cell
  audit_genesis_cell-Proves g cell cur rec =
      Proves-bind v (Proves-fetched v 0 cell identity rec.txid) λ tx genuine.
        Proves-bind v (Proves-pass v identity) λ _ _.
          Proves-bind v (Proves-or_fail v (get_elem? tx.outputs cell) 0 (some cell) binding)
            λ out at. Proves-bind v (Proves-lift v (v.locking_bytes out)) λ lock locked.
              Proves-bind v
                (Proves-or_fail v (decode v.artifact v.compiled lock) 0 (some cell) binding)
                λ b read.
                  Proves-bind v (Proves-test v (b.cell == cell) 0 (some cell) binding) λ _ own.
                    Proves-bind v (Proves-test v (equal b.row cur.row) 0 (some cell) binding)
                      λ _ same. Proves-bind v (Proves-pass v binding) λ _ _.
                        Proves-weaken v (λ _. Unit {0}) (λ _. IsGenesis v cur cell rec)
                          (λ _ _. record {
                            tx = tx;
                            genuine = genuine;
                            carries = record {
                              out = out;
                              there = at;
                              lock = lock;
                              locked = locked;
                              bound =
                                  read
                                  ∙ ap (λ (x : Binding). some x)
                                      (binding_path b cell cur.row ((==_iff b.cell cell).0 own)
                                        (equal_sound b.row cur.row same));
                            };
                          })
                          Proves-bump

  audit_cell-Proves :
      (cur prev : Recorded) (cell : ℕ) (rec : CellTx)
      → Proves v (audit_cell v cur prev cell rec) (λ _. IsTransition v cur prev cell rec)
  unfolding audit_cell
  audit_cell-Proves cur prev cell rec =
      Proves-bind v
        (Proves-or_gap v (named_parent (prev.cell_tx cell)) cur.number (some cell) no_outpoint)
        λ parent known.
          Proves-bind v (Proves-fetched v cur.number cell identity rec.txid) λ tx genuine.
            Proves-bind v (Proves-pass v identity) λ _ _.
              Proves-bind v (Proves-fetched v cur.number cell identity parent.txid)
                λ parent_tx parent_genuine.
                  Proves-bind v
                    (check_spend-Proves v cur.number cell tx parent_tx parent.txid
                      (output_index prev cell))
                    λ spend spent.
                      Proves-bind v (check_neighbourhood-Proves v cur.number cell spend.0 prev.row)
                        λ bits read.
                          Proves-bind v
                            (check_successor-Proves v cur.number cell tx spend.1.next_row cur.row)
                            λ bit continued.
                              Proves-bind v
                                (Proves-test v
                                  (next v.compiled.rule (to_bit bits.0) (to_bit bits.1)
                                      (to_bit bits.2)
                                    == to_bit bit)
                                  cur.number (some cell) rule_check)
                                λ _ ruled. Proves-bind v (Proves-pass v rule_check) λ _ _.
                                  Proves-weaken v (λ _. Unit {0})
                                    (λ _. IsTransition v cur prev cell rec)
                                    (λ _ _.
                                      let (at, named) =
                                        named_parent-some (prev.cell_tx cell) parent known in
                                      let n =
                                        next v.compiled.rule (to_bit bits.0) (to_bit bits.1)
                                          (to_bit bits.2) in
                                      record {
                                        parent = parent;
                                        recorded = at;
                                        named = named;
                                        tx = tx;
                                        genuine = genuine;
                                        parent_tx = parent_tx;
                                        parent_genuine = parent_genuine;
                                        unlock = spend.1;
                                        spend =
                                            subst
                                              (λ (x : Row).
                                                IsSpend v cell tx parent_tx parent.txid
                                                  (output_index prev cell) x spend.1)
                                              read.0 spent;
                                        continues = continued.0;
                                        l = bits.0;
                                        c = bits.1;
                                        r = bits.2;
                                        left = read.1;
                                        itself = read.2;
                                        right = read.3;
                                        presented = continued.1 ∙ sym continued.2;
                                        ruled =
                                            continued.2
                                            ∙ ap (λ (x : Bool). some x) (to_bit-eq n bit ruled);
                                      })
                                    Proves-bump

  audit_later-Proves :
      (cur : Recorded) (prev : Option Recorded) (cell : ℕ) (rec : CellTx)
      → cur.number ≢ 0
      → Proves v (audit_later v cur prev cell rec) (λ _. IsProved v cur prev cell rec)
  unfolding audit_later
  audit_later-Proves cur none cell rec n =
      Proves-weaken v (λ (x : Unit {0}). none ≡ some x) (λ _. IsProved v cur none cell rec)
        (λ x e. absurd (cc e)) (Proves-lift v none)
  audit_later-Proves cur (some p) cell rec n =
      Proves-weaken v (λ _. IsTransition v cur p cell rec) (λ _. IsProved v cur (some p) cell rec)
        (λ _ t. (λ z. absurd (n z), λ _. (p, refl, t))) (audit_cell-Proves cur p cell rec)

  pub audit_record-Proves :
      (cur : Recorded) (prev : Option Recorded) (cell : ℕ) (o : Option CellTx)
      → Proves v (audit_record v cur prev cell o) (λ _. IsAudited v cur prev cell o)
  unfolding audit_record
  audit_record-Proves cur prev cell none =
      Proves-gap v (λ _. IsAudited v cur prev cell none) cur.number (some cell) not_recorded
  audit_record-Proves cur prev cell (some rec) =
      let Q : Unit {0} → Type 0 = λ _. IsAudited v cur prev cell (some rec) in
      let P : Step (Unit {0}) → Type 0 = λ m. Proves v m Q in
      if_known P (is_empty rec.txid) _ _ (λ _. Proves-gap v Q cur.number (some cell) no_txid)
        (λ named.
          if_known P (is_failed rec.status) _ _
            (λ _. Proves-gap v Q cur.number (some cell) refused_there)
            (λ live.
              if_known P (cur.number == 0) _ _
                (λ first.
                  Proves-weaken v (λ _. IsGenesis v cur cell rec) Q
                    (λ _ g. (
                      rec,
                      refl,
                      named,
                      live,
                      (λ _. g, λ n. absurd (n ((==_iff cur.number 0).0 first))),
                    ))
                    (audit_genesis_cell-Proves cur.number cell cur rec))
                (λ later.
                  Proves-weaken v (λ _. IsProved v cur prev cell rec) Q
                    (λ _ g. (rec, refl, named, live, g))
                    (audit_later-Proves cur prev cell rec (==→ne cur.number 0 later)))))
