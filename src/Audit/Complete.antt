-- ===== src/Audit/Complete.antt =====
-- internal/audit/audit.go: the audit of a cell that made its transition passes.
use rule_110_arcade.Base.{
  ℕ, ◌<◌, String, ◌≡◌, refl, ◌∙◌, Bool, true, false, Option, some, ◌==◌, ==_refl, is_empty,
  if◌then◌else◌,
}
use mathlib.Core.Path.{subst}
use rule_110_arcade.Ca.{Row, get, equal, left_index, right_index, next, to_bit}
use rule_110_arcade.Cellscript.Pieces.{equal_refl}
use rule_110_arcade.Cellscript.Unlocking.{Unlock}
use rule_110_arcade.Chain.{Bytes, Tx}
use rule_110_arcade.Contract.Lookup.{next_bit}
use rule_110_arcade.History.{CellTx}
use rule_110_arcade.Audit.Evidence.{IsSpend, IsCovenant, IsTransition, IsGenesis}
use rule_110_arcade.Audit.{
  identity, linkage, binding, covenant, neighbourhood, carried_row, rule_check, successor,
  no_outpoint, Check, fail, gap, or_else, ensure,
}
use rule_110_arcade.Audit.Fetch.{World, Recorded}
use rule_110_arcade.Audit.Cell.{
  preimage, same_bit, named_parent, output_index, bump_transactions, check_preimage,
  check_neighbourhood, check_successor, check_spend, audit_genesis_cell, audit_cell,
}
use rule_110_arcade.Audit.Passes.{
  Passes, Passes-pure, Passes-lift, Passes-or_else, Passes-ensure, Passes-pass, Passes-bind,
  Passes-fetched,
}

same_bit_refl : (b : Bool) → same_bit b b ≡ true
same_bit_refl true = refl
same_bit_refl false = refl

same_bits :
    (l c r : Bool)
    → (if same_bit l l then (if same_bit c c then same_bit r r else false) else false) ≡ true
same_bits l c r = rw (same_bit_refl l, same_bit_refl c, same_bit_refl r) refl

named_parent_lem :
    (o : Option CellTx) (t : CellTx)
    → o ≡ some t
    → is_empty t.txid ≡ false
    → named_parent o ≡ some t
unfolding named_parent
named_parent_lem o t e n = rw (e, n) refl

module _ (v : World) where
  Passes-or_fail :
      {A : Type 0} {o : Option A} {x : A} (g : ℕ) (cell : Option ℕ) (check : Check)
      → o ≡ some x
      → Passes v (or_else o (fail g cell check)) x
  Passes-or_fail {o = o} {x = x} g cell check e = Passes-or_else v o (fail g cell check) x e

  pub Passes-test :
      {b : Bool} (g : ℕ) (cell : Option ℕ) (check : Check)
      → b ≡ true
      → Passes v (ensure b (fail g cell check)) tt
  Passes-test {b = b} g cell check e = Passes-ensure v b (fail g cell check) e

  check_preimage-Passes :
      (g cell : ℕ) (tx : Tx) (input : ℕ) (lock : Bytes) (sats : ℕ) (unlock : Unlock)
      → preimage v tx input lock sats ≡ some unlock.preimage
      → Passes v (check_preimage v g cell tx input lock sats unlock) tt
  unfolding check_preimage
  check_preimage-Passes g cell tx input lock sats unlock e =
      Passes-bind v _ (Passes-or_fail g (some cell) covenant e)
        (Passes-ensure v (equal unlock.preimage unlock.preimage) _ (equal_refl unlock.preimage))

  pub check_spend-Passes :
      (g cell : ℕ) (tx parent_tx : Tx) (parent_txid : String) (vout : ℕ) (row : Row)
      (unlock : Unlock)
      → IsSpend v cell tx parent_tx parent_txid vout row unlock
      → Passes v (check_spend v g cell tx parent_tx parent_txid vout) (row, unlock)
  unfolding check_spend
  check_spend-Passes g cell tx parent_tx parent_txid vout row unlock h =
      Passes-bind v _ (Passes-or_fail g (some cell) linkage h.first) (
        Passes-bind v _ (Passes-or_fail g (some cell) linkage h.spent) (
          Passes-bind v _ (Passes-pass v linkage) (
            Passes-bind v _ (Passes-lift v (v.locking_bytes h.out) h.lock h.locked) (
              Passes-bind v _ (Passes-or_fail g (some cell) binding h.bound) (
                Passes-bind v _ (Passes-test g (some cell) binding (==_refl cell)) (
                  Passes-bind v _ (Passes-pass v binding) (
                    Passes-bind v _
                      (Passes-lift v (v.unlocking_bytes tx h.input) h.unlocking h.pushed)
                      (Passes-bind v _ (Passes-or_fail g (some cell) covenant h.decoded) (
                        Passes-bind v _
                          (check_preimage-Passes g cell tx h.input h.lock h.out.satoshis unlock
                            h.committed)
                          (Passes-bind v _ (Passes-pass v covenant)
                            (Passes-pure v (row, unlock))))))))))))

  check_neighbourhood-Passes :
      (g cell : ℕ) (row : Row) (l c r : Bool)
      → get row (left_index v.compiled.cells cell) ≡ some l
      → get row cell ≡ some c
      → get row (right_index v.compiled.cells cell) ≡ some r
      → Passes v (check_neighbourhood v g cell row row) (l, c, r)
  unfolding check_neighbourhood
  check_neighbourhood-Passes g cell row l c r hl hc hr =
      let left = Passes-lift v (get row (left_index v.compiled.cells cell)) l hl in
      let itself = Passes-lift v (get row cell) c hc in
      let right = Passes-lift v (get row (right_index v.compiled.cells cell)) r hr in
      Passes-bind v _ left (
        Passes-bind v _ itself (
          Passes-bind v _ right (
            Passes-bind v _ left (
              Passes-bind v _ itself (
                Passes-bind v _ right (
                  Passes-bind v _ (Passes-test g (some cell) neighbourhood (same_bits l c r)) (
                    Passes-bind v _ (Passes-pass v neighbourhood) (
                      Passes-bind v _ (Passes-test g (some cell) carried_row (equal_refl row)) (
                        Passes-bind v _ (Passes-pass v carried_row)
                          (Passes-pure v (l, c, r)))))))))))

  check_successor-Passes :
      (g cell : ℕ) (tx : Tx) (presented recorded : Row) (bit : Bool)
      → IsCovenant v cell tx 0 presented
      → get presented cell ≡ some bit
      → get recorded cell ≡ some bit
      → Passes v (check_successor v g cell tx presented recorded) bit
  unfolding check_successor
  check_successor-Passes g cell tx presented recorded bit h hp hr =
      Passes-bind v _ (Passes-or_fail g (some cell) successor h.there) (
        Passes-bind v _ (Passes-lift v (v.locking_bytes h.out) h.lock h.locked) (
          Passes-bind v _ (Passes-or_fail g (some cell) successor h.bound) (
            Passes-bind v _ (Passes-test g (some cell) successor (==_refl cell)) (
              Passes-bind v _ (Passes-test g (some cell) successor (equal_refl presented)) (
                Passes-bind v _ (Passes-lift v (get presented cell) bit hp) (
                  Passes-bind v _ (Passes-lift v (get recorded cell) bit hr) (
                    Passes-bind v _ (Passes-test g (some cell) successor (same_bit_refl bit))
                      (Passes-bind v _ (Passes-pass v successor) (Passes-pure v bit)))))))))

  Passes-bump : Passes v bump_transactions tt
  unfolding bump_transactions
  Passes-bump = record { at = λ a k. (refl, k, λ c. c) }

  pub audit_genesis_cell-Passes :
      (g cell : ℕ) (cur : Recorded) (rec : CellTx)
      → IsGenesis v cur cell rec
      → Passes v (audit_genesis_cell v g cell cur.row rec) tt
  unfolding audit_genesis_cell
  audit_genesis_cell-Passes g cell cur rec h =
      let out = h.carries in
      Passes-bind v _ (Passes-fetched v 0 cell identity rec.txid h.tx h.genuine) (
        Passes-bind v _ (Passes-pass v identity) (
          Passes-bind v _ (Passes-or_fail 0 (some cell) binding out.there) (
            Passes-bind v _ (Passes-lift v (v.locking_bytes out.out) out.lock out.locked) (
              Passes-bind v _ (Passes-or_fail 0 (some cell) binding out.bound) (
                Passes-bind v _ (Passes-test 0 (some cell) binding (==_refl cell)) (
                  Passes-bind v _ (Passes-test 0 (some cell) binding (equal_refl cur.row))
                    (Passes-bind v _ (Passes-pass v binding) Passes-bump)))))))

  pub audit_cell-Passes :
      (cur prev : Recorded) (cell : ℕ) (rec : CellTx)
      → v.compiled.rule < 256
      → IsTransition v cur prev cell rec
      → Passes v (audit_cell v cur prev cell rec) tt
  unfolding audit_cell
  audit_cell-Passes cur prev cell rec byte h =
      let n = next v.compiled.rule (to_bit h.l) (to_bit h.c) (to_bit h.r) in
      let bit : Bool = n == 1 in
      let ruled : (n == to_bit bit) ≡ true =
        subst (λ m. (n == m) ≡ true) (next_bit v.compiled.rule h.l h.c h.r byte) (==_refl n) in
      Passes-bind v _
        (Passes-or_else v (named_parent (prev.cell_tx cell))
          (gap cur.number (some cell) no_outpoint) h.parent
          (named_parent_lem (prev.cell_tx cell) h.parent h.recorded h.named))
        (Passes-bind v _ (Passes-fetched v cur.number cell identity rec.txid h.tx h.genuine) (
          Passes-bind v _ (Passes-pass v identity) (
            Passes-bind v _
              (Passes-fetched v cur.number cell identity h.parent.txid h.parent_tx h.parent_genuine)
              (Passes-bind v _
                (check_spend-Passes cur.number cell h.tx h.parent_tx h.parent.txid
                  (output_index prev cell) prev.row h.unlock h.spend)
                (Passes-bind v _
                  (check_neighbourhood-Passes cur.number cell prev.row h.l h.c h.r h.left h.itself
                    h.right)
                  (Passes-bind v _
                    (check_successor-Passes cur.number cell h.tx h.unlock.next_row cur.row bit
                      h.continues (h.presented ∙ h.ruled) h.ruled)
                    (Passes-bind v _ (Passes-test cur.number (some cell) rule_check ruled)
                      (Passes-bind v _ (Passes-pass v rule_check) Passes-bump))))))))
