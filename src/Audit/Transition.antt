-- ===== src/Audit/Transition.antt =====
-- internal/audit/audit.go: what the audit of one cell has seen when it reports nothing.
use rule_110_arcade.Base.{
  ℕ, suc, ◌+◌, ◌≡◌, refl, sym, ap, ◌∙◌, arith, Bool, true, false, Option, some, List, [], ◌∷◌,
  String, ◌==◌, if◌then◌else◌, get_elem?, ==_iff, if_known,
}
use mathlib.Core.Path.{subst}
use mathlib.Core.Option.{some-injective}
use rule_110_arcade.Ca.{Row, get, equal, left_index, right_index, to_bit}
use rule_110_arcade.Cellscript.Unlocking.{Unlock, decode_unlocking}
use rule_110_arcade.Cellscript.Decode.{Binding, decode, script_code}
use rule_110_arcade.Chain.{Bytes, Input, Tx}
use rule_110_arcade.Chain.Successor.{equal_sound}
use rule_110_arcade.Audit.Evidence.{IsSpend, IsCovenant}
use rule_110_arcade.Audit.{linkage, binding, covenant, neighbourhood, carried_row, successor}
use rule_110_arcade.Audit.Preimage.{preimage_script_code}
use rule_110_arcade.Audit.Fetch.{World}
use rule_110_arcade.Audit.Cell.{
  preimage, names, find_input, same_bit, check_preimage, check_neighbourhood, check_successor,
  check_spend,
}
use rule_110_arcade.Audit.Proves.{
  Proves, Proves-pure, Proves-lift, Proves-fail, Proves-pass, Proves-ensure, Proves-bind,
  Proves-weaken, Proves-or_fail, Proves-test,
}

find_input-some :
    (txid : String) (vout i : ℕ) (inputs : List Input) (k : ℕ)
    → find_input txid vout i inputs ≡ some k
    → (j : ℕ) × (x : Input) × (k ≡ i + j)
      × (get_elem? inputs j ≡ some x)
      × (names txid vout x ≡ true)
unfolding find_input
find_input-some txid vout i [] k = λ e. cc e
find_input-some txid vout i (x ∷ xs) k =
    if_known
      (λ (o : Option ℕ).
        o ≡ some k
        → (j : ℕ) × (y : Input) × (k ≡ i + j)
          × (get_elem? (x ∷ xs) j ≡ some y)
          × (names txid vout y ≡ true))
      (names txid vout x) (some i) (find_input txid vout (suc i) xs)
      (λ named e. let p = some-injective i k e in (0, x, omega (arith, p), refl, named))
      (λ other e.
        let (j, y, p, q, r) = find_input-some txid vout (suc i) xs k e in
        (suc j, y, omega (arith, p), q, r))

same_bit-eq : (a b : Bool) → same_bit a b ≡ true → a ≡ b
same_bit-eq true true e = refl
same_bit-eq true false e = cc e
same_bit-eq false true e = cc e
same_bit-eq false false e = refl

pub to_bit-eq : (n : ℕ) (b : Bool) → (n == to_bit b) ≡ true → b ≡ (n == 1)
to_bit-eq n true e = sym e
to_bit-eq n false e = rw ((==_iff n 0).0 e) refl

zero_plus : (j : ℕ) → 0 + j ≡ j
zero_plus j = omega arith

pub binding_path :
    (b : Binding) (i : ℕ) (row : Row)
    → b.cell ≡ i
    → b.row ≡ row
    → b ≡ record { cell = i; row = row }
binding_path b i row p q = λ t. record { cell = p t; row = q t }

module _ (v : World) where
  check_preimage-Proves :
      (g cell : ℕ) (tx : Tx) (input : ℕ) (lock : Bytes) (sats : ℕ) (unlock : Unlock)
      → Proves v
          (check_preimage v g cell tx input lock sats unlock)
          (λ _. preimage v tx input lock sats ≡ some unlock.preimage)
  unfolding check_preimage
  check_preimage-Proves g cell tx input lock sats unlock =
      Proves-bind v (Proves-or_fail v (preimage v tx input lock sats) g (some cell) covenant)
        λ want found.
          Proves-weaken v (λ _. equal want unlock.preimage ≡ true)
            (λ _. preimage v tx input lock sats ≡ some unlock.preimage)
            (λ _ same. found ∙ ap (λ (x : Bytes). some x) (equal_sound want unlock.preimage same))
            (Proves-ensure v (equal want unlock.preimage) _ λ Q.
              Proves-bind v
                (Proves-or_fail v (script_code v.artifact v.compiled lock) g (some cell) covenant)
                λ want_code _.
                  Proves-bind v
                    (Proves-or_fail v (preimage_script_code unlock.preimage) g (some cell) covenant)
                    λ got_code _.
                      Proves-bind v
                        (Proves-test v (equal want_code got_code) g (some cell) covenant)
                        λ _ _. Proves-fail v Q g (some cell) covenant)

  pub check_spend-Proves :
      (g cell : ℕ) (tx parent_tx : Tx) (parent_txid : String) (vout : ℕ)
      → Proves v
          (check_spend v g cell tx parent_tx parent_txid vout)
          (λ r. IsSpend v cell tx parent_tx parent_txid vout r.0 r.1)
  unfolding check_spend
  check_spend-Proves g cell tx parent_tx parent_txid vout =
      Proves-bind v
        (Proves-or_fail v (find_input parent_txid vout 0 tx.inputs) g (some cell) linkage)
        λ input found.
          Proves-bind v (Proves-or_fail v (get_elem? parent_tx.outputs vout) g (some cell) linkage)
            λ out at. Proves-bind v (Proves-pass v linkage) λ _ _.
              Proves-bind v (Proves-lift v (v.locking_bytes out)) λ lock locked.
                Proves-bind v
                  (Proves-or_fail v (decode v.artifact v.compiled lock) g (some cell) binding)
                  λ b read.
                    Proves-bind v (Proves-test v (b.cell == cell) g (some cell) binding) λ _ own.
                      Proves-bind v (Proves-pass v binding) λ _ _.
                        Proves-bind v (Proves-lift v (v.unlocking_bytes tx input))
                          λ unlocking pushed.
                            Proves-bind v
                              (Proves-or_fail v (decode_unlocking v.script v.compiled unlocking) g
                                (some cell) covenant)
                              λ unlock decoded.
                                Proves-bind v
                                  (check_preimage-Proves g cell tx input lock out.satoshis unlock)
                                  λ _ committed. Proves-bind v (Proves-pass v covenant) λ _ _.
                                    Proves-pure v
                                      (λ r. IsSpend v cell tx parent_tx parent_txid vout r.0 r.1)
                                      (b.row, unlock)
                                      (let (j, x, p, q, n) =
                                          find_input-some parent_txid vout 0 tx.inputs input
                                            found in
                                        record {
                                          input = input;
                                          spending = x;
                                          first = found;
                                          spends =
                                              ap (get_elem? tx.inputs) p
                                              ∙ ap (get_elem? tx.inputs) (zero_plus j)
                                              ∙ q;
                                          outpoint = n;
                                          out = out;
                                          spent = at;
                                          lock = lock;
                                          locked = locked;
                                          bound =
                                              read
                                              ∙ ap (λ (x : Binding). some x)
                                                  (binding_path b cell b.row
                                                    ((==_iff b.cell cell).0 own) refl);
                                          unlocking = unlocking;
                                          pushed = pushed;
                                          decoded = decoded;
                                          committed = committed;
                                        })

  -- The row read is the recorded one, and the three cells are what they hold in it.
  abbrev pub IsRead : ℕ → Row → Row → Bool × Bool × Bool → Type 0
  IsRead cell read recorded (l, c, r) =
      (read ≡ recorded)
      × (get recorded (left_index v.compiled.cells cell) ≡ some l)
      × (get recorded cell ≡ some c)
      × (get recorded (right_index v.compiled.cells cell) ≡ some r)

  pub check_neighbourhood-Proves :
      (g cell : ℕ) (read recorded : Row)
      → Proves v (check_neighbourhood v g cell read recorded) (IsRead cell read recorded)
  unfolding check_neighbourhood
  check_neighbourhood-Proves g cell read recorded =
      Proves-bind v (Proves-lift v (get read (left_index v.compiled.cells cell))) λ l hl.
        Proves-bind v (Proves-lift v (get read cell)) λ c hc.
          Proves-bind v (Proves-lift v (get read (right_index v.compiled.cells cell))) λ r hr.
            Proves-bind v (Proves-lift v (get recorded (left_index v.compiled.cells cell))) λ l' _.
              Proves-bind v (Proves-lift v (get recorded cell)) λ c' _.
                Proves-bind v (Proves-lift v (get recorded (right_index v.compiled.cells cell)))
                  λ r' _.
                    Proves-bind v
                      (Proves-test v
                        (if same_bit l l'
                          then (if same_bit c c' then same_bit r r' else false)
                          else false)
                        g (some cell) neighbourhood)
                      λ _ _. Proves-bind v (Proves-pass v neighbourhood) λ _ _.
                        Proves-bind v
                          (Proves-test v (equal read recorded) g (some cell) carried_row)
                          λ _ same. Proves-bind v (Proves-pass v carried_row) λ _ _.
                            let e = equal_sound read recorded same in
                            Proves-pure v (IsRead cell read recorded) (l, c, r)
                              (
                                e,
                                subst
                                    (λ (x : Row). get x (left_index v.compiled.cells cell) ≡ some l)
                                    e hl,
                                subst (λ (x : Row). get x cell ≡ some c) e hc,
                                subst
                                    (λ (x : Row).
                                      get x (right_index v.compiled.cells cell) ≡ some r)
                                    e hr,
                              )

  abbrev pub IsContinued : ℕ → Tx → Row → Row → Bool → Type 0
  IsContinued cell tx presented recorded bit =
      IsCovenant v cell tx 0 presented
      × (get presented cell ≡ some bit)
      × (get recorded cell ≡ some bit)

  pub check_successor-Proves :
      (g cell : ℕ) (tx : Tx) (presented recorded : Row)
      → Proves v
          (check_successor v g cell tx presented recorded)
          (IsContinued cell tx presented recorded)
  unfolding check_successor
  check_successor-Proves g cell tx presented recorded =
      Proves-bind v (Proves-or_fail v (get_elem? tx.outputs 0) g (some cell) successor) λ out at.
        Proves-bind v (Proves-lift v (v.locking_bytes out)) λ lock locked.
          Proves-bind v
            (Proves-or_fail v (decode v.artifact v.compiled lock) g (some cell) successor)
            λ b read.
              Proves-bind v (Proves-test v (b.cell == cell) g (some cell) successor) λ _ own.
                Proves-bind v (Proves-test v (equal b.row presented) g (some cell) successor)
                  λ _ same. Proves-bind v (Proves-lift v (get b.row cell)) λ bit held.
                    Proves-bind v (Proves-lift v (get recorded cell)) λ bit' held'.
                      Proves-bind v (Proves-test v (same_bit bit bit') g (some cell) successor)
                        λ _ agrees. Proves-bind v (Proves-pass v successor) λ _ _.
                          let e = equal_sound b.row presented same in
                          Proves-pure v (IsContinued cell tx presented recorded) bit (
                            record {
                              out = out;
                              there = at;
                              lock = lock;
                              locked = locked;
                              bound =
                                  read
                                  ∙ ap (λ (x : Binding). some x)
                                      (binding_path b cell presented ((==_iff b.cell cell).0 own)
                                        e);
                            },
                            subst (λ (x : Row). get x cell ≡ some bit) e held,
                            held' ∙ ap (λ (x : Bool). some x) (sym (same_bit-eq bit bit' agrees)),
                          )
