-- ===== src/Chain/Successor.antt =====
-- internal/chain/tips.go: what a derived tip and a verified successor are evidence of.
use rule_110_arcade.Base.{
  ℕ, ◌+◌, ◌/◌, ◌%◌, ◌<◌, ◌≡◌, refl, sym, ap, ◌∙◌, arith, true, false, not, Option, none, some, List,
  [], ◌∷◌, String, length, any, ◌==◌, u64, str_eq, str_eq_iff, bind-some, guard-some, test-some,
  both, refuse-some, ◌||◌, ==_iff,
}
use mathlib.Core.Option.{some-injective}
use rule_110_arcade.Ca.{
  Row, Rule, hex, equal, equal_bytes, step as next_row, seed_hex, cells, decode_hex,
}
use rule_110_arcade.Ca.Step.{cells_of_length, step-IsNext}
use rule_110_arcade.Ca.Hex.{seed_hex-hex}
use rule_110_arcade.Cellscript.{Compiled}
use rule_110_arcade.Chain.{CellChain, Bytes, Output, Tx, Sdk, tip_row, locking_script}
use rule_110_arcade.Chain.Spending.{SpendsTip, any-SpendsTip}
use rule_110_arcade.Chain.Tips.{parse_tip, locks, spends, continue_with, verify_successor}

equal_bytes_sound : (r s : Row) → length r ≡ length s → equal_bytes r s ≡ true → r ≡ s
unfolding equal_bytes
equal_bytes_sound [] [] l e = refl
equal_bytes_sound [] (y ∷ s) l e = cc
equal_bytes_sound (x ∷ r) [] l e = cc
equal_bytes_sound (x ∷ r) (y ∷ s) l e =
    let (h, rest) = both (x == y) (equal_bytes r s) e in
    rw ((==_iff x y).0 h, equal_bytes_sound r s (omega arith) rest) refl

pub equal_sound : (r s : Row) → equal r s ≡ true → r ≡ s
unfolding equal
equal_sound r s e =
    let (h, rest) = both (length r == length s) (equal_bytes r s) e in
    equal_bytes_sound r s ((==_iff (length r) (length s)).0 h) rest

match_sound :
    (want : Bytes) (s : Option Bytes)
    → (elim s [ none ↦ false | some x ↦ equal x want ]) ≡ true
    → s ≡ some want
match_sound want none e = cc
match_sound want (some x) e = ap (λ (r : Bytes). some r) (equal_sound x want e)

pub locks-some : (want : Bytes) (o : Output) → locks want o ≡ true → o.locking_script ≡ some want
unfolding locks
locks-some want o e = match_sound want o.locking_script e

pub parse_tip-some :
    (k : Sdk) (txid : String) (raw : Bytes) (tx : Tx)
    → parse_tip k txid raw ≡ some tx
    → (k.parse raw ≡ some tx) × (k.tx_id tx ≡ txid)
unfolding parse_tip
parse_tip-some k txid [] tx e = cc
parse_tip-some k txid (b ∷ raw) tx e =
    let (t, p, q) = bind-some (k.parse (b ∷ raw)) _ e in
    let (u, r) = test-some (str_eq (k.tx_id t) txid) t q in
    (p ∙ ap (λ (x : Tx). some x) r, ap k.tx_id (sym r) ∙ (str_eq_iff (k.tx_id t) txid).0 u)

-- The row that the tip carries is as long as the ring.
tip_row-cells :
    (t : CellChain) (n : ℕ) (row : Row)
    → tip_row t n ≡ some row
    → (cells row ≡ n) × (0 < length row)
unfolding tip_row seed_hex cells
tip_row-cells t n row e =
    let (u, p) = refuse-some (n == 0 || not (n % 8 == 0)) _ e in
    let (b, q, r) = bind-some (decode_hex t.row_hex) _ p in
    let (v, w) = test-some (length b == n / 8) b r in rw (sym w) (ground arith)

-- `t` is the position that the transaction of `raw` gives the cell of `tip`, one generation on.
pub record IsSuccessor (k : Sdk) (c : Compiled) (rule : Rule) (n : ℕ) (tip : CellChain)
    (raw : Bytes) (t : CellChain) : Type 0 where
  pub tx : Tx
  pub row : Row
  pub next : Row
  pub parsed : k.parse raw ≡ some tx
  pub named : k.tx_id tx ≡ t.txid
  pub spent : SpendsTip tip tx.inputs
  pub from_row : tip_row tip n ≡ some row
  pub stepped : next_row rule row ≡ some next
  pub to_row : tip_row t n ≡ some next
  pub paid :
      (cont : Output) × (change : Output) × (tx.outputs ≡ cont ∷ change ∷ [])
      × (cont.locking_script ≡ locking_script k c tip.cell next)
      × (cont.satoshis ≡ tip.satoshis)
  pub same_cell : t.cell ≡ tip.cell
  pub same_value : t.satoshis ≡ tip.satoshis
  pub first_output : t.vout ≡ 0
  pub one_on : t.generation ≡ u64 (tip.generation + 1)

-- The next row is read back from its hex text.
next_row-read :
    (rule : Rule) (tip : CellChain) (n : ℕ) (row next : Row)
    → tip_row tip n ≡ some row
    → next_row rule row ≡ some next
    → seed_hex n (hex next) ≡ some next
next_row-read rule tip n row next h e =
    let (out, p, q) = step-IsNext rule row in
    let same = some-injective out next (sym p ∙ e) in
    let (a, b) = tip_row-cells tip n row h in
    let whole : n ≡ cells out = sym a ∙ sym (cells_of_length out row q.sized) in
    let alive : 0 < length out = omega (arith, q.sized) in
    rw (sym same, seed_hex-hex out n q.bytes alive, (==_iff n (cells out)).1 whole) refl

-- The two outputs that were accepted.
continue_with-some :
    (tip : CellChain) (txid : String) (raw : Bytes) (next : Row) (want : Bytes) (outs : List Output)
    (t : CellChain)
    → continue_with tip txid raw next want outs ≡ some t
    → (cont : Output) × (change : Output) × (outs ≡ cont ∷ change ∷ [])
      × (cont.locking_script ≡ some want)
      × (cont.satoshis ≡ tip.satoshis)
      × (record {
        cell = tip.cell;
        txid = txid;
        vout = 0;
        satoshis = cont.satoshis;
        generation = u64 (tip.generation + 1);
        row_hex = hex next;
        raw_tx_hex = hex raw;
      }
          ≡ t)
unfolding continue_with
continue_with-some tip txid raw next want [] t e = cc
continue_with-some tip txid raw next want (cont ∷ []) t e = cc
continue_with-some tip txid raw next want (cont ∷ change ∷ out ∷ outs) t e = cc
continue_with-some tip txid raw next want (cont ∷ change ∷ []) t e =
    let (l, p) = guard-some (locks want cont) _ e in
    let (s, q) = guard-some (cont.satoshis == tip.satoshis) _ p in
    (
      cont,
      change,
      refl,
      locks-some want cont l,
      (==_iff cont.satoshis tip.satoshis).0 s,
      some-injective _ t q,
    )

-- A verified successor has the offered transaction id, which the transaction's bytes hash to,
-- spends the tip, has two outputs of which the first locks the tip's value to the cell's script for
-- the next row, and gives the cell at output 0, one generation on, on the row that the rule answers
-- for the tip's row.
pub verify_successor_lem :
    (k : Sdk) (c : Compiled) (tip : CellChain) (n : ℕ) (rule : Rule) (txid : String) (raw : Bytes)
    (t : CellChain)
    → verify_successor k c tip n rule txid raw ≡ some t
    → (t.txid ≡ txid) × IsSuccessor k c rule n tip raw t
unfolding verify_successor
verify_successor_lem k c tip n rule txid raw t e =
    let (tx, a, e1) = bind-some (parse_tip k txid raw) _ e in
    let (b, e2) = guard-some (any (spends tip) tx.inputs) _ e1 in
    let (row, d, e3) = bind-some (tip_row tip n) _ e2 in
    let (next, f, e4) = bind-some (next_row rule row) _ e3 in
    let (want, g, e5) = bind-some (locking_script k c tip.cell next) _ e4 in
    let (cont, change, h, i, j, l) = continue_with-some tip txid raw next want tx.outputs t e5 in
    let (p, q) = parse_tip-some k txid raw tx a in
    (
      ap (λ (x : CellChain). x.txid) (sym l),
      record {
        tx = tx;
        row = row;
        next = next;
        parsed = p;
        named = q ∙ ap (λ (x : CellChain). x.txid) l;
        spent = any-SpendsTip tip tx.inputs b;
        from_row = d;
        stepped = f;
        to_row =
            ap (λ (x : CellChain). tip_row x n) (sym l) ∙ next_row-read rule tip n row next d f;
        paid = (cont, change, h, i ∙ sym g, j);
        same_cell = ap (λ (x : CellChain). x.cell) (sym l);
        same_value = ap (λ (x : CellChain). x.satoshis) (sym l) ∙ j;
        first_output = ap (λ (x : CellChain). x.vout) (sym l);
        one_on = ap (λ (x : CellChain). x.generation) (sym l);
      },
    )
