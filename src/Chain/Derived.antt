-- ===== src/Chain/Derived.antt =====
-- internal/chain/tips.go: a derived tip is the one output of the named transaction that locks to
-- the cell's script.
use rule_110_arcade.Base.{
  ℕ, zero, suc, ◌+◌, ◌≡◌, refl, sym, ap, ◌∙◌, arith, true, false, Option, none, some, List, [], ◌∷◌,
  String, ◌==◌, if◌then◌else◌, get_elem?, bind-some, guard-some, ==_iff, Bool-cases, inl, inr,
}
use mathlib.Core.Option.{some-injective}
use rule_110_arcade.Ca.{Row, hex}
use rule_110_arcade.Cellscript.Pieces.{equal_refl}
use rule_110_arcade.Cellscript.{Compiled}
use rule_110_arcade.Chain.{CellChain, Bytes, Output, Tx, Sdk, locking_script}
use rule_110_arcade.Chain.Tips.{parse_tip, locks, find_output, u32, derive_tip}
use rule_110_arcade.Chain.Successor.{locks-some, parse_tip-some}

-- No output of `outs` has the script.
abbrev IsFree : Bytes → List Output → Type 0
IsFree want outs = (j : ℕ) (o : Output) → get_elem? outs j ≡ some o → locks want o ≡ false

IsFree-cons :
    (want : Bytes) (out : Output) (outs : List Output)
    → locks want out ≡ false
    → IsFree want outs
    → IsFree want (out ∷ outs)
IsFree-cons want out outs h f zero o e = ap (locks want) (sym (some-injective out o e)) ∙ h
IsFree-cons want out outs h f (suc j) o e = f j o e

-- Only output `k` of `outs` has the script.
abbrev IsOnly : Bytes → List Output → ℕ → Type 0
IsOnly want outs k =
    (out : Output) × (get_elem? outs k ≡ some out)
    × (locks want out ≡ true)
    × ((j : ℕ) (o : Output) → get_elem? outs j ≡ some o → locks want o ≡ true → j ≡ k)

IsOnly-first :
    (want : Bytes) (out : Output) (outs : List Output)
    → locks want out ≡ true
    → IsFree want outs
    → IsOnly want (out ∷ outs) 0
IsOnly-first want out outs h f = (out, refl, h, go)
  where
    go : (j : ℕ) (o : Output) → get_elem? (out ∷ outs) j ≡ some o → locks want o ≡ true → j ≡ 0
    go zero o e t = refl
    go (suc j) o e t = cc (f j o e, t)

IsOnly-later :
    (want : Bytes) (out : Output) (outs : List Output) (k : ℕ)
    → locks want out ≡ false
    → IsOnly want outs k
    → IsOnly want (out ∷ outs) (suc k)
IsOnly-later want out outs k h (found, e, t, unique) = (found, e, t, go)
  where
    go : (j : ℕ) (o : Output) → get_elem? (out ∷ outs) j ≡ some o → locks want o ≡ true → j ≡ suc k
    go zero o e t = cc (h, t, some-injective out o e)
    go (suc j) o e t = ap suc (unique j o e t)

-- After a first match there is no other.
find_output-once :
    (want : Bytes) (i : ℕ) (outs : List Output) (m found : ℕ)
    → find_output want i outs (some m) ≡ some (some found)
    → (found ≡ m) × IsFree want outs
unfolding find_output
find_output-once want i [] m found e =
    (sym (some-injective m found (some-injective (some m) (some found) e)), λ j o h. cc)
find_output-once want i (out ∷ outs) m found e = elim (Bool-cases (locks want out)) [
  | inl h ↦ cc (rw h at e)
  | inr h ↦
      let (same, free) = find_output-once want (suc i) outs m found (rw h at e) in
      (same, IsFree-cons want out outs h free)
]

find_output-one :
    (want : Bytes) (i : ℕ) (outs : List Output) (found : ℕ)
    → find_output want i outs none ≡ some (some found)
    → (k : ℕ) × (found ≡ i + k) × IsOnly want outs k
unfolding find_output
find_output-one want i [] found e = cc (some-injective none (some found) e)
find_output-one want i (out ∷ outs) found e = elim (Bool-cases (locks want out)) [
  | inl h ↦
      let (same, free) = find_output-once want (suc i) outs i found (rw h at e) in
      (0, omega (arith, same), IsOnly-first want out outs h free)
  | inr h ↦
      let (k, at, only) = find_output-one want (suc i) outs found (rw h at e) in
      (suc k, omega (arith, at), IsOnly-later want out outs k h only)
]

-- The transaction of `raw`, which hashes to the id, has one output that carries the cell's script
-- for the row; it is the tip's output, and stands at the cell's number for generation 0 and first
-- for the others.
pub record IsCarried (k : Sdk) (c : Compiled) (cell gen : ℕ) (row : Row) (txid : String)
    (raw : Bytes) (t : CellChain) : Type 0 where
  pub tx : Tx
  pub parsed : k.parse raw ≡ some tx
  pub identified : k.tx_id tx ≡ txid
  pub want : Bytes
  pub script : locking_script k c cell row ≡ some want
  pub place : ℕ
  pub out : Output
  pub there : get_elem? tx.outputs place ≡ some out
  pub locked : out.locking_script ≡ some want
  pub only :
      (j : ℕ) (o : Output)
      → get_elem? tx.outputs j ≡ some o
      → o.locking_script ≡ some want
      → j ≡ place
  pub at_place : t.vout ≡ u32 place
  pub expected : t.vout ≡ (if gen == 0 then u32 cell else 0)
  pub valued : t.satoshis ≡ out.satoshis
  pub same_cell : t.cell ≡ cell
  pub same_txid : t.txid ≡ txid
  pub same_generation : t.generation ≡ gen
  pub shown : t.row_hex ≡ hex row

some-locks : (want : Bytes) (o : Output) → o.locking_script ≡ some want → locks want o ≡ true
unfolding locks
some-locks want o e = rw (e) (equal_refl want)

pub derive_tip-IsCarried :
    (k : Sdk) (c : Compiled) (cell gen : ℕ) (row : Row) (txid : String) (raw : Bytes)
    (t : CellChain)
    → derive_tip k c cell gen row txid raw ≡ some t
    → IsCarried k c cell gen row txid raw t
unfolding derive_tip
derive_tip-IsCarried k c cell gen row txid raw t e =
    let (tx, a, e1) = bind-some (parse_tip k txid raw) _ e in
    let (want, b, e2) = bind-some (locking_script k c cell row) _ e1 in
    let (match, d, e3) = bind-some (find_output want 0 tx.outputs none) _ e2 in
    let (found, f, e4) = bind-some match _ e3 in
    let (out, g, e5) = bind-some (get_elem? tx.outputs found) _ e4 in
    let (v, e6) = guard-some (u32 found == (if gen == 0 then u32 cell else 0)) _ e5 in
    let (p, q) = parse_tip-some k txid raw tx a in
    let (j, at, (o, h, l, only)) =
      find_output-one want 0 tx.outputs found (d ∙ ap (λ (x : Option ℕ). some x) f) in
    let made = sym (some-injective _ t e6) in
    let same : found ≡ j = omega (arith, at) in
    let stands = (==_iff (u32 found) (if gen == 0 then u32 cell else 0)).0 v in
    record {
      tx = tx;
      parsed = p;
      identified = q;
      want = want;
      script = b;
      place = found;
      out = out;
      there = g;
      locked =
          ap (λ (x : Output). x.locking_script)
            (some-injective out o (sym g ∙ ap (λ (i : ℕ). get_elem? tx.outputs i) same ∙ h))
          ∙ locks-some want o l;
      only = λ i u x y. only i u x (some-locks want u y) ∙ sym same;
      at_place = ap (λ (x : CellChain). x.vout) made ∙ sym stands;
      expected = ap (λ (x : CellChain). x.vout) made;
      valued = ap (λ (x : CellChain). x.satoshis) made;
      same_cell = ap (λ (x : CellChain). x.cell) made;
      same_txid = ap (λ (x : CellChain). x.txid) made;
      same_generation = ap (λ (x : CellChain). x.generation) made;
      shown = ap (λ (x : CellChain). x.row_hex) made;
    }
