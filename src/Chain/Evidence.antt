-- ===== src/Chain/Evidence.antt =====
-- internal/chain/recover.go: on what evidence a refused transition is rebuilt.
use rule_110_arcade.Base.{
  ℕ, ◌+◌, ◌<◌, ◌≡◌, ◌≢◌, ◌↔◌, refl, sym, ap, ◌∙◌, arith, Bool, true, false, not, Option, none, some,
  List, [], ◌∷◌, String, any, leb, ◌==◌, if◌then◌else◌, u64, is_empty, if_known, option_known,
  leb-false→lt, ==_iff, length, All,
}
use mathlib.Core.Option.{some-injective}
use rule_110_arcade.Chain.{CellChain, Bytes, Input, Tx, Sdk, Ledger}
use rule_110_arcade.Chain.Tips.{spends}
use rule_110_arcade.Chain.Successor.{parse_tip-some}
use rule_110_arcade.Chain.Spending.{
  IsSpending, SpendsTip, here, later, IsSpending-spends, any-SpendsTip,
}
use rule_110_arcade.Chain.Recover.{Recovery, verdict_halt, verdict_resume, halt, resume}
use rule_110_arcade.Chain.Refusal.{
  is_utxo_spent, all_elsewhere, judge_stale, judge_retry, refused_tx, recover_stale_rejection,
  retry_refusal,
}

apart : verdict_halt ≡ verdict_resume → ⊥
apart e = cc

pub stopped : {evidence : Type 0} (tip : CellChain) → halt [] ≡ resume tip → evidence
stopped tip e = absurd (apart (ap (λ (r : Recovery). r.verdict) e))

-- The ledger's bytes for `txid` are those of the transaction, which has that id.
pub record IsHeld (k : Sdk) (l : Ledger) (txid : String) (tx : Tx) : Type 0 where
  pub raw : Bytes
  pub held : l.raw_tx txid ≡ some raw
  pub parsed : k.parse raw ≡ some tx
  pub identified : k.tx_id tx ≡ txid

pub refused_tx-IsHeld :
    (k : Sdk) (l : Ledger) (txid : String) (tx : Tx)
    → refused_tx k l txid ≡ some tx
    → IsHeld k l txid tx
unfolding refused_tx
refused_tx-IsHeld k l txid tx =
    option_known (λ o. o ≡ some tx → IsHeld k l txid tx) (l.raw_tx txid) _ _ (λ e. absurd (cc e))
      (λ raw held e.
        let (p, q) = parse_tip-some k txid raw tx e in
        record { raw = raw; held = held; parsed = p; identified = q })

-- The input names a transaction, and not the tip's output.
abbrev pub IsOther : CellChain → Input → Type 0
IsOther tip i = ((t : String) × (i.source_txid ≡ some t)) × ¬ IsSpending tip i

-- There are inputs, and each names an output that is not the tip's.
abbrev pub AreOthers : CellChain → List Input → Type 0
AreOthers tip inputs = (0 < length inputs) × All (IsOther tip) inputs

pub AreOthers-unspent :
    (tip : CellChain) (inputs : List Input) → SpendsTip tip inputs → ¬ All (IsOther tip) inputs
AreOthers-unspent tip _ (here i inputs h) others = others.0.1 h
AreOthers-unspent tip _ (later i inputs h) others = AreOthers-unspent tip inputs h others.1

named_other :
    (o : Option String) (b rest : Bool)
    → (elim o [ none ↦ false | some _ ↦ if b then false else rest ]) ≡ true
    → ((t : String) × (o ≡ some t)) × (b ≡ false) × (rest ≡ true)
named_other none b rest e = absurd (ground arith)
named_other (some t) b rest e = ((t, refl), ground (arith, e), ground (arith, e))

all_elsewhere-IsOther :
    (tip : CellChain) (inputs : List Input)
    → all_elsewhere tip inputs ≡ true
    → All (IsOther tip) inputs
unfolding all_elsewhere
all_elsewhere-IsOther tip [] e = tt
all_elsewhere-IsOther tip (i ∷ inputs) e =
    let (t, p, q) = named_other i.source_txid (spends tip i) (all_elsewhere tip inputs) e in
    ((t, λ h. cc (p, IsSpending-spends tip i h)), all_elsewhere-IsOther tip inputs q)

judge_stale-resume :
    (tip : CellChain) (inputs : List Input)
    → judge_stale tip inputs ≡ resume tip
    → AreOthers tip inputs
unfolding judge_stale
judge_stale-resume tip [] e = stopped tip e
judge_stale-resume tip (i ∷ inputs) e =
    (if_known (λ (r : Recovery). (r ≡ resume tip) → AreOthers tip (i ∷ inputs))
        (all_elsewhere tip (i ∷ inputs)) _ _
        (λ h e. (omega arith, all_elsewhere-IsOther tip (i ∷ inputs) h)) (λ h. stopped tip))
      e

-- A refusal is set aside only if it stands above the tip and the ledger's bytes for it are those of a
-- transaction that has inputs, each of which names an output that is not the tip's.
pub recover_stale_rejection_lem :
    (k : Sdk) (l : Ledger) (tip : CellChain) (rejected : ℕ) (txid : String)
    → recover_stale_rejection k l tip rejected txid ≡ resume tip
    → (tip.generation < rejected)
      × ((tx : Tx) × (refused_tx k l txid ≡ some tx) × AreOthers tip tx.inputs)
unfolding recover_stale_rejection
recover_stale_rejection_lem k l tip rejected txid =
    let P = λ (r : Recovery).
      (r ≡ resume tip)
      → (tip.generation < rejected)
        × ((tx : Tx) × (refused_tx k l txid ≡ some tx) × AreOthers tip tx.inputs) in
    if_known P (leb rejected tip.generation) _ _ (λ h. stopped tip)
      λ h.
        if_known P (is_empty txid) _ _ (λ g. stopped tip)
          λ g. option_known P (refused_tx k l txid) _ _ (stopped tip) λ tx e v.
            (leb-false→lt rejected tip.generation h, (tx, e, judge_stale-resume tip tx.inputs v))

-- A refusal is retried exactly if it stands right above the tip, does not say that the output is spent,
-- names a transaction, and the ledger's bytes are those of that transaction, which spends the tip.
pub retry_refusal_lem :
    (k : Sdk) (l : Ledger) (tip : CellChain) (rejected : ℕ) (txid : String) (rejection : Bytes)
    → (retry_refusal k l tip rejected txid rejection ≡ resume tip) ↔ (
        (rejected ≡ u64 (tip.generation + 1))
        × (is_utxo_spent rejection ≡ false)
        × (is_empty txid ≡ false)
        × ((tx : Tx) × (refused_tx k l txid ≡ some tx) × (any (spends tip) tx.inputs ≡ true)))
unfolding retry_refusal judge_retry
retry_refusal_lem k l tip rejected txid rejection =
    let P = λ (r : Recovery).
      (r ≡ resume tip)
      → (rejected ≡ u64 (tip.generation + 1))
        × (is_utxo_spent rejection ≡ false)
        × (is_empty txid ≡ false)
        × ((tx : Tx) × (refused_tx k l txid ≡ some tx) × (any (spends tip) tx.inputs ≡ true)) in
    (
      if_known P (not (rejected == u64 (tip.generation + 1))) _ _ (λ h. stopped tip)
          λ h.
            if_known P (is_utxo_spent rejection) _ _ (λ u. stopped tip)
              λ u.
                if_known P (is_empty txid) _ _ (λ g. stopped tip)
                  λ g. option_known P (refused_tx k l txid) _ _ (stopped tip) λ tx e.
                    if_known P (any (spends tip) tx.inputs) _ _
                      (λ s v. (
                        (==_iff rejected (u64 (tip.generation + 1))).0 (ground (arith, h)),
                        u,
                        g,
                        (tx, e, s),
                      ))
                      (λ s. stopped tip),
      λ (h, u, g, (tx, e, s)).
          rw ((==_iff rejected (u64 (tip.generation + 1))).1 h, u, g, e, s) refl,
    )

-- A refusal that is set aside because it is not about the tip is not one that a retry rebuilds, and the
-- other way round.
pub refusal_exclusive :
    (k : Sdk) (l : Ledger) (tip : CellChain) (rejected : ℕ) (txid : String) (rejection : Bytes)
    → recover_stale_rejection k l tip rejected txid ≡ resume tip
    → retry_refusal k l tip rejected txid rejection ≢ resume tip
refusal_exclusive k l tip rejected txid rejection h r =
    let (a, (tx, e, s)) = recover_stale_rejection_lem k l tip rejected txid h in
    let (b, u, g, (tx', e', s')) = (retry_refusal_lem k l tip rejected txid rejection).0 r in
    let same = some-injective tx tx' (sym e ∙ e') in
    AreOthers-unspent tip tx.inputs
      (any-SpendsTip tip tx.inputs (ap (λ (t : Tx). any (spends tip) t.inputs) same ∙ s')) s.1
