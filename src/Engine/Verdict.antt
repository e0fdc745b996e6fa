-- ===== src/Engine/Verdict.antt =====
-- internal/engine/derive.go: what derivation concludes about a cell, against the records that stand
-- above its tip.
use rule_110_arcade.Base.{
  ℕ, ◌+◌, ◌≤◌, ◌<◌, ◌≡◌, ◌≢◌, ◌↔◌, ◌⊎◌, refl, ap, arith, true, false, Option, none, some, List, ◌∷◌,
  String, if◌then◌else◌, length, All, leb, Option-cases, inl, inr,
}
use mathlib.Core.Option.{some-injective}
use rule_110_arcade.Base.Sort.{IsDesc, IsDesc-filter}
use rule_110_arcade.History.{is_failed}
use rule_110_arcade.History.Tips.{Tip, DeepTip}
use rule_110_arcade.Engine.Derive.{Claim, newest_settled, judge_deep, classify, judge, dig}
use rule_110_arcade.Engine.Wreckage.{
  failures_above, attempts_above, last_or, judged, judge_shallow-judged, judged_flags,
  judged_oldest,
}

-- `base` is the newest settled record among `rows`, which come newest first.
module _ (genesis_txid : String) (r : Tip) (rs : List Tip) (deep : DeepTip) (base : Tip)
    (ordered : IsDesc (λ (t : Tip). t.generation) (r ∷ rs))
    (settled : newest_settled (r ∷ rs) ≡ some base) where
  abbrev fails : List Tip
  fails = failures_above base.generation (r ∷ rs)

  abbrev tries : List Tip
  tries = attempts_above base.generation (r ∷ rs)

  classify-judged :
      classify genesis_txid (r ∷ rs) deep
      ≡ (record { gen = base.generation; txid = base.txid }, judged base.generation fails tries)
  unfolding classify judge
  classify-judged = rw settled (
      ap (λ p. (record { gen = base.generation; txid = base.txid }, p))
        (judge_shallow-judged (r ∷ rs) base ordered))

  -- When a cell's window holds a settled record, the cell's tip is the newest of those, and the cell is
  -- halted exactly if a failure or an attempt stands above it, offered to a repair of rejections exactly
  -- if one to three failures do, and to the recovery of an unknown tip exactly if an attempt does and
  -- at most three failures: a cascade of four or more is offered to neither.
  pub classify_shallow :
      let p = (classify genesis_txid (r ∷ rs) deep).1 in
      ((classify genesis_txid (r ∷ rs) deep).0 ≡ record { gen = base.generation; txid = base.txid })
      × ((p.halted ≡ true) ↔ (0 < length fails + length tries))
      × ((p.rejected ≡ true) ↔ ((0 < length fails) × (length fails ≤ 3)))
      × ((p.unknown ≡ true) ↔ ((0 < length tries) × (length fails ≤ 3)))
  classify_shallow =
      rw classify-judged
        (let flags = judged_flags base.generation fails tries in (refl, flags.0, flags.1, flags.2))

  -- The rejection that a repair is to examine is the oldest failure above the tip: its generation, its
  -- transaction and its message are those of a failed record above the tip, and no failed record above
  -- the tip is older.
  pub classify_oldest :
      (classify genesis_txid (r ∷ rs) deep).1.rejected ≡ true
      → let p = (classify genesis_txid (r ∷ rs) deep).1 in
        (t : Tip) × (last_or none fails ≡ some t)
        × (p.rejected_at ≡ t.generation)
        × (p.rejection_txid ≡ t.txid)
        × (p.rejection_err ≡ t.err)
        × All (λ (u : Tip). t.generation ≤ u.generation) fails
  classify_oldest h = rw classify-judged (
      judged_oldest base.generation fails tries
        (IsDesc-filter (λ (t : Tip). t.generation)
          (λ t. if leb t.generation base.generation then false else is_failed t.status) (r ∷ rs)
          ordered)
        (rw classify-judged at h))

abbrev claim_of : Tip → Claim
claim_of b = record { gen = b.generation; txid = b.txid }

judge_deep_flags :
    (n : ℕ) (b : Tip) (f a : Option Tip)
    → ((judge_deep n b f a).rejected ≡ false)
      × (((judge_deep n b f a).halted ≡ true) ↔ ((f ≢ none) ⊎ (a ≢ none)))
      × (((judge_deep n b f a).unknown ≡ true) ↔ ((f ≡ none) × (a ≢ none)))
unfolding judge_deep
judge_deep_flags n b none none = ground arith
judge_deep_flags n b none (some a) = ground arith
judge_deep_flags n b (some f) none = ground arith
judge_deep_flags n b (some f) (some a) = ground arith

-- When no record of a cell's window is settled: if the dig finds no settled record either the cell is
-- halted on no claim; if it does, the cell claims that record, and it is halted exactly if the dig finds
-- a failure or an attempt above it. No repair of a rejection is ever offered, and the recovery of an
-- unknown tip only where an attempt and no failure stands above the tip.
pub classify_deep :
    (genesis_txid : String) (r : Tip) (rs : List Tip) (deep : DeepTip)
    → newest_settled (r ∷ rs) ≡ none
    → let p = (classify genesis_txid (r ∷ rs) deep).1 in
      let c = (classify genesis_txid (r ∷ rs) deep).0 in
      (p.rejected ≡ false)
      × (deep.settled ≡ none → (p.halted ≡ true) × (p.unknown ≡ false) × (c.txid ≡ ""))
      × ((b : Tip)
          → deep.settled ≡ some b
          → (c ≡ record { gen = b.generation; txid = b.txid })
            × ((p.halted ≡ true) ↔ ((deep.failure ≢ none) ⊎ (deep.attempt ≢ none)))
            × ((p.unknown ≡ true) ↔ ((deep.failure ≡ none) × (deep.attempt ≢ none))))
unfolding classify judge dig judge_deep
classify_deep genesis_txid r rs deep e = elim (Option-cases deep.settled) [
  | inl no_base ↦ rw (e, no_base) (refl, λ _. (refl, refl, refl), λ b h. cc)
  | inr (b, base) ↦
      let flags = judge_deep_flags (length (r ∷ rs)) b deep.failure deep.attempt in
      rw (e, base)
        (flags.0, λ h. cc, λ b' h. (ap claim_of (some-injective b b' h), flags.1, flags.2))
]
