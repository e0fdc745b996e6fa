-- ===== src/Chain/Sentinel.antt =====
-- internal/chain/recover.go: the recorded sentinel that nothing was signed.
use rule_110_arcade.Base.{
  ℕ, ◌≡◌, ◌<◌, ◌↔◌, refl, arith, true, not, [], ◌∷◌, ◌++◌, String, ◌==◌, leb, is_empty, str_eq_iff,
  both, if_known, not-false, leb-false→lt, leb→le, ==_iff,
}
use rule_110_arcade.Chain.{CellChain, Bytes}
use rule_110_arcade.Chain.Recover.{Recovery, resume}
use rule_110_arcade.Chain.Refusal.{
  has_prefix, not_broadcast_prefix, is_not_broadcast, recover_not_broadcast,
}
use rule_110_arcade.Chain.Evidence.{stopped}

has_prefix-rest : (s p : Bytes) → has_prefix s p ≡ true → (rest : Bytes) × (s ≡ p ++ rest)
unfolding has_prefix
has_prefix-rest s [] e = (s, refl)
has_prefix-rest [] (b ∷ p) e = cc e
has_prefix-rest (a ∷ s) (b ∷ p) e =
    let (same, more) = both (a == b) (has_prefix s p) e in
    let (rest, q) = has_prefix-rest s p more in (rest, rw ((==_iff a b).0 same, q) refl)

-- A failure is taken back exactly if it stands above the tip, its recorded text is the sentinel and then
-- any cause, and the record names no transaction; the verdict is then to resume at the tip.
pub recover_not_broadcast_lem :
    (tip : CellChain) (failed : ℕ) (txid : String) (recorded : Bytes)
    → (recover_not_broadcast tip failed txid recorded ≡ resume tip) ↔ (
        (tip.generation < failed)
        × ((cause : Bytes) × (recorded ≡ not_broadcast_prefix ++ cause))
        × (txid ≡ ""))
unfolding recover_not_broadcast is_not_broadcast
recover_not_broadcast_lem tip failed txid recorded =
    let P = λ (r : Recovery).
      (r ≡ resume tip)
      → (tip.generation < failed)
        × ((cause : Bytes) × (recorded ≡ not_broadcast_prefix ++ cause))
        × (txid ≡ "") in
    (
      if_known P (leb failed tip.generation) _ _ (λ h. stopped tip)
          λ h.
            if_known P (not (is_not_broadcast recorded)) _ _ (λ g. stopped tip)
              λ g.
                if_known P (not (is_empty txid)) _ _ (λ n. stopped tip)
                  λ n v. (
                    leb-false→lt failed tip.generation h,
                    has_prefix-rest recorded not_broadcast_prefix (not-false _ g),
                    (str_eq_iff txid "").0 (not-false _ n),
                  ),
      λ (h, (cause, s), n).
          rw (s, n)
            (if_known (λ (r : Recovery). r ≡ resume tip) (leb failed tip.generation) _ _
              (λ low. absurd (omega (arith, leb→le failed tip.generation low))) (λ high. refl)),
    )
