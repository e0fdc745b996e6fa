-- ===== src/Audit/Genuine.antt =====
-- internal/audit/audit.go: a transaction that the audit fetches is the one that was asked for.
use rule_110_arcade.Base.{
  ◌<◌, length, arith, ℕ, ◌≡◌, refl, Option, none, some, List, [], ◌∷◌, String, str_eq, str_eq_iff,
  if_known,
}
use mathlib.Core.Path.{subst}
use mathlib.Core.Option.{some-injective}
use rule_110_arcade.Chain.{Bytes, Tx}
use rule_110_arcade.Audit.Evidence.{IsClean, IsTxOf}
use rule_110_arcade.Audit.{Check, no_bytes, pure, Auditor, fail, gap}
use rule_110_arcade.Audit.Fetch.{
  World, Fetched, got, missing, wrong, lookup_tx, proved_tx, keep_fetched, store_tx, matching_tx,
  fetch_uncached, fetch_from, fetch, report, fetched,
}
use rule_110_arcade.Audit.Proves.{AreKept, IsKeeping, EndsWith, Proves, Proves-fail, Proves-gap}

module _ (v : World) where
  pub lookup_tx-IsTxOf :
      (id : String) (txs : List (String × Tx)) (tx : Tx)
      → AreKept v txs
      → lookup_tx id txs ≡ some tx
      → IsTxOf v id tx
  unfolding lookup_tx
  lookup_tx-IsTxOf id [] tx k = λ e. cc e
  lookup_tx-IsTxOf id ((j, t) ∷ txs) tx (h, k) =
      if_known (λ (o : Option Tx). o ≡ some tx → IsTxOf v id tx) (str_eq j id) (some t)
        (lookup_tx id txs)
        (λ same e.
          subst (λ (x : Tx). IsTxOf v id x) (some-injective t tx e)
            (subst (λ (i : String). IsTxOf v i t) ((str_eq_iff j id).0 same) h))
        (λ other e. lookup_tx-IsTxOf id txs tx k e)

  abbrev Gives : String → Fetched → Type 0
  Gives id (got tx) = IsTxOf v id tx
  Gives id missing = Unit {0}
  Gives id wrong = Unit {0}

  matching_tx-Gives :
      (id : String) (raw : Bytes) (o : Option Tx)
      → 0 < length raw
      → v.raw_tx id ≡ some raw
      → v.sdk.parse raw ≡ o
      → Gives id (matching_tx v id o)
  unfolding matching_tx
  matching_tx-Gives id raw none l e p = tt
  matching_tx-Gives id raw (some tx) l e p =
      if_known (Gives id) (str_eq (v.sdk.tx_id tx) id) (got tx) wrong
        (λ same. record {
          raw = raw;
          nonempty = l;
          held = e;
          parsed = p;
          own = (str_eq_iff (v.sdk.tx_id tx) id).0 same;
        })
        (λ other. tt)

  proved_tx-Gives : (id : String) (o : Option Bytes) → v.raw_tx id ≡ o → Gives id (proved_tx v id o)
  unfolding proved_tx
  proved_tx-Gives id none e = tt
  proved_tx-Gives id (some []) e = tt
  proved_tx-Gives id (some (b ∷ raw)) e =
      matching_tx-Gives id (b ∷ raw) (v.sdk.parse (b ∷ raw)) (omega arith) e refl

  -- A fetch keeps the caches true and leaves the report as it is.
  abbrev IsFetch : String → Auditor → Fetched × Auditor → Type 0
  IsFetch id a (f, b) = Gives id f × IsKeeping v b × (b.rep ≡ a.rep)

  keep_fetched-IsFetch :
      (id : String) (f : Fetched) (a : Auditor)
      → Gives id f
      → IsKeeping v a
      → IsFetch id a (keep_fetched id f a)
  unfolding keep_fetched store_tx
  keep_fetched-IsFetch id (got tx) a g (k, l) = (g, ((g, k), l), refl)
  keep_fetched-IsFetch id missing a g k = (tt, k, refl)
  keep_fetched-IsFetch id wrong a g k = (tt, k, refl)

  fetch_uncached-IsFetch :
      (id : String) (o : Option Tx) (a : Auditor)
      → lookup_tx id a.prev ≡ o
      → IsKeeping v a
      → IsFetch id a (fetch_uncached v id o a)
  unfolding fetch_uncached
  fetch_uncached-IsFetch id (some tx) a e k =
      keep_fetched-IsFetch id (got tx) a (lookup_tx-IsTxOf id a.prev tx k.1 e) k
  fetch_uncached-IsFetch id none a e k =
      keep_fetched-IsFetch id (proved_tx v id (v.raw_tx id)) a
        (proved_tx-Gives id (v.raw_tx id) refl) k

  fetch_from-IsFetch :
      (id : String) (o : Option Tx) (a : Auditor)
      → lookup_tx id a.txs ≡ o
      → IsKeeping v a
      → IsFetch id a (fetch_from v id o a)
  unfolding fetch_from
  fetch_from-IsFetch id (some tx) a e k = (lookup_tx-IsTxOf id a.txs tx k.0 e, k, refl)
  fetch_from-IsFetch id none a e k = fetch_uncached-IsFetch id (lookup_tx id a.prev) a refl k

  report-EndsWith :
      (g cell : ℕ) (check : Check) (id : String) (a : Auditor) (w : Fetched × Auditor)
      → IsFetch id a w
      → EndsWith v (λ tx. IsTxOf v id tx) a (report g cell check w.0 w.1)
  unfolding report gap fail pure
  report-EndsWith g cell check id a (got tx, b) (t, k, e) = (k, (t, subst IsClean e))
  report-EndsWith g cell check id a (missing, b) (t, k, e) =
      (Proves-gap v (λ tx. IsTxOf v id tx) g (some cell) no_bytes).at b k
  report-EndsWith g cell check id a (wrong, b) (t, k, e) =
      (Proves-fail v (λ tx. IsTxOf v id tx) g (some cell) check).at b k

  pub Proves-fetched :
      (g cell : ℕ) (check : Check) (id : String)
      → Proves v (fetched v g cell check id) (λ tx. IsTxOf v id tx)
  unfolding fetched fetch
  Proves-fetched g cell check id = record {
    at = λ a k.
        report-EndsWith g cell check id a (fetch v id a)
          (fetch_from-IsFetch id (lookup_tx id a.txs) a refl k);
  }
