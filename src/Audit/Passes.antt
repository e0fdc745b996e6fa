-- ===== src/Audit/Passes.antt =====
-- internal/audit/audit.go: the steps of an audit that pass, with one rule for each way to build a step.
use rule_110_arcade.Base.{
  ℕ, ◌<◌, ◌≡◌, refl, sym, ap, ◌∙◌, arith, Bool, true, false, Option, none, some, [], ◌∷◌, String,
  length, str_eq_iff,
}
use mathlib.Core.Path.{subst}
use mathlib.Core.Option.{some-injective}
use rule_110_arcade.Chain.{Bytes, Tx}
use rule_110_arcade.Audit.Evidence.{IsClean, IsTxOf}
use rule_110_arcade.Audit.{
  Check, Auditor, Step, pure, lift, or_else, ensure, proceed, ◌>>=◌, pass, pass_in,
}
use rule_110_arcade.Audit.Fetch.{
  World, Fetched, got, lookup_tx, matching_tx, proved_tx, keep_fetched, store_tx, fetch_uncached,
  fetch_from, fetch, report, fetched,
}
use rule_110_arcade.Audit.Proves.{IsKeeping}
use rule_110_arcade.Audit.Genuine.{lookup_tx-IsTxOf}

-- The source offers one transaction for an id.
IsTxOf-unique : (v : World) (id : String) (a b : Tx) → IsTxOf v id a → IsTxOf v id b → a ≡ b
IsTxOf-unique v id a b p q =
    let same = some-injective p.raw q.raw (sym p.held ∙ q.held) in
    some-injective a b (sym p.parsed ∙ ap v.sdk.parse same ∙ q.parsed)

module _ (v : World) where
  -- The step goes on with `x`, and does not spoil a clean report.
  abbrev pub GoesOn : {A : Type 0} → A → Auditor → Option (Option A × Auditor) → Type 0
  GoesOn x a none = ⊥
  GoesOn x a (some (none, b)) = ⊥
  GoesOn x a (some (some y, b)) = (y ≡ x) × IsKeeping v b × (IsClean a.rep → IsClean b.rep)

  pub record Passes {A : Type 0} (m : Step A) (x : A) : Type 0 where
    pub at : (a : Auditor) → IsKeeping v a → GoesOn x a (m a)

  pub Passes-pure : {A : Type 0} (x : A) → Passes (pure x) x
  unfolding pure
  Passes-pure x = record { at = λ a k. (refl, k, λ c. c) }

  pub Passes-lift : {A : Type 0} (o : Option A) (x : A) → o ≡ some x → Passes (lift o) x
  unfolding lift
  Passes-lift none x e = cc
  Passes-lift (some y) x e = record { at = λ a k. (some-injective y x e, k, λ c. c) }

  pub Passes-or_else :
      {A : Type 0} (o : Option A) (other : Step A) (x : A) → o ≡ some x → Passes (or_else o other) x
  unfolding or_else pure
  Passes-or_else none other x e = cc
  Passes-or_else (some y) other x e = record { at = λ a k. (some-injective y x e, k, λ c. c) }

  pub Passes-ensure : (b : Bool) (other : Step (Unit {0})) → b ≡ true → Passes (ensure b other) tt
  unfolding ensure pure
  Passes-ensure true other e = record { at = λ a k. (refl, k, λ c. c) }
  Passes-ensure false other e = cc

  pub Passes-pass : (check : Check) → Passes (pass check) tt
  unfolding pass pass_in
  Passes-pass check = record { at = λ a k. (refl, k, λ c. c) }

  GoesOn-later :
      {A : Type 0} (x : A) (a b : Auditor) (o : Option (Option A × Auditor))
      → (IsClean a.rep → IsClean b.rep)
      → GoesOn x b o
      → GoesOn x a o
  GoesOn-later x a b none f h = h
  GoesOn-later x a b (some (none, c)) f h = h
  GoesOn-later x a b (some (some y, c)) f (e, k, g) = (e, k, λ q. g (f q))

  GoesOn-proceed :
      {A B : Type 0} (x : A) (y : B) (a : Auditor) (o : Option (Option A × Auditor))
      (f : A → Step B)
      → GoesOn x a o
      → Passes (f x) y
      → GoesOn y a (proceed o f)
  GoesOn-proceed x y a none f h p = elim h [ ]
  GoesOn-proceed x y a (some (none, b)) f h p = elim h [ ]
  GoesOn-proceed x y a (some (some z, b)) f (e, k, g) p =
      GoesOn-later y a b (f z b) g (subst (λ t. GoesOn y b (f t b)) (sym e) (p.at b k))

  pub Passes-bind :
      {A B : Type 0} {x : A} {y : B} {m : Step A} (f : A → Step B)
      → Passes m x
      → Passes (f x) y
      → Passes (m >>= f) y
  unfolding ◌>>=◌
  Passes-bind {x = x} {y = y} {m = m} f pm pf = record {
    at = λ a k. GoesOn-proceed x y a (m a) f (pm.at a k) pf;
  }

  -- A fetch of a transaction that the source has.
  abbrev Got : Tx → Auditor → Fetched × Auditor → Type 0
  Got tx a (f, b) = (f ≡ got tx) × IsKeeping v b × (b.rep ≡ a.rep)

  proved_tx-got : (id : String) (tx : Tx) → IsTxOf v id tx → proved_tx v id (v.raw_tx id) ≡ got tx
  unfolding proved_tx matching_tx
  proved_tx-got id tx h = rw (h.held) (offered h.raw h.nonempty h.parsed)
    where
      offered :
          (raw : Bytes)
          → 0 < length raw
          → v.sdk.parse raw ≡ some tx
          → proved_tx v id (some raw) ≡ got tx
      offered [] l e = absurd (omega (arith, l))
      offered (b ∷ raw) l e = rw (e, (str_eq_iff (v.sdk.tx_id tx) id).1 h.own) refl

  keep_fetched-Got :
      (id : String) (tx : Tx) (f : Fetched) (a : Auditor)
      → IsTxOf v id tx
      → f ≡ got tx
      → IsKeeping v a
      → Got tx a (keep_fetched id f a)
  unfolding keep_fetched store_tx
  keep_fetched-Got id tx f a h e k = rw (e) (refl, ((h, k.0), k.1), refl)

  fetch_uncached-Got :
      (id : String) (tx : Tx) (o : Option Tx) (a : Auditor)
      → IsTxOf v id tx
      → lookup_tx id a.prev ≡ o
      → IsKeeping v a
      → Got tx a (fetch_uncached v id o a)
  unfolding fetch_uncached
  fetch_uncached-Got id tx (some t) a h e k =
      keep_fetched-Got id tx (got t) a h
        (ap got (IsTxOf-unique v id t tx (lookup_tx-IsTxOf v id a.prev t k.1 e) h)) k
  fetch_uncached-Got id tx none a h e k =
      keep_fetched-Got id tx (proved_tx v id (v.raw_tx id)) a h (proved_tx-got id tx h) k

  fetch_from-Got :
      (id : String) (tx : Tx) (o : Option Tx) (a : Auditor)
      → IsTxOf v id tx
      → lookup_tx id a.txs ≡ o
      → IsKeeping v a
      → Got tx a (fetch_from v id o a)
  unfolding fetch_from
  fetch_from-Got id tx (some t) a h e k =
      (ap got (IsTxOf-unique v id t tx (lookup_tx-IsTxOf v id a.txs t k.0 e) h), k, refl)
  fetch_from-Got id tx none a h e k = fetch_uncached-Got id tx (lookup_tx id a.prev) a h refl k

  report-GoesOn :
      (g cell : ℕ) (check : Check) (tx : Tx) (a : Auditor) (w : Fetched × Auditor)
      → Got tx a w
      → GoesOn tx a (report g cell check w.0 w.1)
  unfolding report pure
  report-GoesOn g cell check tx a (f, b) (e, k, r) =
      subst (λ (f' : Fetched). GoesOn tx a (report g cell check f' b)) (sym e)
        (refl, k, λ c. subst IsClean (sym r) c)

  pub Passes-fetched :
      (g cell : ℕ) (check : Check) (id : String) (tx : Tx)
      → IsTxOf v id tx
      → Passes (fetched v g cell check id) tx
  unfolding fetched fetch
  Passes-fetched g cell check id tx h = record {
    at = λ a k.
        report-GoesOn g cell check tx a (fetch v id a)
          (fetch_from-Got id tx (lookup_tx id a.txs) a h refl k);
  }
