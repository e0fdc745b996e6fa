-- ===== src/Audit/Proves.antt =====
-- internal/audit/audit.go: what a step of the audit proves when it does not return early, with one
-- rule for each way to build a step.
use rule_110_arcade.Base.{
  ℕ, ◌≡◌, refl, Bool, true, false, Option, none, some, List, [], ◌∷◌, ◌++◌, String, All,
}
use rule_110_arcade.Chain.{Tx}
use rule_110_arcade.Audit.Evidence.{IsClean, IsTxOf}
use rule_110_arcade.Audit.{
  Check, Reason, Auditor, Step, pure, lift, or_else, ensure, proceed, ◌>>=◌, pass, pass_in, fail,
  gap, add_failure, add_gap,
}
use rule_110_arcade.Audit.Fetch.{World}

module _ (v : World) where
  abbrev pub AreKept : List (String × Tx) → Type 0
  AreKept txs = All (λ (e : String × Tx). IsTxOf v e.0 e.1) txs

  -- The caches hold what the source gives.
  abbrev pub IsKeeping : Auditor → Type 0
  IsKeeping a = AreKept a.txs × AreKept a.prev

  -- A step that returned has reported something; one that went on has not cleared the report.
  abbrev pub Returned : {A : Type 0} → (A → Type 0) → Auditor → Option A → Auditor → Type 0
  Returned Q a none b = ¬ IsClean b.rep
  Returned Q a (some x) b = Q x × (IsClean b.rep → IsClean a.rep)

  abbrev pub EndsWith : {A : Type 0} → (A → Type 0) → Auditor → Option (Option A × Auditor) → Type 0
  EndsWith Q a none = Unit {0}
  EndsWith Q a (some (r, b)) = IsKeeping b × Returned Q a r b

  pub record Proves {A : Type 0} (m : Step A) (Q : A → Type 0) : Type 0 where
    pub at : (a : Auditor) → IsKeeping a → EndsWith Q a (m a)

  pub snoc-nil : {A : Type 0} (xs : List A) (x : A) → ¬ ((xs ++ (x ∷ [])) ≡ [])
  snoc-nil [] x e = cc e
  snoc-nil (y ∷ xs) x e = cc e

  pub Proves-pure : {A : Type 0} (Q : A → Type 0) (x : A) → Q x → Proves (pure x) Q
  unfolding pure
  Proves-pure Q x q = record { at = λ a k. (k, (q, λ c. c)) }

  pub Proves-lift : {A : Type 0} (o : Option A) → Proves (lift o) (λ x. o ≡ some x)
  unfolding lift
  Proves-lift none = record { at = λ a k. tt }
  Proves-lift (some x) = record { at = λ a k. (k, (refl, λ c. c)) }

  pub Proves-fail :
      {A : Type 0} (Q : A → Type 0) (g : ℕ) (cell : Option ℕ) (check : Check)
      → Proves (fail g cell check) Q
  unfolding fail add_failure
  Proves-fail Q g cell check = record {
    at = λ a k. (
      k,
      λ c. snoc-nil a.rep.failures (record { generation = g; cell = cell; check = check }) c.0,
    );
  }

  pub Proves-gap :
      {A : Type 0} (Q : A → Type 0) (g : ℕ) (cell : Option ℕ) (reason : Reason)
      → Proves (gap g cell reason) Q
  unfolding gap add_gap
  Proves-gap Q g cell reason = record {
    at = λ a k.
        (k, λ c. snoc-nil a.rep.gaps (record { generation = g; cell = cell; reason = reason }) c.1);
  }

  pub Proves-pass : (check : Check) → Proves (pass check) (λ _. Unit {0})
  unfolding pass pass_in
  Proves-pass check = record { at = λ a k. (k, (tt, λ c. c)) }

  -- A value or a failure, and a value or a gap.
  pub Proves-or_else :
      {A : Type 0} (o : Option A) (other : Step A)
      → ((Q : A → Type 0) → Proves other Q)
      → Proves (or_else o other) (λ x. o ≡ some x)
  unfolding or_else pure
  Proves-or_else none other p = p (λ x. none ≡ some x)
  Proves-or_else (some x) other p = record { at = λ a k. (k, (refl, λ c. c)) }

  pub Proves-ensure :
      (b : Bool) (other : Step (Unit {0}))
      → ((Q : Unit {0} → Type 0) → Proves other Q)
      → Proves (ensure b other) (λ _. b ≡ true)
  unfolding ensure pure
  Proves-ensure true other p = record { at = λ a k. (k, (refl, λ c. c)) }
  Proves-ensure false other p = p (λ _. false ≡ true)

  EndsWith-later :
      {A : Type 0} (Q : A → Type 0) (a b : Auditor) (o : Option (Option A × Auditor))
      → (IsClean b.rep → IsClean a.rep)
      → EndsWith Q b o
      → EndsWith Q a o
  EndsWith-later Q a b none back e = tt
  EndsWith-later Q a b (some (none, c)) back e = e
  EndsWith-later Q a b (some (some x, c)) back (k, (q, m)) = (k, (q, λ h. back (m h)))

  EndsWith-proceed :
      {A B : Type 0} (P : A → Type 0) (Q : B → Type 0) (a : Auditor)
      (o : Option (Option A × Auditor)) (f : A → Step B)
      → EndsWith P a o
      → ((x : A) → P x → Proves (f x) Q)
      → EndsWith Q a (proceed o f)
  EndsWith-proceed P Q a none f e p = tt
  EndsWith-proceed P Q a (some (none, b)) f e p = e
  EndsWith-proceed P Q a (some (some x, b)) f (k, (h, back)) p =
      EndsWith-later Q a b (f x b) back ((p x h).at b k)

  pub Proves-bind :
      {A B : Type 0} {P : A → Type 0} {Q : B → Type 0} {m : Step A} {f : A → Step B}
      → Proves m P
      → ((x : A) → P x → Proves (f x) Q)
      → Proves (m >>= f) Q
  unfolding ◌>>=◌
  Proves-bind {P} {Q} {m} {f} pm pf = record {
    at = λ a k. EndsWith-proceed P Q a (m a) f (pm.at a k) pf;
  }

  EndsWith-weaken :
      {A : Type 0} (P Q : A → Type 0) (a : Auditor) (o : Option (Option A × Auditor))
      → ((x : A) → P x → Q x)
      → EndsWith P a o
      → EndsWith Q a o
  EndsWith-weaken P Q a none w e = tt
  EndsWith-weaken P Q a (some (none, b)) w e = e
  EndsWith-weaken P Q a (some (some x, b)) w (k, (q, back)) = (k, (w x q, back))

  pub Proves-weaken :
      {A : Type 0} {m : Step A} (P Q : A → Type 0) → ((x : A) → P x → Q x) → Proves m P → Proves m Q
  Proves-weaken {m = m} P Q w p = record { at = λ a k. EndsWith-weaken P Q a (m a) w (p.at a k) }

  pub Proves-or_fail :
      {A : Type 0} (o : Option A) (g : ℕ) (cell : Option ℕ) (check : Check)
      → Proves (or_else o (fail g cell check)) (λ x. o ≡ some x)
  Proves-or_fail o g cell check =
      Proves-or_else o (fail g cell check) (λ Q. Proves-fail Q g cell check)

  pub Proves-or_gap :
      {A : Type 0} (o : Option A) (g : ℕ) (cell : Option ℕ) (reason : Reason)
      → Proves (or_else o (gap g cell reason)) (λ x. o ≡ some x)
  Proves-or_gap o g cell reason =
      Proves-or_else o (gap g cell reason) (λ Q. Proves-gap Q g cell reason)

  pub Proves-test :
      (b : Bool) (g : ℕ) (cell : Option ℕ) (check : Check)
      → Proves (ensure b (fail g cell check)) (λ _. b ≡ true)
  Proves-test b g cell check = Proves-ensure b (fail g cell check) (λ Q. Proves-fail Q g cell check)
