-- ===== src/Base/Sort.antt =====
-- The orders in which a query returns its rows: a stable sort by a number, either way.
use mathlib.Core.List.{Memᴰ}
use mathlib.Core.List.Memᴰ
use rule_110_arcade.Base.{
  ℕ, zero, suc, ◌≤◌, ◌≡◌, refl, ◌∙◌, arith, Bool, true, List, [], ◌∷◌, leb, leb→le, filter, take,
  map, All, if◌then◌else◌, Bool-cases, inl, inr, ◌⊎◌, if_known,
}

module _ {ℓ} {A : Type ℓ} (key : A → ℕ) where
  -- ORDER BY key DESC
  pub insert_desc : A → List A → List A
  insert_desc x [] = x ∷ []
  insert_desc x (y ∷ ys) =
      let rest = insert_desc x ys in if leb (key y) (key x) then x ∷ y ∷ ys else y ∷ rest

  unfoldable pub sort_desc : List A → List A
  unfolding insert_desc
  sort_desc [] = []
  sort_desc (x ∷ xs) = insert_desc x (sort_desc xs)

  -- ORDER BY key
  pub insert_asc : A → List A → List A
  insert_asc x [] = x ∷ []
  insert_asc x (y ∷ ys) =
      let rest = insert_asc x ys in if leb (key x) (key y) then x ∷ y ∷ ys else y ∷ rest

  unfoldable pub sort_asc : List A → List A
  unfolding insert_asc
  sort_asc [] = []
  sort_asc (x ∷ xs) = insert_asc x (sort_asc xs)

  -- Every key falls or stays along the list.
  abbrev pub IsDesc : List A → Type 0
  IsDesc [] = Unit {0}
  IsDesc (x ∷ xs) = All (λ y. key y ≤ key x) xs × IsDesc xs

  All-below :
      (x y : A) (xs : List A)
      → key x ≤ key y
      → All (λ z. key z ≤ key x) xs
      → All (λ z. key z ≤ key y) xs
  All-below x y [] e h = tt
  All-below x y (z ∷ zs) e h = (omega arith, All-below x y zs e h.1)

  All-insert_desc :
      (P : A → Type 0) (x : A) (xs : List A) → P x → All P xs → All P (insert_desc x xs)
  unfolding insert_desc
  All-insert_desc P x [] p h = (p, tt)
  All-insert_desc P x (y ∷ ys) p h = elim (Bool-cases (leb (key y) (key x))) [
    | inl e ↦ rw e (p, h)
    | inr e ↦ rw e (h.0, All-insert_desc P x ys p h.1)
  ]

  insert_desc-IsDesc : (x : A) (xs : List A) → IsDesc xs → IsDesc (insert_desc x xs)
  unfolding insert_desc
  insert_desc-IsDesc x [] h = (tt, tt)
  insert_desc-IsDesc x (y ∷ ys) h = elim (Bool-cases (leb (key y) (key x))) [
    | inl e ↦ rw e ((leb→le _ _ e, All-below y x ys (leb→le _ _ e) h.0), h)
    | inr e ↦
        rw e (
          All-insert_desc (λ z. key z ≤ key y) x ys (ground arith) h.0,
          insert_desc-IsDesc x ys h.1,
        )
  ]

  pub sort_desc-IsDesc : (xs : List A) → IsDesc (sort_desc xs)
  unfolding sort_desc
  sort_desc-IsDesc [] = tt
  sort_desc-IsDesc (x ∷ xs) = insert_desc-IsDesc x (sort_desc xs) (sort_desc-IsDesc xs)

  insert_below : (x : A) (xs : List A) → All (λ y. key y ≤ key x) xs → insert_desc x xs ≡ x ∷ xs
  unfolding insert_desc
  insert_below x [] h = refl
  insert_below x (y ∷ ys) h = ground (arith, h.0)

  All-filter : (P : A → Type 0) (q : A → Bool) (xs : List A) → All P xs → All P (filter q xs)
  All-filter P q [] h = tt
  All-filter P q (x ∷ xs) h = elim (Bool-cases (q x)) [
    | inl e ↦ rw e (h.0, All-filter P q xs h.1)
    | inr e ↦ rw e (All-filter P q xs h.1)
  ]

  pub IsDesc-filter : (q : A → Bool) (xs : List A) → IsDesc xs → IsDesc (filter q xs)
  IsDesc-filter q [] h = tt
  IsDesc-filter q (x ∷ xs) h = elim (Bool-cases (q x)) [
    | inl e ↦ rw e (All-filter (λ z. key z ≤ key x) q xs h.0, IsDesc-filter q xs h.1)
    | inr e ↦ rw e (IsDesc-filter q xs h.1)
  ]

  filter-insert_desc :
      (q : A → Bool) (x : A) (xs : List A)
      → IsDesc xs
      → filter q (insert_desc x xs) ≡ (if q x then insert_desc x (filter q xs) else filter q xs)
  unfolding insert_desc
  filter-insert_desc q x [] h = refl
  filter-insert_desc q x (y ∷ ys) h = elim (Bool-cases (leb (key y) (key x))) [
    | inl e ↦ ground (
      arith,
      insert_below x (filter q (y ∷ ys)) (
          All-filter (λ z. key z ≤ key x) q (y ∷ ys)
            (leb→le _ _ e, All-below y x ys (leb→le _ _ e) h.0)),
    )
    | inr e ↦ ground (arith, filter-insert_desc q x ys h.1)
  ]

  -- A query's condition may be tested before or after the rows are ordered.
  pub filter-sort_desc :
      (q : A → Bool) (xs : List A) → filter q (sort_desc xs) ≡ sort_desc (filter q xs)
  unfolding sort_desc
  filter-sort_desc q [] = refl
  filter-sort_desc q (x ∷ xs) =
      filter-insert_desc q x (sort_desc xs) (sort_desc-IsDesc xs)
      ∙ ground (arith, filter-sort_desc q xs)

module _ {ℓ κ} {A : Type ℓ} {B : Type κ} (f : A → B) (key : A → ℕ) (key' : B → ℕ) where
  All-map :
      (n : ℕ) (xs : List A)
      → ((x : A) → key' (f x) ≡ key x)
      → All (λ y. key y ≤ n) xs
      → All (λ y. key' y ≤ n) (map f xs)
  All-map n [] e h = tt
  All-map n (x ∷ xs) e h = (rw (e x) h.0, All-map n xs e h.1)

  pub IsDesc-map :
      (xs : List A) → ((x : A) → key' (f x) ≡ key x) → IsDesc key xs → IsDesc key' (map f xs)
  IsDesc-map [] e h = tt
  IsDesc-map (x ∷ xs) e h = (rw (e x) (All-map (key x) xs e h.0), IsDesc-map xs e h.1)

module _ {ℓ} {A : Type ℓ} (key : A → ℕ) where
  All-take : (m n : ℕ) (xs : List A) → All (λ y. key y ≤ m) xs → All (λ y. key y ≤ m) (take n xs)
  All-take m zero xs h = tt
  All-take m (suc n) [] h = tt
  All-take m (suc n) (x ∷ xs) h = (h.0, All-take m n xs h.1)

  pub IsDesc-take : (n : ℕ) (xs : List A) → IsDesc key xs → IsDesc key (take n xs)
  IsDesc-take zero xs h = tt
  IsDesc-take (suc n) [] h = tt
  IsDesc-take (suc n) (x ∷ xs) h = (All-take (key x) n xs h.0, IsDesc-take n xs h.1)

-- What holds of the sorted list, of the image and of the selection holds of the rows.
module _ {ℓ} {A : Type ℓ} (P : A → Type 0) where
  All-unsort_desc :
      (key : A → ℕ) (x : A) (xs : List A) → All P (insert_desc key x xs) → P x × All P xs
  unfolding insert_desc
  All-unsort_desc key x [] h = (h.0, tt)
  All-unsort_desc key x (y ∷ ys) h = elim (Bool-cases (leb (key y) (key x))) [
    | inl e ↦ rw e at h
    | inr e ↦
        let (q, rest) = (rw e at h) in
        let (p, tail) = All-unsort_desc key x ys rest in (p, (q, tail))
  ]

  pub All-unsort : (key : A → ℕ) (xs : List A) → All P (sort_desc key xs) → All P xs
  unfolding sort_desc
  All-unsort key [] h = tt
  All-unsort key (x ∷ xs) h =
      let (p, rest) = All-unsort_desc key x (sort_desc key xs) h in (p, All-unsort key xs rest)

  pub All-unmap : {B : Type 0} (f : B → A) (xs : List B) → All P (map f xs) → All (λ x. P (f x)) xs
  All-unmap f [] h = tt
  All-unmap f (x ∷ xs) h = (h.0, All-unmap f xs h.1)

  pub All-unfilter :
      (q : A → Bool) (xs : List A) → All P (filter q xs) → All (λ x. q x ≡ true → P x) xs
  All-unfilter q [] h = tt
  All-unfilter q (x ∷ xs) h = elim (Bool-cases (q x)) [
    | inl e ↦ let (p, rest) = (rw e at h) in (λ _. p, All-unfilter q xs rest)
    | inr e ↦ (λ f. cc (e, f), All-unfilter q xs (rw e at h))
  ]

module _ {ℓ} {A : Type ℓ} (key : A → ℕ) where
  Memᴰ-insert_asc : (a x : A) (xs : List A) → Memᴰ a (insert_asc key x xs) → (a ≡ x) ⊎ Memᴰ a xs
  unfolding insert_asc
  Memᴰ-insert_asc a x [] = λ m. Memᴰ.cases_cons m
  Memᴰ-insert_asc a x (y ∷ ys) =
      if_known (λ zs. Memᴰ a zs → (a ≡ x) ⊎ Memᴰ a (y ∷ ys)) (leb (key x) (key y)) (x ∷ y ∷ ys)
        (y ∷ insert_asc key x ys) (λ _ m. Memᴰ.cases_cons m)
        (λ _ m. elim (Memᴰ.cases_cons m) [
          | inl e ↦ inr (Memᴰ.head e)
          | inr n ↦ elim (Memᴰ-insert_asc a x ys n) [ inl e ↦ inl e | inr k ↦ inr (Memᴰ.tail k) ]
        ])

  -- A sort adds nothing.
  pub Memᴰ-sort_asc : (a : A) (xs : List A) → Memᴰ a (sort_asc key xs) → Memᴰ a xs
  unfolding sort_asc
  Memᴰ-sort_asc a [] m = m
  Memᴰ-sort_asc a (x ∷ xs) m = elim (Memᴰ-insert_asc a x (sort_asc key xs) m) [
    | inl e ↦ Memᴰ.head e
    | inr n ↦ Memᴰ.tail (Memᴰ-sort_asc a xs n)
  ]
