-- ===== src/History/Loaded.antt =====
-- internal/history/history.go: what Load returns are rows of the tables.
use mathlib.Core.List.{Memᴰ}
use mathlib.Core.List.Memᴰ
use rule_110_arcade.Base.{
  ℕ, zero, suc, ◌≡◌, refl, Bool, true, List, [], ◌∷◌, leb, ◌==◌, ==_iff, filter, take, if_known,
  head?, inl, inr, ap, ◌∙◌,
}
use mathlib.Core.Path.{subst}
use mathlib.Core.Option.{some-injective}
use rule_110_arcade.Base.Sort.{sort_asc, Memᴰ-sort_asc}
use rule_110_arcade.History.{CellTx, Generation, Store}
use rule_110_arcade.History.Load.{Loaded, window, in_order, between, attach, load_window, load}

Memᴰ-filter :
    {A : Type 0} (q : A → Bool) (a : A) (xs : List A)
    → Memᴰ a (filter q xs)
    → Memᴰ a xs × (q a ≡ true)
Memᴰ-filter q a [] = λ m. elim m [ ]
Memᴰ-filter {A = A} q a (x ∷ xs) =
    if_known (λ (ys : List A). Memᴰ a ys → Memᴰ a (x ∷ xs) × (q a ≡ true)) (q x) (x ∷ filter q xs)
      (filter q xs)
      (λ good m. elim (Memᴰ.cases_cons m) [
        | inl e ↦ (Memᴰ.head e, ap q e ∙ good)
        | inr n ↦ let (k, h) = Memᴰ-filter q a xs n in (Memᴰ.tail k, h)
      ])
      (λ bad m. let (k, h) = Memᴰ-filter q a xs m in (Memᴰ.tail k, h))

Memᴰ-take : {A : Type 0} (n : ℕ) (a : A) (xs : List A) → Memᴰ a (take n xs) → Memᴰ a xs
Memᴰ-take zero a xs m = elim m [ ]
Memᴰ-take (suc n) a [] m = elim m [ ]
Memᴰ-take (suc n) a (x ∷ xs) m = elim (Memᴰ.cases_cons m) [
  | inl e ↦ Memᴰ.head e
  | inr k ↦ Memᴰ.tail (Memᴰ-take n a xs k)
]

-- The generation is a row of its table, and its transactions are rows of theirs for it.
pub record IsLoaded (s : Store) (x : Loaded) : Type 0 where
  pub row : Generation
  pub held : Memᴰ row s.generations
  pub number : x.number ≡ row.number
  pub row_hex : x.row_hex ≡ row.row_hex
  pub own : (t : CellTx) → Memᴰ t x.txs → Memᴰ t s.cell_txs × (t.generation ≡ row.number)

Memᴰ-in_order : (t : CellTx) (txs : List CellTx) → Memᴰ t (in_order txs) → Memᴰ t txs
unfolding in_order
Memᴰ-in_order t txs m =
    Memᴰ-sort_asc (λ (u : CellTx). u.cell) t txs
      (Memᴰ-sort_asc (λ (u : CellTx). u.generation) t (sort_asc (λ (u : CellTx). u.cell) txs) m)

Memᴰ-window :
    (s : Store) (from limit : ℕ) (g : Generation)
    → Memᴰ g (window s from limit)
    → Memᴰ g s.generations
unfolding window
Memᴰ-window s from limit g m =
    (Memᴰ-filter (λ (h : Generation). leb from h.number) g s.generations
      (Memᴰ-sort_asc (λ (h : Generation). h.number) g _ (Memᴰ-take limit g _ m))).0

load_window-IsLoaded :
    (s : Store) (gens : List Generation)
    → ((g : Generation) → Memᴰ g gens → Memᴰ g s.generations)
    → (x : Loaded) (rest : List Loaded) → load_window s gens ≡ x ∷ rest
    → IsLoaded s x
unfolding load_window attach between
load_window-IsLoaded s [] f x rest e = absurd (cc e)
load_window-IsLoaded s (g ∷ gens) f x rest e =
    subst (IsLoaded s) (some-injective _ x (ap head? e)) (record {
      row = g;
      held = f g (Memᴰ.head refl);
      number = refl;
      row_hex = refl;
      own = λ t m.
          let (k, own) = Memᴰ-filter (λ (u : CellTx). u.generation == g.number) t _ m in
          (
            (Memᴰ-filter _ t s.cell_txs (Memᴰ-in_order t _ k)).0,
            (==_iff t.generation g.number).0 own,
          );
    })

-- The first generation that Load returns.
pub load-IsLoaded :
    (s : Store) (from limit : ℕ) (x : Loaded) (rest : List Loaded)
    → load s from limit ≡ x ∷ rest
    → IsLoaded s x
unfolding load
load-IsLoaded s from limit x rest e =
    load_window-IsLoaded s (window s from limit) (Memᴰ-window s from limit) x rest e
