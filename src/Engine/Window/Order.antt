-- ===== src/Engine/Window/Order.antt =====
-- internal/engine/worker.go: the window stays ordered and bounded, so that the scan that stops
-- early finds what there is to find.
use rule_110_arcade.Base.{
  ℕ, zero, suc, ◌≤◌, ◌<◌, ◌≡◌, refl, sym, ◌∙◌, arith, Bool, true, false, Option, none, some, List,
  [], ◌∷◌, ltb, ◌==◌, if◌then◌else◌, length, take, All, if_known, option_split, Bool-cases, inl,
  inr, ltb→lt,
}
use rule_110_arcade.Ca.{HexText}
use rule_110_arcade.Engine.Runtime.{Generation}
use rule_110_arcade.Engine.Window.{
  max_history, index_of_generation, pending_cells, sink, ensure_generation,
}

-- Every generation of the list is before `number`.
abbrev pub IsBefore : ℕ → List Generation → Type 0
IsBefore number gens = All (λ (g : Generation). g.number < number) gens

abbrev pub IsDescending : List Generation → Type 0
IsDescending [] = Unit {0}
IsDescending (g ∷ gens) = IsBefore g.number gens × IsDescending gens

-- A search of the whole list.
abbrev pub search_all : List Generation → ℕ → Option Generation
search_all [] number = none
search_all (g ∷ gens) number =
    let rest = search_all gens number in if g.number == number then some g else rest

search_all-IsBefore :
    (gens : List Generation) (number bound : ℕ)
    → bound ≤ number
    → IsBefore bound gens
    → search_all gens number ≡ none
search_all-IsBefore [] number bound h b = refl
search_all-IsBefore (g ∷ gens) number bound h b =
    ground (arith, search_all-IsBefore gens number bound h b.1)

pub index_of_generation-search_all :
    (gens : List Generation) (number : ℕ)
    → IsDescending gens
    → index_of_generation gens number ≡ search_all gens number
unfolding index_of_generation
index_of_generation-search_all [] number h = refl
index_of_generation-search_all (g ∷ gens) number h =
    let rest = index_of_generation-search_all gens number h.1 in
    elim (Bool-cases (ltb g.number number)) [
      | inl e ↦
          let early =
            search_all-IsBefore gens number g.number
              (let lt = ltb→lt g.number number e in omega arith) h.0 in
          ground (arith, early)
      | inr e ↦ ground (arith, rest)
    ]

sink-IsBefore :
    (g : Generation) (gens : List Generation) (number : ℕ)
    → g.number < number
    → IsBefore number gens
    → IsBefore number (sink g gens)
unfolding sink
sink-IsBefore g [] number lt b = (lt, tt)
sink-IsBefore g (h ∷ gens) number lt b =
    if_known (IsBefore number) (ltb g.number h.number) _ _
      (λ e. (b.0, sink-IsBefore g gens number lt b.1)) λ e. (lt, b)

IsBefore-le : (gens : List Generation) (a b : ℕ) → a ≤ b → IsBefore a gens → IsBefore b gens
IsBefore-le [] a b le h = tt
IsBefore-le (g ∷ gens) a b le h = (omega arith, IsBefore-le gens a b le h.1)

search_all-miss :
    (t : Bool) (k : Generation) (rest : Option Generation)
    → (if t then some k else rest) ≡ none
    → (t ≡ false) × (rest ≡ none)
search_all-miss true k rest e = cc e
search_all-miss false k rest e = (refl, e)

sink-IsDescending :
    (g : Generation) (gens : List Generation)
    → search_all gens g.number ≡ none
    → IsDescending gens
    → IsDescending (sink g gens)
unfolding sink
sink-IsDescending g [] n h = (tt, tt)
sink-IsDescending g (k ∷ gens) n h =
    let (ne, more) = search_all-miss (k.number == g.number) k (search_all gens g.number) n in
    if_known IsDescending (ltb g.number k.number) _ _
      (λ e. (
        sink-IsBefore g gens k.number (ltb→lt g.number k.number e) h.0,
        sink-IsDescending g gens more h.1,
      ))
      λ e. ((ground arith, IsBefore-le gens k.number g.number (ground arith) h.0), h)

take-IsBefore :
    (n : ℕ) (gens : List Generation) (number : ℕ)
    → IsBefore number gens
    → IsBefore number (take n gens)
take-IsBefore zero gens number h = tt
take-IsBefore (suc n) [] number h = tt
take-IsBefore (suc n) (g ∷ gens) number h = (h.0, take-IsBefore n gens number h.1)

take-IsDescending :
    (n : ℕ) (gens : List Generation) → IsDescending gens → IsDescending (take n gens)
take-IsDescending zero gens h = tt
take-IsDescending (suc n) [] h = tt
take-IsDescending (suc n) (g ∷ gens) h =
    (take-IsBefore n gens g.number h.0, take-IsDescending n gens h.1)

length-take-le : (n : ℕ) (gens : List Generation) → length (take n gens) ≤ n
length-take-le zero gens = omega arith
length-take-le (suc n) [] = omega arith
length-take-le (suc n) (g ∷ gens) = omega (arith, length-take-le n gens)

-- In order, and as long as `loadHistory` lets a window be: it asks for one row more than the trim
-- leaves.
abbrev pub IsWindow : List Generation → Type 0
IsWindow gens = IsDescending gens × (length gens ≤ suc max_history)

ensure_generation-IsWindow :
    (cells number : ℕ) (row_hex : HexText) (gens : List Generation)
    → IsWindow gens
    → IsWindow (ensure_generation cells number row_hex gens)
unfolding ensure_generation
ensure_generation-IsWindow cells number row_hex gens h =
    let g : Generation = record {
      number = number;
      row_hex = row_hex;
      cells = pending_cells 0 cells;
    } in
    option_split {A = Generation} {B = List Generation} IsWindow (index_of_generation gens number)
      (take max_history (sink g gens)) (λ _. gens)
      (λ missing. (
        take-IsDescending max_history (sink g gens) (
            sink-IsDescending g gens
              (sym (index_of_generation-search_all gens number h.0) ∙ missing) h.0),
        (let bound = length-take-le max_history (sink g gens) in omega arith),
      ))
      λ _ _. h

-- The generations that cells reach, one after the other.
abbrev pub ensure_all : ℕ → List (ℕ × HexText) → List Generation → List Generation
ensure_all cells [] gens = gens
ensure_all cells ((number, row_hex) ∷ rows) gens =
    ensure_all cells rows (ensure_generation cells number row_hex gens)

ensure_all-IsWindow :
    (cells : ℕ) (rows : List (ℕ × HexText)) (gens : List Generation)
    → IsWindow gens
    → IsWindow (ensure_all cells rows gens)
ensure_all-IsWindow cells [] gens h = h
ensure_all-IsWindow cells ((number, row_hex) ∷ rows) gens h =
    ensure_all-IsWindow cells rows _ (ensure_generation-IsWindow cells number row_hex gens h)

-- Whatever generations cells reach, and in whatever order, a window that is ordered and at most one
-- generation over its bound stays so, and the scan from the end that stops early then gives for every
-- number what a search of the whole window gives.
pub ensure_all-index_of_generation :
    (cells : ℕ) (rows : List (ℕ × HexText)) (gens : List Generation) (number : ℕ)
    → IsWindow gens
    → IsWindow (ensure_all cells rows gens)
      × (index_of_generation (ensure_all cells rows gens) number
          ≡ search_all (ensure_all cells rows gens) number)
ensure_all-index_of_generation cells rows gens number h =
    let w = ensure_all-IsWindow cells rows gens h in
    (w, index_of_generation-search_all (ensure_all cells rows gens) number w.0)
