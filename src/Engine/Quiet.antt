-- ===== src/Engine/Quiet.antt =====
-- internal/engine/derive.go and internal/history/history.go: what the records of a cell that derivation
-- does not halt look like.
use rule_110_arcade.Base.{
  ℕ, zero, suc, ◌+◌, ◌≤◌, ◌<◌, ◌≡◌, ◌≢◌, ◌↔◌, ◌⊎◌, refl, sym, ap, ◌∙◌, arith, Bool, true, false,
  Option, none, some, List, [], ◌∷◌, String, ◌||◌, leb→le, leb-false→lt, if◌then◌else◌, filter,
  head?, take, map, length, is_empty, leb, All, get_elem?, All-get_elem?, Bool-cases, Option-cases,
  inl, inr, ==_iff,
}
use mathlib.Core.Option.{some-injective}
use mathlib.Core.Path.{subst}
use rule_110_arcade.Base.Sort.{
  IsDesc, sort_desc-IsDesc, IsDesc-map, All-unsort, All-unmap, All-unfilter,
}
use rule_110_arcade.History.{Status, is_failed, is_attempting, CellTx, Store}
use rule_110_arcade.History.Tips.{
  Tip, tip_of, rows_of, tips_of, tips_of-IsDesc, is_settled_status, newest, above, deep_tip,
}
use rule_110_arcade.Engine.Derive.{Claim, tip_depth, newest_settled, classify}
use rule_110_arcade.Engine.Wreckage.{failures_above, attempts_above}
use rule_110_arcade.Engine.Verdict.{classify_shallow, classify_deep}

lower :
    (a b : ℕ) (ts : List CellTx)
    → a ≤ b
    → All (λ (t : CellTx). t.generation ≤ a) ts
    → All (λ (t : CellTx). t.generation ≤ b) ts
lower a b [] e h = tt
lower a b (t ∷ ts) e h = (omega (arith, h.0), lower a b ts e h.1)

module _ (p : Status → Bool) where
  -- Above `base` no record is of the kind.
  abbrev IsQuiet : ℕ → Tip → Type 0
  IsQuiet base t = base < t.generation → p t.status ≡ false

  below-IsQuiet :
      (base top : ℕ) (rows : List Tip)
      → top ≤ base
      → All (λ (r : Tip). r.generation ≤ top) rows
      → All (IsQuiet base) rows
  below-IsQuiet base top [] e h = tt
  below-IsQuiet base top (r ∷ rs) e h =
      (λ k. absurd (omega (arith, h.0)), below-IsQuiet base top rs e h.1)

  none_left :
      (base : ℕ) (r : Tip) (rest : List Tip)
      → filter (λ r. if leb r.generation base then false else p r.status) (r ∷ rest) ≡ []
      → IsQuiet base r
        × (filter (λ r. if leb r.generation base then false else p r.status) rest ≡ [])
  none_left base r rest e = (λ k. ground arith, ground arith)

  window-IsQuiet :
      (d : ℕ) (rows : List Tip) (b : Tip)
      → IsDesc (λ (t : Tip). t.generation) rows
      → newest_settled (take d rows) ≡ some b
      → filter (λ r. if leb r.generation b.generation then false else p r.status) (take d rows) ≡ []
      → All (IsQuiet b.generation) rows
  unfolding newest_settled
  window-IsQuiet zero rows b o e f = cc
  window-IsQuiet (suc d) [] b o e f = tt
  window-IsQuiet (suc d) (r ∷ rs) b o e f =
      let (quiet, rest) = none_left b.generation r (take d rs) f in
      elim (Bool-cases (is_settled_status r.status)) [
        | inr u ↦ (quiet, window-IsQuiet d rs b o.1 (rw u at e) rest)
        | inl u ↦ elim (Bool-cases (is_empty r.txid)) [
          | inl v ↦ (quiet, window-IsQuiet d rs b o.1 (rw (u, v) at e) rest)
          | inr v ↦
              let same : r ≡ b = some-injective r b (rw (u, v) at e) in
              (
                quiet,
                below-IsQuiet b.generation r.generation rs
                    (omega (arith, ap (λ (x : Tip). x.generation) same)) o.0,
              )
        ]
      ]

  -- With no such record above `base` the newest one, if there is one, is not above it.
  selected-IsQuiet :
      (base : ℕ) (rows : List CellTx)
      → All (λ (t : CellTx). (if p t.status then true else false) ≡ true → t.generation ≤ base) rows
      → All (λ (t : CellTx). base < t.generation → p t.status ≡ false) rows
  selected-IsQuiet base [] h = tt
  selected-IsQuiet base (t ∷ ts) h = (
    λ k. elim (Bool-cases (p t.status)) [
      | inl e ↦ absurd (omega (arith, h.0 (rw e refl)))
      | inr e ↦ e
    ],
    selected-IsQuiet base ts h.1,
  )

  head-bound :
      (b : Tip) (ts : List CellTx)
      → IsDesc (λ (t : CellTx). t.generation) ts
      → above (some b) (head? (map tip_of ts)) ≡ none
      → All (λ (t : CellTx). t.generation ≤ b.generation) ts
  unfolding above tip_of
  head-bound b [] o e = tt
  head-bound b (t ∷ ts) o e =
      let top : t.generation ≤ b.generation = ground arith in
      (top, lower t.generation b.generation ts top o.0)

  newest-IsQuiet :
      (s : Store) (cell : ℕ) (b : Tip)
      → above (some b) (newest s cell false p) ≡ none
      → All (λ (t : CellTx). b.generation < t.generation → p t.status ≡ false) (rows_of s cell)
  unfolding newest
  newest-IsQuiet s cell b e = selected-IsQuiet b.generation (rows_of s cell) (
      All-unfilter _ _ (rows_of s cell) (
        All-unsort _ (λ (t : CellTx). t.generation) _
          (head-bound b _ (sort_desc-IsDesc (λ (t : CellTx). t.generation) _) e)))

  -- The window holds a settled record.
  shallow-IsQuiet :
      (s : Store) (cell d : ℕ) (b : Tip)
      → newest_settled (tips_of s d cell) ≡ some b
      → filter (λ r. if leb r.generation b.generation then false else p r.status) (tips_of s d cell)
        ≡ []
      → All (λ (t : CellTx). b.generation < t.generation → p t.status ≡ false) (rows_of s cell)
  unfolding tips_of tip_of
  shallow-IsQuiet s cell d b e f =
      All-unsort _ (λ (t : CellTx). t.generation) (rows_of s cell)
        (All-unmap (IsQuiet b.generation) tip_of _ (
          window-IsQuiet d _ b
            (IsDesc-map tip_of (λ t. t.generation) (λ t. t.generation) _ (λ x. refl)
              (sort_desc-IsDesc (λ t. t.generation) (rows_of s cell)))
            e f))

void : (Q : CellTx → Type 0) (ts : List CellTx) → All (λ (t : CellTx). ⊥) ts → All Q ts
void Q [] h = tt
void Q (t ∷ ts) h = absurd h.0

empty_window : (d : ℕ) (rows : List Tip) → take (suc d) rows ≡ [] → All (λ (r : Tip). ⊥) rows
empty_window d [] e = tt
empty_window d (r ∷ rs) e = cc e

no_rows :
    (s : Store) (cell d : ℕ) (Q : CellTx → Type 0)
    → tips_of s (suc d) cell ≡ []
    → All Q (rows_of s cell)
unfolding tips_of
no_rows s cell d Q e = void Q (rows_of s cell) (
    All-unsort _ (λ (t : CellTx). t.generation) (rows_of s cell)
      (All-unmap (λ (r : Tip). ⊥) tip_of _ (empty_window d _ e)))

-- What a position that is not halted says of one pile and of the other.
piles_empty :
    {A : Type 0} (fs as' : List A) (halted : Bool)
    → ((halted ≡ true) ↔ (0 < length fs + length as'))
    → halted ≡ false
    → (fs ≡ []) × (as' ≡ [])
piles_empty [] [] halted h e = (refl, refl)
piles_empty [] (a ∷ as') halted h e = cc (e, h.1 (omega arith))
piles_empty (f ∷ fs) as' halted h e = cc (e, h.1 (omega arith))

none_found :
    {A : Type 0} (f a : Option A) (halted : Bool)
    → ((halted ≡ true) ↔ ((f ≢ none) ⊎ (a ≢ none)))
    → halted ≡ false
    → (f ≡ none) × (a ≡ none)
none_found none none halted h e = (refl, refl)
none_found none (some a) halted h e = cc (e, h.1 (inr λ x. cc))
none_found (some f) a halted h e = cc (e, h.1 (inl λ x. cc))

-- No record of the cell above `gen` failed or is an attempt.
abbrev IsClear : Store → ℕ → ℕ → Type 0
IsClear s cell gen =
    All (λ (t : CellTx). gen < t.generation → is_failed t.status ≡ false) (rows_of s cell)
    × All (λ (t : CellTx). gen < t.generation → is_attempting t.status ≡ false) (rows_of s cell)

deep-IsClear :
    (s : Store) (cell : ℕ) (b : Tip)
    → (deep_tip s cell).settled ≡ some b
    → (deep_tip s cell).failure ≡ none
    → (deep_tip s cell).attempt ≡ none
    → IsClear s cell b.generation
unfolding deep_tip
deep-IsClear s cell b base f a = (
  newest-IsQuiet is_failed s cell b
      (ap (λ o. above o (newest s cell false is_failed)) (sym base) ∙ f),
  newest-IsQuiet is_attempting s cell b
      (ap (λ o. above o (newest s cell false is_attempting)) (sym base) ∙ a),
)

unhalted-IsClear :
    (s : Store) (cell : ℕ) (genesis_txid : String) (w : List Tip)
    → tips_of s tip_depth cell ≡ w
    → (classify genesis_txid w (deep_tip s cell)).1.halted ≡ false
    → IsClear s cell (classify genesis_txid w (deep_tip s cell)).0.gen
unhalted-IsClear s cell genesis_txid [] e h = (no_rows s cell 7 _ e, no_rows s cell 7 _ e)
unhalted-IsClear s cell genesis_txid (r ∷ rs) e h = elim (Option-cases (newest_settled (r ∷ rs))) [
  | inl none_near ↦ elim (Option-cases (deep_tip s cell).settled) [
    | inl nothing ↦
        cc (h, ((classify_deep genesis_txid r rs (deep_tip s cell) none_near).1 nothing).0)
    | inr (b, base) ↦
        let (claimed, halts, _) =
          (classify_deep genesis_txid r rs (deep_tip s cell) none_near).2 b base in
        let (f, a) = none_found _ _ _ halts h in
        subst (IsClear s cell) (ap (λ (c : Claim). c.gen) (sym claimed))
          (deep-IsClear s cell b base f a)
  ]
  | inr (b, near) ↦
      let sorted : IsDesc (λ (t : Tip). t.generation) (r ∷ rs) =
        subst (IsDesc (λ (t : Tip). t.generation)) e (tips_of-IsDesc s tip_depth cell) in
      let (claimed, halts, _, _) =
        classify_shallow genesis_txid r rs (deep_tip s cell) b sorted near in
      let (f, a) = piles_empty _ _ _ halts h in
      subst (IsClear s cell) (ap (λ (c : Claim). c.gen) (sym claimed)) (
        shallow-IsQuiet is_failed s cell tip_depth b (ap newest_settled e ∙ near)
            (ap (failures_above b.generation) e ∙ f),
        shallow-IsQuiet is_attempting s cell tip_depth b (ap newest_settled e ∙ near)
            (ap (attempts_above b.generation) e ∙ a),
      )
]

bounded :
    (g gen : ℕ) (b c : Bool)
    → (gen < g → b ≡ false)
    → (gen < g → c ≡ false)
    → (b || c) ≡ true
    → g ≤ gen
bounded g gen b c k l e = elim (Bool-cases (leb g gen)) [
  | inl h ↦ leb→le g gen h
  | inr h ↦ let over = leb-false→lt g gen h in cc (k over, l over, e)
]

-- The safety of a start: when derivation does not halt a cell, every failure and every attempt of
-- that cell in the whole table, and not only in the window of its newest eight records, is at or
-- below the generation that it claims.
pub unhalted_clear :
    (s : Store) (cell : ℕ) (genesis_txid : String) (i : ℕ) (t : CellTx)
    → (classify genesis_txid (tips_of s tip_depth cell) (deep_tip s cell)).1.halted ≡ false
    → get_elem? s.cell_txs i ≡ some t
    → t.cell ≡ cell
    → (is_failed t.status || is_attempting t.status) ≡ true
    → t.generation ≤ (classify genesis_txid (tips_of s tip_depth cell) (deep_tip s cell)).0.gen
unfolding rows_of
unhalted_clear s cell genesis_txid i t h at own bad =
    let (f, a) = unhalted-IsClear s cell genesis_txid (tips_of s tip_depth cell) refl h in
    let mine = (==_iff t.cell cell).1 own in
    bounded t.generation _ _ _
      (All-get_elem? _ s.cell_txs i (All-unfilter _ _ s.cell_txs f) at mine)
      (All-get_elem? _ s.cell_txs i (All-unfilter _ _ s.cell_txs a) at mine) bad
