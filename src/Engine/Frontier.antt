-- ===== src/Engine/Frontier.antt =====
-- internal/engine/worker.go: the frontier is the slowest cell that is not halted.
use rule_110_arcade.Base.{
  ℕ, zero, suc, ◌+◌, ◌≤◌, ◌≡◌, ◌⊎◌, refl, sym, ap, ◌∙◌, arith, Bool, true, false, ◌||◌, some, List,
  [], ◌∷◌, ltb, get_elem?, Bool-cases, if_either, inl, inr,
}
use mathlib.Core.Option.{some-injective}
use rule_110_arcade.Chain.{CellChain}
use rule_110_arcade.Engine.Worker.{Engine, frontier_loop, frontier_locked}

module _ (halted : ℕ → Bool) where
  -- Cell `j` of `cs`, the cells from `i` on, is `c` and not halted.
  abbrev IsLive : ℕ → List CellChain → ℕ → CellChain → Type 0
  IsLive i cs j c = (get_elem? cs j ≡ some c) × (halted (i + j) ≡ false)

  IsLive-suc :
      (i : ℕ) (d : CellChain) (cs : List CellChain) (j : ℕ) (c : CellChain)
      → IsLive i (d ∷ cs) (suc j) c
      → IsLive (suc i) cs j c
  IsLive-suc i d cs j c (e, h) =
      let p : suc i + j ≡ i + suc j = ground arith in (e, ap halted p ∙ h)

  IsLive-cons :
      (i : ℕ) (d : CellChain) (cs : List CellChain) (j : ℕ) (c : CellChain)
      → IsLive (suc i) cs j c
      → IsLive i (d ∷ cs) (suc j) c
  IsLive-cons i d cs j c (e, h) =
      let p : i + suc j ≡ suc i + j = ground arith in (e, ap halted p ∙ h)

  frontier_loop-le :
      (i : ℕ) (cs : List CellChain) (frontier : ℕ) (first : Bool)
      → first ≡ false
      → (frontier_loop halted i cs frontier first).0 ≤ frontier
  unfolding frontier_loop
  frontier_loop-le i [] frontier first h = ground arith
  frontier_loop-le i (c ∷ cs) frontier first h = ground (
    arith,
    frontier_loop-le (suc i) cs frontier first h,
    frontier_loop-le (suc i) cs c.generation false refl,
  )

  frontier_loop-lower :
      (i : ℕ) (cs : List CellChain) (frontier : ℕ) (first : Bool) (j : ℕ) (c : CellChain)
      → IsLive i cs j c
      → (frontier_loop halted i cs frontier first).0 ≤ c.generation
  unfolding frontier_loop
  frontier_loop-lower i [] frontier first j c (e, h) = cc
  frontier_loop-lower i (d ∷ cs) frontier first zero c (e, h) =
      let p : i ≡ i + zero = ground arith in
      rw (ap halted p ∙ h, ← some-injective d c e)
        (ground (
          arith,
          frontier_loop-le (suc i) cs d.generation false refl,
          frontier_loop-le (suc i) cs frontier first,
        ))
  frontier_loop-lower i (d ∷ cs) frontier first (suc j) c live =
      let l = IsLive-suc i d cs j c live in
      ground (
        arith,
        frontier_loop-lower (suc i) cs frontier first j c l,
        frontier_loop-lower (suc i) cs d.generation false j c l,
      )

  -- The loop has met no live cell that counted, or its result is the tip of a live one.
  abbrev IsMet : ℕ → List CellChain → ℕ → Bool → ℕ × Bool → Type 0
  IsMet i cs frontier first r =
      (r ≡ (frontier, first))
      ⊎ ((r.1 ≡ false) × ((j : ℕ) × (c : CellChain) × IsLive i cs j c × (c.generation ≡ r.0)))

  IsMet-cons :
      (i : ℕ) (d : CellChain) (cs : List CellChain) (frontier : ℕ) (first : Bool) {r : ℕ × Bool}
      → IsMet (suc i) cs frontier first r
      → IsMet i (d ∷ cs) frontier first r
  IsMet-cons i d cs frontier first (inl e) = inl e
  IsMet-cons i d cs frontier first (inr (e, (j, c, l, g))) =
      inr (e, (suc j, c, IsLive-cons i d cs j c l, g))

  IsMet-head :
      (i : ℕ) (d : CellChain) (cs : List CellChain) (frontier : ℕ) (first : Bool) {r : ℕ × Bool}
      → halted i ≡ false
      → IsMet (suc i) cs d.generation false r
      → IsMet i (d ∷ cs) frontier first r
  IsMet-head i d cs frontier first h (inl e) =
      let p : i + zero ≡ i = ground arith in
      inr (
        ap (λ (x : ℕ × Bool). x.1) e,
        (zero, d, (refl, ap halted p ∙ h), sym (ap (λ (x : ℕ × Bool). x.0) e)),
      )
  IsMet-head i d cs frontier first h (inr (e, (j, c, l, g))) =
      inr (e, (suc j, c, IsLive-cons i d cs j c l, g))

  frontier_loop-IsMet :
      (i : ℕ) (cs : List CellChain) (frontier : ℕ) (first : Bool)
      → IsMet i cs frontier first (frontier_loop halted i cs frontier first)
  unfolding frontier_loop
  frontier_loop-IsMet i [] frontier first = inl refl
  frontier_loop-IsMet i (d ∷ cs) frontier first =
      let skip = IsMet-cons i d cs frontier first (frontier_loop-IsMet (suc i) cs frontier first) in
      let take = frontier_loop-IsMet (suc i) cs d.generation false in
      elim (Bool-cases (halted i)) [
        | inl h ↦ rw h skip
        | inr h ↦ rw h (
            if_either (IsMet i (d ∷ cs) frontier first) (first || ltb d.generation frontier)
              (frontier_loop halted (suc i) cs d.generation false)
              (frontier_loop halted (suc i) cs frontier first)
              (IsMet-head i d cs frontier first h take) skip)
      ]

  frontier_loop-first :
      (i : ℕ) (cs : List CellChain) (frontier : ℕ) (first : Bool)
      → first ≡ false
      → (frontier_loop halted i cs frontier first).1 ≡ false
  frontier_loop-first i cs frontier first h = elim (frontier_loop-IsMet i cs frontier first) [
    | inl e ↦ ap (λ (x : ℕ × Bool). x.1) e ∙ h
    | inr (e, _) ↦ e
  ]

  frontier_loop-counts :
      (i : ℕ) (cs : List CellChain) (frontier : ℕ) (first : Bool) (j : ℕ) (c : CellChain)
      → IsLive i cs j c
      → (frontier_loop halted i cs frontier first).1 ≡ false
  unfolding frontier_loop
  frontier_loop-counts i [] frontier first j c (e, h) = cc
  frontier_loop-counts i (d ∷ cs) frontier first zero c (e, h) =
      let p : i ≡ i + zero = ground arith in
      rw (ap halted p ∙ h) (
        ground (
          arith,
          frontier_loop-first (suc i) cs d.generation false refl,
          frontier_loop-first (suc i) cs frontier first,
        ))
  frontier_loop-counts i (d ∷ cs) frontier first (suc j) c live =
      let l = IsLive-suc i d cs j c live in
      ground (
        arith,
        frontier_loop-counts (suc i) cs frontier first j c l,
        frontier_loop-counts (suc i) cs d.generation false j c l,
      )

-- The frontier is at most the generation of any cell that is not halted. It is the generation of one of
-- them, or every cell is halted and it is the engine's own generation.
pub frontier_locked_lem :
    (e : Engine)
    → ((i : ℕ) (c : CellChain)
        → get_elem? e.tips i ≡ some c
        → e.halted i ≡ false
        → frontier_locked e ≤ c.generation)
      × (((i : ℕ) × (c : CellChain) × (get_elem? e.tips i ≡ some c)
            × (e.halted i ≡ false)
            × (frontier_locked e ≡ c.generation))
          ⊎ (((i : ℕ) (c : CellChain) → get_elem? e.tips i ≡ some c → e.halted i ≡ true)
              × (frontier_locked e ≡ e.generation)))
unfolding frontier_locked
frontier_locked_lem e =
    let from_start = λ (i : ℕ). (let p : 0 + i ≡ i = ground arith in ap e.halted p) in
    (
      λ i c h k.
          rw (frontier_loop-counts e.halted 0 e.tips 0 true i c (h, from_start i ∙ k))
            (frontier_loop-lower e.halted 0 e.tips 0 true i c (h, from_start i ∙ k)),
      elim (frontier_loop-IsMet e.halted 0 e.tips 0 true) [
        | inl r ↦ inr (
          λ i c h. elim (Bool-cases (e.halted i)) [
            | inl k ↦ k
            | inr k ↦ cc (
              frontier_loop-counts e.halted 0 e.tips 0 true i c (h, from_start i ∙ k),
              ap (λ (x : ℕ × Bool). x.1) r,
            )
          ],
          rw r refl,
        )
        | inr (r, (j, c, (h, k), g)) ↦ inl (j, c, h, sym (from_start j) ∙ k, rw r (sym g))
      ],
    )
