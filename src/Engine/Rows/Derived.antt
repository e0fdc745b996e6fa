-- ===== src/Engine/Rows/Derived.antt =====
-- internal/engine/derive.go: what a derived tip rests on.
use rule_110_arcade.Base.{
  ℕ, zero, suc, ◌+◌, ◌≡◌, ◌⊎◌, inl, inr, sym, ap, ◌∙◌, arith, true, false, Option, none, some,
  ◌>>=◌, List, [], ◌∷◌, String, is_empty, get_elem?, any, ◌==◌, bind-some, guard-some, both,
  if_known,
}
use mathlib.Core.Path.{subst}
use mathlib.Core.Option.{some-injective}
use rule_110_arcade.Ca.{Row, HexText, hex, seed_hex}
use rule_110_arcade.Cellscript.{Compiled}
use rule_110_arcade.Chain.{CellChain, no_chain, Bytes, Sdk, Ledger}
use rule_110_arcade.Chain.Tips.{derive_tip}
use rule_110_arcade.Chain.Derived.{IsCarried, derive_tip-IsCarried}
use rule_110_arcade.Chain.Walk.{later_row}
use rule_110_arcade.History.{Store, row_at}
use rule_110_arcade.History.Tips.{cell_tips}
use rule_110_arcade.Engine.Derive.{Position, Claim, tip_depth}
use rule_110_arcade.Engine.Rows.{
  Deployment, CellPosition, compute_rows, agrees, agrees?, cross_check_rows, classify_from, claimed,
  highest_of, place_cell, place_cells, derive_tips,
}
use rule_110_arcade.Engine.Rows.Computed.{compute_rows-AreRows}

module _ (s : Store) (rows : ℕ → Option Row) where
  -- What is recorded for the claim's generation agrees with the recomputed row.
  abbrev IsChecked : Claim → Type 0
  IsChecked claim =
      is_empty claim.txid ≡ false → agrees? (row_at s claim.gen) (rows claim.gen) ≡ true

  cross_check_rows-IsChecked :
      (claims : List (Claim × Position)) (i : ℕ) (claim : Claim) (q : Position)
      → cross_check_rows s rows (claimed claims) ≡ true
      → get_elem? claims i ≡ some (claim, q)
      → IsChecked claim
  unfolding cross_check_rows claimed
  cross_check_rows-IsChecked [] i claim q e h named = cc h
  cross_check_rows-IsChecked ((first, q') ∷ claims) zero claim q e h named =
      let same : first ≡ claim =
        ap (λ (x : Claim × Position). x.0) (some-injective (first, q') (claim, q) h) in
      subst IsChecked same
        (λ here.
          (both (agrees? (row_at s first.gen) (rows first.gen))
            (cross_check_rows s rows (claimed claims))
            (if_known
              (λ (gens : List ℕ).
                cross_check_rows s rows gens ≡ true
                → cross_check_rows s rows (first.gen ∷ claimed claims) ≡ true)
              (is_empty first.txid) (claimed claims) (first.gen ∷ claimed claims)
              (λ empty. absurd (cc (here, empty))) (λ full w. w) e)).0)
        named
  cross_check_rows-IsChecked ((first, q') ∷ claims) (suc i) claim q e h named =
      let rest =
        if_known
          (λ (gens : List ℕ).
            cross_check_rows s rows gens ≡ true → cross_check_rows s rows (claimed claims) ≡ true)
          (is_empty first.txid) (claimed claims) (first.gen ∷ claimed claims) (λ empty w. w)
          (λ full w.
            (both (agrees? (row_at s first.gen) (rows first.gen))
              (cross_check_rows s rows (claimed claims)) w).1)
          e in
      cross_check_rows-IsChecked claims i claim q rest h named

  agrees-known :
      (recorded : Option HexText) (known : Option Row) (row : Row)
      → known ≡ some row
      → agrees? recorded known ≡ true
      → agrees recorded row ≡ true
  unfolding agrees?
  agrees-known recorded none row e h = cc e
  agrees-known recorded (some r) row e h =
      subst (λ (x : Row). agrees recorded x ≡ true) (some-injective r row e) h

module _ (k : Sdk) (l : Ledger) (c : Compiled) (d : Deployment) where
  -- The tip of a cell that has one: the ledger's transaction carries the covenant of the row that
  -- the rule gives for its generation, with which the record of the generation agrees.
  pub record IsDerived (s : Store) (seed : Row) (cell : ℕ) (t : CellChain) : Type 0 where
    pub raw : Bytes
    pub row : Row
    pub own : t.cell ≡ cell
    pub held : l.raw_tx t.txid ≡ some raw
    pub ruled : later_row d.rule t.generation seed ≡ some row
    pub shown : t.row_hex ≡ hex row
    pub agreed : agrees (row_at s t.generation) row ≡ true
    pub carried : IsCarried k c cell t.generation row t.txid raw t

  -- The same, for the tip that a claim was placed at.
  abbrev IsPlaced : (ℕ → Option Row) → ℕ → Claim → CellChain → Type 0
  IsPlaced rows cell claim t =
      (is_empty claim.txid ≡ false)
      × ((raw : Bytes) × (row : Row) × (l.raw_tx claim.txid ≡ some raw)
          × (rows claim.gen ≡ some row)
          × (derive_tip k c cell claim.gen row claim.txid raw ≡ some t))

  place_cell-IsPlaced :
      (rows : ℕ → Option Row) (cell : ℕ) (claim : Claim) (q : Position) (x : CellPosition)
      → place_cell k l c d rows cell claim q ≡ some x
      → (x.position ≡ q) × ((x.tip ≡ no_chain) ⊎ IsPlaced rows cell claim x.tip)
  unfolding place_cell
  place_cell-IsPlaced rows cell claim q x =
      let none_yet : CellPosition = record { tip = no_chain; position = q } in
      if_known
        (λ (o : Option CellPosition).
          o ≡ some x → (x.position ≡ q) × ((x.tip ≡ no_chain) ⊎ IsPlaced rows cell claim x.tip))
        (is_empty claim.txid) (some none_yet)
        (do
          raw ← l.raw_tx claim.txid
          row ← rows claim.gen
          tip ← derive_tip k c cell claim.gen row claim.txid raw
          some (record { tip = tip; position = q }))
        (λ empty w.
          let same = sym (some-injective none_yet x w) in
          (ap (λ (y : CellPosition). y.position) same, inl (ap (λ (y : CellPosition). y.tip) same)))
        (λ full w.
          let (raw, p2, e2) = bind-some (l.raw_tx claim.txid) _ w in
          let (row, p3, e3) = bind-some (rows claim.gen) _ e2 in
          let (t, p4, e4) = bind-some (derive_tip k c cell claim.gen row claim.txid raw) _ e3 in
          let same = some-injective (record { tip = t; position = q }) x e4 in
          (
            ap (λ (y : CellPosition). y.position) (sym same),
            inr (full, (raw, row, p2, p3, p4 ∙ ap (λ (y : CellPosition). some y.tip) same)),
          ))

  abbrev AtPlace : (ℕ → Option Row) → ℕ → List (Claim × Position) → ℕ → CellPosition → Type 0
  AtPlace rows m claims i p =
      (claim : Claim) × (get_elem? claims i ≡ some (claim, p.position))
      × ((p.tip ≡ no_chain) ⊎ IsPlaced rows m claim p.tip)

  place_cells-IsPlaced :
      (rows : ℕ → Option Row) (cell : ℕ) (claims : List (Claim × Position)) (ps : List CellPosition)
      (i m : ℕ) (p : CellPosition)
      → m ≡ i + cell
      → place_cells k l c d rows cell claims ≡ some ps
      → get_elem? ps i ≡ some p
      → AtPlace rows m claims i p
  unfolding place_cells
  place_cells-IsPlaced rows cell [] ps i m p o e h =
      absurd (cc (ap (λ (x : List CellPosition). get_elem? x i) (some-injective [] ps e) ∙ h))
  place_cells-IsPlaced rows cell ((claim, q) ∷ claims) ps zero m p o e h =
      let (rest, p1, e1) = bind-some (place_cells k l c d rows (suc cell) claims) _ e in
      let (x, p2, e2) = bind-some (place_cell k l c d rows cell claim q) _ e1 in
      let (p3, p4) = place_cell-IsPlaced rows cell claim q x p2 in
      let same =
        some-injective x p
          (ap (λ (y : List CellPosition). get_elem? y 0) (some-injective (x ∷ rest) ps e2) ∙ h) in
      subst (AtPlace rows m ((claim, q) ∷ claims) 0) same (
        claim,
        ap (λ (y : Position). some (claim, y)) (sym p3),
        subst (λ (n : ℕ). (x.tip ≡ no_chain) ⊎ IsPlaced rows n claim x.tip) (omega (arith, o)) p4,
      )
  place_cells-IsPlaced rows cell ((claim, q) ∷ claims) ps (suc i) m p o e h =
      let (rest, p1, e1) = bind-some (place_cells k l c d rows (suc cell) claims) _ e in
      let (x, p2, e2) = bind-some (place_cell k l c d rows cell claim q) _ e1 in
      place_cells-IsPlaced rows (suc cell) claims rest i m p (omega (arith, o)) p1
        (ap (λ (y : List CellPosition). get_elem? y (suc i)) (some-injective (x ∷ rest) ps e2) ∙ h)

  IsPlaced-IsDerived :
      (s : Store) (seed : Row) (rows : ℕ → Option Row) (cell : ℕ) (claim : Claim) (t : CellChain)
      → ((x : ℕ) (r : Row) → rows x ≡ some r → later_row d.rule x seed ≡ some r)
      → IsChecked s rows claim
      → IsPlaced rows cell claim t
      → IsDerived s seed cell t
  IsPlaced-IsDerived s seed rows cell claim t ruled checked
        (named, (raw, row, held, known, derived)) =
      let at = derive_tip-IsCarried k c cell claim.gen row claim.txid raw t derived in
      let id = at.same_txid in
      let gen = at.same_generation in
      record {
        raw = raw;
        row = row;
        own = at.same_cell;
        held = ap l.raw_tx id ∙ held;
        ruled = ap (λ (x : ℕ). later_row d.rule x seed) gen ∙ ruled claim.gen row known;
        shown = at.shown;
        agreed =
            ap (λ (x : ℕ). agrees (row_at s x) row) gen
            ∙ agrees-known s rows (row_at s claim.gen) (rows claim.gen) row known (checked named);
        carried = derive_tip-IsCarried k c cell t.generation row t.txid raw t (
            ap (λ (x : ℕ). derive_tip k c cell x row t.txid raw) gen
            ∙ ap (λ (x : String). derive_tip k c cell claim.gen row x raw) id
            ∙ derived);
      }

  -- The tip that a derivation gives a cell, if it gives one, is a transaction the ledger holds, of
  -- the tip's id. Exactly one of its outputs, the tip's, is locked to the cell's covenant script
  -- for the row that the rule gives from the seed after the tip's generations, and what the store
  -- recorded of that generation agrees.
  pub derive_tips-IsDerived :
      (s : Store) (ps : List CellPosition) (i : ℕ) (p : CellPosition)
      → derive_tips k l c d s ≡ some ps
      → get_elem? ps i ≡ some p
      → (p.tip ≡ no_chain)
        ⊎ ((seed : Row) × (seed_hex d.cells d.seed ≡ some seed) × IsDerived s seed i p.tip)
  unfolding derive_tips
  derive_tips-IsDerived s ps i p e h =
      let (seed, p1, e1) = bind-some (seed_hex d.cells d.seed) _ e in
      let (records, p2, e2) = bind-some (cell_tips s d.cells tip_depth) _ e1 in
      let claims = classify_from d.genesis_txid s 0 records in
      let gens = claimed claims in
      let (rows, p3, e3) =
        bind-some (compute_rows seed d.rule (λ g. any (λ h. h == g) gens) (highest_of gens)) _ e2 in
      let (p4, e4) =
        guard-some (cross_check_rows s rows gens) (place_cells k l c d rows 0 claims) e3 in
      let (claim, at, placed) = place_cells-IsPlaced rows 0 claims ps i i p (omega arith) e4 h in
      elim placed [
        | inl none_yet ↦ inl none_yet
        | inr here ↦ inr (
          seed,
          p1,
          IsPlaced-IsDerived s seed rows i claim p.tip
              (compute_rows-AreRows d.rule seed (λ g. any (λ h. h == g) gens) (highest_of gens) rows
                p3)
              (cross_check_rows-IsChecked s rows claims i claim p.position p4 at) here,
        )
      ]
