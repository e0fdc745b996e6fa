-- ===== src/Engine/Rows/Floor.antt =====
-- internal/engine/derive.go: when a derivation may start over the tips that an older build recorded.
use mathlib.Core.List.{Memᴰ}
use mathlib.Core.List.Memᴰ.{head, tail}
use rule_110_arcade.Base.{
  ◌≤◌, ◌≡◌, ◌↔◌, ◌⊎◌, inl, inr, refl, sym, ap, ◌∙◌, arith, Bool, true, false, not, ◌&&◌, Option,
  none, some, List, [], ◌∷◌, String, leb, if◌then◌else◌, is_empty, map, any, get_elem?, str_eq,
  str_eq_iff, filter, if_known, option_known, Option-cases, Bool-cases, &&-split, All,
}
use mathlib.Core.Option.{some-injective}
use rule_110_arcade.Chain.{CellChain}
use rule_110_arcade.Chain.Oracle.{ArcadeStatus, refused_by_network}
use rule_110_arcade.History.{Store}
use rule_110_arcade.History.Tips.{is_rejected, rejected_txids}
use rule_110_arcade.Engine.Rows.{CellPosition, network_refused, above_floor, check_migration_floor}
use rule_110_arcade.History.Rejected.{
  IsFailedIn, is_rejected-IsFailedIn, IsFailedIn-is_rejected, any-filter, any-map,
}

network_refused_lem :
    (oracle : Option (String → Option ArcadeStatus)) (id : String)
    → network_refused oracle id ≡ true
    → (get : String → Option ArcadeStatus) × (status : ArcadeStatus) × (oracle ≡ some get)
      × (get id ≡ some status)
      × (refused_by_network status ≡ true)
unfolding network_refused
network_refused_lem none id = λ e. absurd (cc e)
network_refused_lem (some get) id =
    option_known
      (λ b.
        b ≡ true
        → (get' : String → Option ArcadeStatus) × (status : ArcadeStatus) × (some get ≡ some get')
          × (get' id ≡ some status)
          × (refused_by_network status ≡ true))
      (get id) _ _ (λ e. absurd (cc e))
      (λ status answered denied. (get, status, refl, answered, denied))

any_test :
    (a b c d : Bool)
    → a ≡ true ⊎ b ≡ true ⊎ c ≡ true ⊎ d ≡ true
    → (if a then true else if b then true else if c then true else d) ≡ true
any_test a b c d h = ground (arith, h)

module _ (s : Store) (oracle : Option (String → Option ArcadeStatus))
    (positions : List CellPosition) where
  -- Why a recorded tip is no obstacle.
  pub data IsExplained (t : CellChain) : Type 0 where
    outside : get_elem? positions t.cell ≡ none → IsExplained t
    unnamed : t.txid ≡ "" → IsExplained t
    reached :
        (p : CellPosition)
        → get_elem? positions t.cell ≡ some p
        → t.generation ≤ p.tip.generation
        → IsExplained t
    failed : IsFailedIn s.cell_txs t.txid → IsExplained t
    refused :
        (get : String → Option ArcadeStatus) (status : ArcadeStatus)
        → oracle ≡ some get
        → get t.txid ≡ some status
        → refused_by_network status ≡ true
        → IsExplained t

  module _ (legacy : List CellChain) where
    abbrev known : List String
    known =
        rejected_txids s (filter (λ id. not (is_empty id)) (map (λ (t : CellChain). t.txid) legacy))

    any-known :
        (t : CellChain)
        → Memᴰ t legacy
        → is_empty t.txid ≡ false
        → any (λ id. str_eq id t.txid) known ≡ is_rejected s.cell_txs t.txid
    unfolding rejected_txids
    any-known t m full =
        let nonempty : String → Bool = λ id. not (is_empty id) in
        let ids = map (λ (u : CellChain). u.txid) legacy in
        any-filter (is_rejected s.cell_txs) (filter nonempty ids) t.txid
        ∙ ap (λ b. is_rejected s.cell_txs t.txid && b) (any-filter nonempty ids t.txid)
        ∙ rw (full, any-map (λ (u : CellChain). u.txid) legacy t m) (ground arith)

    above_floor-IsExplained :
        (t : CellChain)
        → Memᴰ t legacy
        → above_floor oracle positions known t ≡ true
        → IsExplained t
    unfolding above_floor
    above_floor-IsExplained t m =
        let P : Bool → Type 0 = λ b. b ≡ true → IsExplained t in
        elim (Option-cases (get_elem? positions t.cell)) [
          | inl none_there ↦ λ _. outside none_there
          | inr (p, there) ↦
              rw (above_floor, there)
                (if_known P (is_empty t.txid) _ _
                  (λ empty _. unnamed ((str_eq_iff t.txid "").0 empty))
                  (λ full.
                    if_known P (any (λ id. str_eq id t.txid) known) _ _
                      (λ held _. failed (
                        is_rejected-IsFailedIn s.cell_txs t.txid (sym (any-known t m full) ∙ held)))
                      (λ _.
                        if_known P (leb t.generation p.tip.generation) _ _
                          (λ low _. reached p there (ground (arith, low)))
                          (λ _ e.
                            let (get, status, asked, answered, denied) =
                              network_refused_lem oracle t.txid e in
                            refused get status asked answered denied))))
        ]

    -- The tests of a tip whose cell has a position.
    above_floor-there :
        (t : CellChain) (p : CellPosition)
        → get_elem? positions t.cell ≡ some p
        → (is_empty t.txid ≡ true
            ⊎ any (λ id. str_eq id t.txid) known ≡ true
            ⊎ leb t.generation p.tip.generation ≡ true
            ⊎ network_refused oracle t.txid ≡ true)
        → above_floor oracle positions known t ≡ true
    unfolding above_floor
    above_floor-there t p there h =
        rw (above_floor, there)
          (any_test (is_empty t.txid) (any (λ id. str_eq id t.txid) known)
            (leb t.generation p.tip.generation) (network_refused oracle t.txid) h)

    IsExplained-above_floor :
        (t : CellChain)
        → Memᴰ t legacy
        → IsExplained t
        → above_floor oracle positions known t ≡ true
    unfolding above_floor
    IsExplained-above_floor t m h = elim (Option-cases (get_elem? positions t.cell)) [
      | inl none_there ↦ rw (above_floor, none_there) refl
      | inr (p, there) ↦ above_floor-there t p there (passed p there h)
    ]
      where
        passed :
            (p : CellPosition)
            → get_elem? positions t.cell ≡ some p
            → IsExplained t
            → (is_empty t.txid ≡ true
                ⊎ any (λ id. str_eq id t.txid) known ≡ true
                ⊎ leb t.generation p.tip.generation ≡ true
                ⊎ network_refused oracle t.txid ≡ true)
        passed p there (outside e) = absurd (cc (there, e))
        passed p there (unnamed e) = inl ((str_eq_iff t.txid "").1 e)
        passed p there (reached q e low) = inr (
            inr (
              inl (
                ap (leb t.generation)
                  (ap (λ (x : CellPosition). x.tip.generation) (some-injective p q (sym there ∙ e)))
                ∙ ground (arith, low))))
        passed p there (failed (u, held, named, bad)) = elim (Bool-cases (is_empty t.txid)) [
          | inl empty ↦ inl empty
          | inr full ↦ inr (
              inl (
                any-known t m full
                ∙ ap (is_rejected s.cell_txs) (sym named)
                ∙ IsFailedIn-is_rejected s.cell_txs u held bad))
        ]
        passed p there (refused get status asked answered denied) =
            inr (inr (inr (rw (network_refused, asked, answered) denied)))

not_any : (b rest : Bool) → not (if not b then true else rest) ≡ (b && not rest)
not_any b rest = ground arith

any-All :
    (f : CellChain → Bool) (legacy : List CellChain)
    → (not (any (λ t. not (f t)) legacy) ≡ true) ↔ All (λ t. f t ≡ true) legacy
any-All f [] = (λ _. tt, λ _. refl)
any-All f (t ∷ legacy) =
    let (to, from) = any-All f legacy in
    let rest = any (λ t. not (f t)) legacy in
    (
      λ e.
          let (good, others) = &&-split (f t) (not rest) (sym (not_any (f t) rest) ∙ e) in
          (good, to others),
      λ h. not_any (f t) rest ∙ rw (h.0, from h.1) refl,
    )

All-known {ℓ κ} :
    {A : Type 0} (P : A → Type ℓ) (Q : A → Type κ) (xs : List A)
    → ((x : A) → Memᴰ x xs → P x → Q x)
    → All P xs
    → All Q xs
All-known P Q [] f h = tt
All-known P Q (x ∷ xs) f (p, h) = (f x (head refl) p, All-known P Q xs (λ y m q. f y (tail m) q) h)

-- A derivation may start exactly if each tip that an older build recorded is of no cell of the ring,
-- names no transaction, is not above the cell's derived tip, or was refused, by a failed record of ours
-- or by the network's answer.
pub check_migration_floor_lem :
    (s : Store) (oracle : Option (String → Option ArcadeStatus)) (positions : List CellPosition)
    (legacy : List CellChain)
    → (check_migration_floor s oracle positions legacy ≡ true)
      ↔ All (IsExplained s oracle positions) legacy
unfolding check_migration_floor
check_migration_floor_lem s oracle positions legacy =
    let above : CellChain → Bool = above_floor oracle positions (known s oracle positions legacy) in
    let (to, from) = any-All above legacy in
    (
      λ e.
          All-known (λ t. above t ≡ true) (IsExplained s oracle positions) legacy
            (above_floor-IsExplained s oracle positions legacy) (to e),
      λ h. from (
          All-known (IsExplained s oracle positions) (λ t. above t ≡ true) legacy
            (IsExplained-above_floor s oracle positions legacy) h),
    )
