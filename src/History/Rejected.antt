-- ===== src/History/Rejected.antt =====
-- internal/history/history.go: which of the given ids a record of a failure names.
use mathlib.Core.List.{Memᴰ}
use mathlib.Core.List.Memᴰ.{head, tail}
use rule_110_arcade.Base.{
  ◌≡◌, inl, inr, refl, sym, ap, ◌∙◌, arith, Bool, true, ◌&&◌, List, [], ◌∷◌, String, map, any,
  str_eq, str_eq_iff, str_eq_refl, filter, if_known, Bool-cases,
}
use rule_110_arcade.History.{CellTx, is_failed}
use rule_110_arcade.History.Tips.{is_rejected}

-- A record of a failure that names the transaction.
abbrev pub IsFailedIn : List CellTx → String → Type 0
IsFailedIn txs id = (t : CellTx) × Memᴰ t txs × (t.txid ≡ id) × (is_failed t.status ≡ true)

pub is_rejected-IsFailedIn :
    (txs : List CellTx) (id : String) → is_rejected txs id ≡ true → IsFailedIn txs id
unfolding is_rejected
is_rejected-IsFailedIn [] id = λ e. cc e
is_rejected-IsFailedIn (t ∷ txs) id =
    let P : Bool → Type 0 = λ b. b ≡ true → IsFailedIn (t ∷ txs) id in
    let later : P (is_rejected txs id) = λ e.
      let (u, there, named, failed) = is_rejected-IsFailedIn txs id e in
      (u, tail there, named, failed) in
    if_known P (str_eq t.txid id) _ _
      (λ same.
        if_known P (is_failed t.status) _ _
          (λ failed _. (t, head refl, (str_eq_iff t.txid id).0 same, failed)) (λ _. later))
      (λ _. later)

pub IsFailedIn-is_rejected :
    (txs : List CellTx) (t : CellTx)
    → Memᴰ t txs
    → is_failed t.status ≡ true
    → is_rejected txs t.txid ≡ true
unfolding is_rejected
IsFailedIn-is_rejected [] t m failed = elim m [ ]
IsFailedIn-is_rejected (u ∷ txs) t (head e) failed =
    rw
      (
        ap (λ (x : CellTx). str_eq x.txid t.txid) (sym e) ∙ str_eq_refl t.txid,
        ap (λ (x : CellTx). is_failed x.status) (sym e) ∙ failed,
      )
      refl
IsFailedIn-is_rejected (u ∷ txs) t (tail m) failed =
    let rest = IsFailedIn-is_rejected txs t m failed in
    if_known (λ b. b ≡ true) (str_eq u.txid t.txid) _ _
      (λ _. if_known (λ b. b ≡ true) (is_failed u.status) _ _ (λ _. refl) (λ _. rest)) (λ _. rest)

-- A filter keeps an id exactly if the list has it and it passes.
pub any-filter :
    (f : String → Bool) (ids : List String) (id : String)
    → any (λ x. str_eq x id) (filter f ids) ≡ (f id && any (λ x. str_eq x id) ids)
any-filter f [] id = ground arith
any-filter f (x ∷ ids) id =
    let rest = any-filter f ids id in
    elim (Bool-cases (str_eq x id)) [
      | inl same ↦
          let e = ap f ((str_eq_iff x id).0 same) in
          if_known
            (λ (ys : List String).
              any (λ x. str_eq x id) ys ≡ (f id && any (λ x. str_eq x id) (x ∷ ids)))
            (f x) _ _ (λ keep. rw (same, sym e ∙ keep) refl)
            (λ skip. rw (same, sym e ∙ skip) (rest ∙ rw (sym e ∙ skip) refl))
      | inr other ↦
          if_known
            (λ (ys : List String).
              any (λ x. str_eq x id) ys ≡ (f id && any (λ x. str_eq x id) (x ∷ ids)))
            (f x) _ _ (λ _. rw (other) rest) (λ _. rw (other) rest)
    ]

pub any-map {ℓ} :
    {A : Type ℓ} (f : A → String) (xs : List A) (a : A)
    → Memᴰ a xs
    → any (λ x. str_eq x (f a)) (map f xs) ≡ true
any-map f [] a m = elim m [ ]
any-map f (b ∷ xs) a (head e) = rw (ap (λ x. str_eq (f x) (f a)) (sym e) ∙ str_eq_refl (f a)) refl
any-map f (b ∷ xs) a (tail m) =
    if_known (λ b. b ≡ true) (str_eq (f b) (f a)) _ _ (λ _. refl) (λ _. any-map f xs a m)
