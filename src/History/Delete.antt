-- ===== src/History/Delete.antt =====
-- internal/history/history.go: the three deletes, and what each leaves of the other rows.
use rule_110_arcade.Base.{
  ℕ, ◌≡◌, refl, ap, arith, Bool, true, false, not, Option, none, some, List, [], ◌∷◌, String, ◌==◌,
  if◌then◌else◌, filter, str_eq, is_empty, Bool-cases, Option-cases, ==_refl, inl, inr,
}
use mathlib.Core.Path.{subst, subst₂}
use mathlib.Core.Option
use mathlib.Core.Option.{some-injective}
use rule_110_arcade.History.{
  is_attempting, is_failed, CellTx, Store, CellDetail, has_key, find_key, detail, detail?, cell_at,
}

unfoldable pub delete_rows : (CellTx → Bool) → List CellTx → List CellTx
delete_rows p ts = filter (λ t. not (p t)) ts

-- DELETE … WHERE generation = ? AND cell = ? AND status = 'attempting'
unfoldable pub delete_attempt : Store → ℕ → ℕ → Store
unfolding delete_rows
delete_attempt s generation cell = record s {
  cell_txs =
      delete_rows (λ t. if has_key generation cell t then is_attempting t.status else false)
        s.cell_txs;
}

-- DELETE … AND status = 'failed' AND txid = ?. `none` is the error for an empty id.
unfoldable pub delete_rejection : Store → ℕ → ℕ → String → Option Store
unfolding delete_rows
delete_rejection s generation cell txid =
    if is_empty txid
    then none
    else some (record s {
      cell_txs =
          delete_rows
            (λ t.
              if has_key generation cell t
              then (if is_failed t.status then str_eq t.txid txid else false)
              else false)
            s.cell_txs;
    })

-- DELETE … AND status = 'failed' AND txid = ''
unfoldable pub delete_unsigned_rejection : Store → ℕ → ℕ → Store
unfolding delete_rows
delete_unsigned_rejection s generation cell = record s {
  cell_txs =
      delete_rows
        (λ t.
          if has_key generation cell t
          then (if is_failed t.status then is_empty t.txid else false)
          else false)
        s.cell_txs;
}

abbrev pub same_key : ℕ → ℕ → ℕ → ℕ → Bool
same_key g c g' c' = if g == g' then c == c' else false

-- PRIMARY KEY (generation, cell)
abbrev pub IsKeyed : List CellTx → Type 0
IsKeyed [] = Unit {0}
IsKeyed (t ∷ ts) = (find_key t.generation t.cell ts ≡ none) × IsKeyed ts

-- What is left of a row under a delete.
keep : (CellTx → Bool) → Option CellTx → Option CellTx
keep p none = none
keep p (some t) = if p t then none else some t

clash :
    (g c : ℕ) (t : CellTx) (ts : List CellTx)
    → find_key t.generation t.cell ts ≡ none
    → has_key g c t ≡ true
    → find_key g c ts ≡ none
clash g c t ts h e =
    let same : (t.generation ≡ g) × (t.cell ≡ c) = ground arith in
    subst₂ (λ x y. find_key x y ts ≡ none) same.0 same.1 h

find_key-has_key :
    (g c : ℕ) (ts : List CellTx) {t : CellTx} → find_key g c ts ≡ some t → has_key g c t ≡ true
find_key-has_key g c [] e = cc
find_key-has_key g c (u ∷ us) {t} e = elim (Bool-cases (has_key g c u)) [
  | inl k ↦ subst (λ x. has_key g c x ≡ true) (some-injective u t (rw k at e)) k
  | inr k ↦ find_key-has_key g c us (rw k at e)
]

find_key-delete_rows :
    (g c : ℕ) (p : CellTx → Bool) (ts : List CellTx)
    → IsKeyed ts
    → find_key g c (delete_rows p ts) ≡ keep p (find_key g c ts)
unfolding delete_rows keep
find_key-delete_rows g c p [] h = refl
find_key-delete_rows g c p (t ∷ ts) h = elim (Bool-cases (has_key g c t)) [
  | inl e ↦ ground (arith, clash g c t ts h.0 e, find_key-delete_rows g c p ts h.1)
  | inr e ↦ ground (arith, find_key-delete_rows g c p ts h.1)
]

-- What a test on the record's columns leaves of it.
abbrev pub unless : (CellDetail → Bool) → Option CellDetail → Option CellDetail
unless p none = none
unless p (some d) = if p d then none else some d

abbrev only : ℕ → ℕ → (CellDetail → Bool) → CellTx → Bool
only g c q t = if has_key g c t then q (detail t) else false

detail?-keep_self :
    (g c : ℕ) (q : CellDetail → Bool) (ts : List CellTx)
    → detail? (keep (only g c q) (find_key g c ts)) ≡ unless q (detail? (find_key g c ts))
unfolding keep detail?
detail?-keep_self g c q ts = elim (Option-cases (find_key g c ts)) [
  | inl e ↦ rw e
  | inr (t, e) ↦ rw (e, find_key-has_key g c ts e) (ground arith)
]

detail?-keep_other :
    (g c g' c' : ℕ) (q : CellDetail → Bool) (ts : List CellTx)
    → same_key g c g' c' ≡ false
    → detail? (keep (only g c q) (find_key g' c' ts)) ≡ detail? (find_key g' c' ts)
unfolding keep detail?
detail?-keep_other g c g' c' q ts ne = elim (Option-cases (find_key g' c' ts)) [
  | inl e ↦ rw e
  | inr (t, e) ↦ ground (arith, find_key-has_key g' c' ts e)
]

-- A delete of one pair's row, seen through `cell_at`.
cell_at-delete_rows :
    (g c g' c' : ℕ) (q : CellDetail → Bool) (ts : List CellTx)
    → IsKeyed ts
    → detail? (find_key g' c' (delete_rows (only g c q) ts)) ≡ (
        if same_key g c g' c'
        then unless q (detail? (find_key g' c' ts))
        else detail? (find_key g' c' ts))
cell_at-delete_rows g c g' c' q ts h = elim (Bool-cases (same_key g c g' c')) [
  | inl e ↦
      let k : (g ≡ g') × (c ≡ c') = ground arith in
      rw (find_key-delete_rows g' c' (only g c q) ts h, k.0, k.1, ==_refl, ==_refl)
        (detail?-keep_self g' c' q ts)
  | inr e ↦
      rw (find_key-delete_rows g' c' (only g c q) ts h, e) (detail?-keep_other g c g' c' q ts e)
]

-- A write-ahead record; a rejection of the transaction; a failure that names no transaction.
abbrev pub is_attempt : CellDetail → Bool
is_attempt d = is_attempting d.status

abbrev pub is_rejection : String → CellDetail → Bool
is_rejection txid d = if is_failed d.status then str_eq d.txid txid else false

abbrev pub is_unsigned_rejection : CellDetail → Bool
is_unsigned_rejection d = if is_failed d.status then is_empty d.txid else false

module _ (s : Store) (g c g' c' : ℕ) where
  -- Each delete takes away the record of its own pair if that record is of the kind that it names (an
  -- unresolved attempt; the failure of exactly that transaction; a failure that names no transaction)
  -- and otherwise leaves it, and it leaves the record of every other pair. `delete_rejection` does so
  -- for an id that is not empty, and refuses an empty one. (For a table with its primary key.)
  pub delete-cell_at :
      (txid : String)
      → IsKeyed s.cell_txs
      → (cell_at (delete_attempt s g c) g' c'
          ≡ (if same_key g c g' c' then unless is_attempt (cell_at s g' c') else cell_at s g' c'))
        × (Option.map (λ t. cell_at t g' c') (delete_rejection s g c txid) ≡ (
            if is_empty txid
            then none
            else some (
                if same_key g c g' c'
                then unless (is_rejection txid) (cell_at s g' c')
                else cell_at s g' c')))
        × (cell_at (delete_unsigned_rejection s g c) g' c' ≡ (
            if same_key g c g' c'
            then unless is_unsigned_rejection (cell_at s g' c')
            else cell_at s g' c'))
  unfolding cell_at delete_attempt delete_rejection delete_unsigned_rejection detail
  delete-cell_at txid h = (
    cell_at-delete_rows g c g' c' is_attempt s.cell_txs h,
    elim (Bool-cases (is_empty txid)) [
      | inl e ↦ rw e
      | inr e ↦ rw e (ap some (cell_at-delete_rows g c g' c' (is_rejection txid) s.cell_txs h))
    ],
    cell_at-delete_rows g c g' c' is_unsigned_rejection s.cell_txs h,
  )
