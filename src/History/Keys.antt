-- ===== src/History/Keys.antt =====
-- internal/history/history.go: every write keeps the primary key of cell_txs.
use rule_110_arcade.Base.{
  ℕ, ◌≡◌, refl, arith, Bool, false, Option, none, some, List, [], ◌∷◌, String, str_eq, is_empty,
  if_either, Bool-cases, inl, inr,
}
use rule_110_arcade.History.{CellTx, Store, has_key, find_key}
use rule_110_arcade.History.Write.{
  StatusUpdate, assign, upsert, record_tx, update_rows, update_status, find_update, join_row,
  join_rows, update_status_batch_tx, update_status_batch,
}
use rule_110_arcade.History.Delete.{
  IsKeyed, delete_rows, delete_attempt, delete_rejection, delete_unsigned_rejection,
}

-- A pair that no row has is not there after the write either.
find_key-upsert-none :
    (g c : ℕ) (t : CellTx) (ts : List CellTx)
    → find_key g c ts ≡ none
    → has_key g c t ≡ false
    → find_key g c (upsert t ts) ≡ none
unfolding upsert
find_key-upsert-none g c t [] h e = rw e
find_key-upsert-none g c t (u ∷ us) h e = ground (arith, find_key-upsert-none g c t us)

pub upsert-IsKeyed : (t : CellTx) (ts : List CellTx) → IsKeyed ts → IsKeyed (upsert t ts)
unfolding upsert
upsert-IsKeyed t [] h = (refl, tt)
upsert-IsKeyed t (u ∷ us) h = elim (Bool-cases (has_key t.generation t.cell u)) [
  | inl e ↦ rw e h
  | inr e ↦
      rw e
        (find_key-upsert-none u.generation u.cell t us h.0 (ground arith), upsert-IsKeyed t us h.1)
]

find_key-update_rows :
    (g c : ℕ) (u : StatusUpdate) (now : ℕ) (ts : List CellTx)
    → find_key g c ts ≡ none
    → find_key g c (update_rows u now ts) ≡ none
unfolding update_rows assign
find_key-update_rows g c u now [] h = refl
find_key-update_rows g c u now (t ∷ ts) h = ground (arith, find_key-update_rows g c u now ts)

update_rows-IsKeyed :
    (u : StatusUpdate) (now : ℕ) (ts : List CellTx) → IsKeyed ts → IsKeyed (update_rows u now ts)
unfolding update_rows assign
update_rows-IsKeyed u now [] h = tt
update_rows-IsKeyed u now (t ∷ ts) h = elim (Bool-cases (str_eq t.txid u.txid)) [
  | inl e ↦
      rw e (find_key-update_rows t.generation t.cell u now ts h.0, update_rows-IsKeyed u now ts h.1)
  | inr e ↦
      rw e (find_key-update_rows t.generation t.cell u now ts h.0, update_rows-IsKeyed u now ts h.1)
]

-- A join keeps the two columns of the key.
join_row-key :
    (now : ℕ) (t : CellTx) (o : Option StatusUpdate)
    → ((join_row now t o).generation ≡ t.generation) × ((join_row now t o).cell ≡ t.cell)
unfolding join_row assign
join_row-key now t none = (refl, refl)
join_row-key now t (some u) = (refl, refl)

find_key-join_rows :
    (g c : ℕ) (us : List StatusUpdate) (now : ℕ) (ts : List CellTx)
    → find_key g c ts ≡ none
    → find_key g c (join_rows us now ts) ≡ none
unfolding join_rows
find_key-join_rows g c us now [] h = refl
find_key-join_rows g c us now (t ∷ ts) h =
    ground (arith, join_row-key now t (find_update t.txid us), find_key-join_rows g c us now ts)

join_rows-IsKeyed :
    (us : List StatusUpdate) (now : ℕ) (ts : List CellTx)
    → IsKeyed ts
    → IsKeyed (join_rows us now ts)
unfolding join_rows
join_rows-IsKeyed us now [] h = tt
join_rows-IsKeyed us now (t ∷ ts) h =
    let k = join_row-key now t (find_update t.txid us) in
    (
      rw (k.0, k.1) (find_key-join_rows t.generation t.cell us now ts h.0),
      join_rows-IsKeyed us now ts h.1,
    )

find_key-delete_none :
    (g c : ℕ) (p : CellTx → Bool) (ts : List CellTx)
    → find_key g c ts ≡ none
    → find_key g c (delete_rows p ts) ≡ none
unfolding delete_rows
find_key-delete_none g c p [] h = refl
find_key-delete_none g c p (t ∷ ts) h = ground (arith, find_key-delete_none g c p ts)

delete_rows-IsKeyed :
    (p : CellTx → Bool) (ts : List CellTx) → IsKeyed ts → IsKeyed (delete_rows p ts)
unfolding delete_rows
delete_rows-IsKeyed p [] h = tt
delete_rows-IsKeyed p (t ∷ ts) h = elim (Bool-cases (p t)) [
  | inl e ↦ rw e (delete_rows-IsKeyed p ts h.1)
  | inr e ↦ rw e (find_key-delete_none t.generation t.cell p ts h.0, delete_rows-IsKeyed p ts h.1)
]

batch_tx-IsKeyed :
    (s : Store) (us : List StatusUpdate) (now : ℕ)
    → IsKeyed s.cell_txs
    → IsKeyed (update_status_batch_tx s us now).cell_txs
unfolding update_status_batch_tx update_status
batch_tx-IsKeyed s [] now h = h
batch_tx-IsKeyed s (u ∷ us) now h =
    batch_tx-IsKeyed (update_status s u now) us now (update_rows-IsKeyed u now s.cell_txs h)

batch-IsKeyed :
    (s : Store) (us : List StatusUpdate) (now : ℕ)
    → IsKeyed s.cell_txs
    → IsKeyed (update_status_batch s us now).cell_txs
unfolding update_status_batch update_status
batch-IsKeyed s [] now h = h
batch-IsKeyed s (u ∷ []) now h = update_rows-IsKeyed u now s.cell_txs h
batch-IsKeyed s (u ∷ v ∷ us) now h =
    if_either (λ (t : Store). IsKeyed t.cell_txs) s.postgres _ _
      (join_rows-IsKeyed (u ∷ v ∷ us) now s.cell_txs h) (batch_tx-IsKeyed s (u ∷ v ∷ us) now h)

-- What a caller asks the store to write.
pub data Write : Type 0 where
  put_tx : CellTx → Write
  put_status : StatusUpdate → ℕ → Write
  put_statuses : List StatusUpdate → ℕ → Write
  drop_attempt : ℕ → ℕ → Write
  drop_rejection : ℕ → ℕ → String → Write
  drop_unsigned : ℕ → ℕ → Write

kept : Store → Option Store → Store
kept s none = s
kept s (some t) = t

-- A refused write leaves the store.
unfoldable pub apply : Store → Write → Store
unfolding kept
apply s (put_tx t) = record_tx s t
apply s (put_status u now) = update_status s u now
apply s (put_statuses us now) = update_status_batch s us now
apply s (drop_attempt g c) = delete_attempt s g c
apply s (drop_rejection g c txid) = kept s (delete_rejection s g c txid)
apply s (drop_unsigned g c) = delete_unsigned_rejection s g c

unfoldable pub apply_all : Store → List Write → Store
unfolding apply
apply_all s [] = s
apply_all s (w ∷ ws) = apply_all (apply s w) ws

apply-IsKeyed : (s : Store) (w : Write) → IsKeyed s.cell_txs → IsKeyed (apply s w).cell_txs
unfolding apply record_tx update_status delete_attempt delete_rejection delete_unsigned_rejection
apply-IsKeyed s (put_tx t) h = upsert-IsKeyed t s.cell_txs h
apply-IsKeyed s (put_status u now) h = update_rows-IsKeyed u now s.cell_txs h
apply-IsKeyed s (put_statuses us now) h = batch-IsKeyed s us now h
apply-IsKeyed s (drop_attempt g c) h = delete_rows-IsKeyed _ s.cell_txs h
apply-IsKeyed s (drop_rejection g c txid) h = elim (Bool-cases (is_empty txid)) [
  | inl e ↦ rw e h
  | inr e ↦ rw e (delete_rows-IsKeyed _ s.cell_txs h)
]
apply-IsKeyed s (drop_unsigned g c) h = delete_rows-IsKeyed _ s.cell_txs h

-- After any sequence of writes to a table with at most one row for each generation and cell, there is
-- still at most one.
pub apply_all-IsKeyed :
    (s : Store) (ws : List Write) → IsKeyed s.cell_txs → IsKeyed (apply_all s ws).cell_txs
unfolding apply_all
apply_all-IsKeyed s [] h = h
apply_all-IsKeyed s (w ∷ ws) h = apply_all-IsKeyed (apply s w) ws (apply-IsKeyed s w h)
