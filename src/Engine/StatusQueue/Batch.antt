-- ===== src/Engine/StatusQueue/Batch.antt =====
-- internal/engine/status.go: what one batch takes off the queue.
use rule_110_arcade.Base.{
  ℕ, suc, ◌≤◌, ◌<◌, ◌≡◌, refl, ap, ◌∙◌, arith, true, false, Option, none, some, List, [], ◌∷◌, ◌++◌,
  String, leb, ltb, zero, if◌then◌else◌, length, str_eq, str_eq_iff, if_known, if_either,
  leb-false→lt, Bool-cases, inl, inr,
}
use rule_110_arcade.History.{CellTx, Store}
use rule_110_arcade.History.Write.{
  StatusUpdate, assign, update_rows, update_status, find_update, join_row, join_rows,
  update_status_batch_tx, Fresh, IsDistinct,
}
use rule_110_arcade.Engine.StatusQueue.{status_write_max, add, drain, linger}

find_update-add :
    (id : String) (batch : List StatusUpdate) (u : StatusUpdate)
    → find_update id (add batch u) ≡ (if str_eq id u.txid then some u else find_update id batch)
unfolding add find_update
find_update-add id [] u = refl
find_update-add id (b ∷ batch) u = ground (
  arith,
  str_eq_iff b.txid u.txid,
  str_eq_iff id u.txid,
  str_eq_iff id b.txid,
  find_update-add id batch u,
)

Fresh-add :
    (id : String) (batch : List StatusUpdate) (u : StatusUpdate)
    → str_eq id u.txid ≡ false
    → Fresh id batch
    → Fresh id (add batch u)
unfolding add
Fresh-add id [] u ne h = (ne, tt)
Fresh-add id (b ∷ batch) u ne h = elim (Bool-cases (str_eq b.txid u.txid)) [
  | inl e ↦ rw e (ne, h.1)
  | inr e ↦ rw e (h.0, Fresh-add id batch u ne h.1)
]

pub add-IsDistinct :
    (batch : List StatusUpdate) (u : StatusUpdate) → IsDistinct batch → IsDistinct (add batch u)
unfolding add
add-IsDistinct [] u h = (tt, tt)
add-IsDistinct (b ∷ batch) u h = elim (Bool-cases (str_eq b.txid u.txid)) [
  | inl e ↦ rw (e, ← (str_eq_iff b.txid u.txid).0 e) h
  | inr e ↦ rw e (Fresh-add b.txid batch u e h.0, add-IsDistinct batch u h.1)
]

assign-join_row :
    (u : StatusUpdate) (now : ℕ) (t : CellTx) (found : Option StatusUpdate)
    → join_row now t (if str_eq t.txid u.txid then some u else found) ≡ (
        if str_eq (join_row now t found).txid u.txid
        then assign u now (join_row now t found)
        else join_row now t found)
unfolding join_row assign
assign-join_row u now t none = ground arith
assign-join_row u now t (some v) = ground arith

-- One more update in the batch is its own UPDATE after the batch.
join_rows-add :
    (batch : List StatusUpdate) (u : StatusUpdate) (now : ℕ) (ts : List CellTx)
    → join_rows (add batch u) now ts ≡ update_rows u now (join_rows batch now ts)
unfolding join_rows update_rows
join_rows-add batch u now [] = refl
join_rows-add batch u now (t ∷ ts) =
    rw (find_update-add t.txid batch u, join_rows-add batch u now ts)
      (ap (λ r. r ∷ update_rows u now (join_rows batch now ts))
        (assign-join_row u now t (find_update t.txid batch)))

abbrev pub with_rows : Store → List CellTx → Store
with_rows s ts = record s { cell_txs = ts }

-- What a turn took off the queue, and what its batch is: of distinct transactions, and worth the taken
-- updates one after the other.
pub record IsTaken (batch queue batch' rest : List StatusUpdate) : Type 0 where
  pub taken : List StatusUpdate
  pub split : taken ++ rest ≡ queue
  pub distinct : IsDistinct batch'
  pub each :
      (s : Store) (now : ℕ)
      → with_rows s (join_rows batch' now s.cell_txs)
        ≡ update_status_batch_tx (with_rows s (join_rows batch now s.cell_txs)) taken now

-- One more update taken first.
pub IsTaken-add :
    (batch : List StatusUpdate) (u : StatusUpdate) (queue batch' rest : List StatusUpdate)
    → IsTaken (add batch u) queue batch' rest
    → IsTaken batch (u ∷ queue) batch' rest
unfolding update_status_batch_tx update_status
IsTaken-add batch u queue batch' rest more = record {
  taken = u ∷ more.taken;
  split = ap (λ r. u ∷ r) more.split;
  distinct = more.distinct;
  each = λ s now.
      more.each s now
      ∙ ap (λ ts. update_status_batch_tx (with_rows s ts) more.taken now)
          (join_rows-add batch u now s.cell_txs);
}

pub drain-IsTaken :
    (batch queue : List StatusUpdate)
    → IsDistinct batch
    → IsTaken batch queue (drain batch queue).0 (drain batch queue).1
unfolding drain update_status_batch_tx update_status
drain-IsTaken batch [] h = record { taken = []; split = refl; distinct = h; each = λ s now. refl }
drain-IsTaken batch (u ∷ queue) h =
    if_known (λ (r : List StatusUpdate × List StatusUpdate). IsTaken batch (u ∷ queue) r.0 r.1)
      (leb status_write_max (length (add batch u))) _ _
      (λ full. record {
        taken = u ∷ [];
        split = refl;
        distinct = add-IsDistinct batch u h;
        each = λ s now. ap (with_rows s) (join_rows-add batch u now s.cell_txs);
      })
      λ open_.
        IsTaken-add batch u queue _ _ (drain-IsTaken (add batch u) queue (add-IsDistinct batch u h))

pub linger-IsTaken :
    (receives : ℕ) (batch queue : List StatusUpdate)
    → IsDistinct batch
    → IsTaken batch queue (linger receives batch queue).0 (linger receives batch queue).1
unfolding linger update_status_batch_tx update_status
linger-IsTaken zero batch queue h = record {
  taken = [];
  split = refl;
  distinct = h;
  each = λ s now. refl;
}
linger-IsTaken (suc receives) batch [] h = record {
  taken = [];
  split = refl;
  distinct = h;
  each = λ s now. refl;
}
linger-IsTaken (suc receives) batch (u ∷ queue) h =
    if_known (λ (r : List StatusUpdate × List StatusUpdate). IsTaken batch (u ∷ queue) r.0 r.1)
      (ltb (length batch) status_write_max) _ _
      (λ room.
        IsTaken-add batch u queue _ _
          (linger-IsTaken receives (add batch u) queue (add-IsDistinct batch u h)))
      (λ full. record { taken = []; split = refl; distinct = h; each = λ s now. refl })

drain-shorter : (batch queue : List StatusUpdate) → length (drain batch queue).1 ≤ length queue
unfolding drain
drain-shorter batch [] = omega arith
drain-shorter batch (u ∷ queue) =
    if_known (λ (r : List StatusUpdate × List StatusUpdate). length r.1 ≤ suc (length queue))
      (leb status_write_max (length (add batch u))) _ _ (λ full. omega arith)
      λ open_. omega (arith, drain-shorter (add batch u) queue)

-- A batch that is not full has emptied the queue.
pub drain-rest :
    (batch queue : List StatusUpdate)
    → leb status_write_max (length (drain batch queue).0) ≡ false
    → (drain batch queue).1 ≡ []
unfolding drain
drain-rest batch [] = λ e. refl
drain-rest batch (u ∷ queue) =
    if_known
      (λ (r : List StatusUpdate × List StatusUpdate).
        leb status_write_max (length r.0) ≡ false → r.1 ≡ [])
      (leb status_write_max (length (add batch u))) _ _ (λ full e. ground arith)
      λ open_. drain-rest (add batch u) queue

pub length-add_le :
    (batch : List StatusUpdate) (u : StatusUpdate) → length (add batch u) ≤ suc (length batch)
unfolding add
length-add_le [] u = omega arith
length-add_le (b ∷ batch) u =
    if_either (λ (r : List StatusUpdate). length r ≤ suc (suc (length batch)))
      (str_eq b.txid u.txid) (u ∷ batch) (b ∷ add batch u) (omega arith)
      (omega (arith, length-add_le batch u))

pub drain-bound :
    (batch queue : List StatusUpdate)
    → length batch < status_write_max
    → length (drain batch queue).0 ≤ status_write_max
unfolding drain
drain-bound batch [] h = omega arith
drain-bound batch (u ∷ queue) h =
    if_known (λ (r : List StatusUpdate × List StatusUpdate). length r.0 ≤ status_write_max)
      (leb status_write_max (length (add batch u))) (add batch u, queue) (drain (add batch u) queue)
      (λ _. omega (arith, length-add_le batch u))
      λ low.
        drain-bound (add batch u) queue (leb-false→lt status_write_max (length (add batch u)) low)

pub linger-bound :
    (receives : ℕ) (batch queue : List StatusUpdate)
    → length batch ≤ status_write_max
    → length (linger receives batch queue).0 ≤ status_write_max
unfolding linger
linger-bound zero batch queue h = h
linger-bound (suc receives) batch [] h = h
linger-bound (suc receives) batch (u ∷ queue) h =
    if_known (λ (r : List StatusUpdate × List StatusUpdate). length r.0 ≤ status_write_max)
      (ltb (length batch) status_write_max) _ _
      (λ room.
        linger-bound receives (add batch u) queue (ground (arith, room, length-add_le batch u)))
      (λ full. h)

pub linger-shorter :
    (receives : ℕ) (batch queue : List StatusUpdate)
    → length (linger receives batch queue).1 ≤ length queue
unfolding linger
linger-shorter zero batch queue = omega arith
linger-shorter (suc receives) batch [] = omega arith
linger-shorter (suc receives) batch (u ∷ queue) =
    if_known (λ (r : List StatusUpdate × List StatusUpdate). length r.1 ≤ suc (length queue))
      (ltb (length batch) status_write_max) _ _
      (λ room. omega (arith, linger-shorter receives (add batch u) queue)) (λ full. omega arith)

-- A full batch has taken something.
pub drain-progress :
    (queue : List StatusUpdate)
    → leb status_write_max (length (drain [] queue).0) ≡ true
    → length (drain [] queue).1 < length queue
unfolding drain
drain-progress [] = λ e. ground arith
drain-progress (u ∷ queue) =
    if_known
      (λ (r : List StatusUpdate × List StatusUpdate).
        leb status_write_max (length r.0) ≡ true → length r.1 < suc (length queue))
      (leb status_write_max (length (add [] u))) (add [] u, queue) (drain (add [] u) queue)
      (λ full e. omega arith) λ open_ e. omega (arith, drain-shorter (add [] u) queue)
