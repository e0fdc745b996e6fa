-- ===== src/History/Write.antt =====
-- internal/history/history.go: `RecordTx`, `UpdateStatus` and `UpdateStatusBatch`.
use rule_110_arcade.Base.{
  ℕ, ◌≡◌, refl, sym, ap, ◌∙◌, arith, false, Option, none, some, List, [], ◌∷◌, String,
  if◌then◌else◌, str_eq, str_eq_iff, if_path, Bool-cases, inl, inr,
}
use mathlib.Core.Path.{ap₂}
use rule_110_arcade.History.{Status, CellTx, Store, has_key, find_key, detail, detail?, cell_at}

unfoldable pub upsert : CellTx → List CellTx → List CellTx
upsert t [] = t ∷ []
upsert t (u ∷ us) =
    let rest = upsert t us in
    if has_key t.generation t.cell u
    then record u { txid = t.txid; status = t.status; err = t.err; updated_at = t.updated_at } ∷ us
    else u ∷ rest

-- INSERT … ON CONFLICT (generation, cell) DO UPDATE
unfoldable pub record_tx : Store → CellTx → Store
unfolding upsert
record_tx s tx = record s { cell_txs = upsert tx s.cell_txs }

pub record StatusUpdate : Type 0 where
  pub txid : String
  pub status : Status
  pub err : String

unfoldable pub assign : StatusUpdate → ℕ → CellTx → CellTx
assign u now t = record t { status = u.status; err = u.err; updated_at = now }

-- UPDATE cell_txs SET … WHERE txid = ?
unfoldable pub update_rows : StatusUpdate → ℕ → List CellTx → List CellTx
unfolding assign
update_rows u now [] = []
update_rows u now (t ∷ ts) =
    (if str_eq t.txid u.txid then assign u now t else t) ∷ update_rows u now ts

unfoldable pub update_status : Store → StatusUpdate → ℕ → Store
unfolding update_rows
update_status s u now = record s { cell_txs = update_rows u now s.cell_txs }

-- The row of the VALUES list that a row joins with.
unfoldable pub find_update : String → List StatusUpdate → Option StatusUpdate
find_update id [] = none
find_update id (u ∷ us) = if str_eq id u.txid then some u else find_update id us

unfoldable pub join_row : ℕ → CellTx → Option StatusUpdate → CellTx
join_row now t none = t
join_row now t (some u) = assign u now t

-- UPDATE cell_txs SET … FROM (VALUES …) AS v WHERE cell_txs.txid = v.txid
unfoldable pub join_rows : List StatusUpdate → ℕ → List CellTx → List CellTx
unfolding find_update join_row assign
join_rows us now [] = []
join_rows us now (t ∷ ts) = join_row now t (find_update t.txid us) ∷ join_rows us now ts

-- The SQLite path: one UPDATE for each, in one transaction.
unfoldable pub update_status_batch_tx : Store → List StatusUpdate → ℕ → Store
unfolding update_status
update_status_batch_tx s [] now = s
update_status_batch_tx s (u ∷ us) now = update_status_batch_tx (update_status s u now) us now

unfoldable pub update_status_batch : Store → List StatusUpdate → ℕ → Store
unfolding update_status update_status_batch_tx join_rows
update_status_batch s [] now = s
update_status_batch s (u ∷ []) now = update_status s u now
update_status_batch s (u ∷ v ∷ us) now =
    if s.postgres
    then record s { cell_txs = join_rows (u ∷ v ∷ us) now s.cell_txs }
    else update_status_batch_tx s (u ∷ v ∷ us) now

-- No update of the list is for `id`.
abbrev pub Fresh : String → List StatusUpdate → Type 0
Fresh id [] = Unit {0}
Fresh id (u ∷ us) = (str_eq id u.txid ≡ false) × Fresh id us

-- The txids of a batch differ, as its caller makes sure.
abbrev pub IsDistinct : List StatusUpdate → Type 0
IsDistinct [] = Unit {0}
IsDistinct (u ∷ us) = Fresh u.txid us × IsDistinct us

find_update-Fresh : (id : String) (us : List StatusUpdate) → Fresh id us → find_update id us ≡ none
unfolding find_update
find_update-Fresh id [] h = refl
find_update-Fresh id (u ∷ us) h = rw (h.0) (find_update-Fresh id us h.1)

join_row-assign :
    (u : StatusUpdate) (us : List StatusUpdate) (now : ℕ) (t : CellTx)
    → Fresh u.txid us
    → join_row now
        (if str_eq t.txid u.txid then assign u now t else t)
        (find_update (if str_eq t.txid u.txid then assign u now t else t).txid us)
      ≡ join_row now t (find_update t.txid (u ∷ us))
unfolding find_update join_row assign
join_row-assign u us now t h = elim (Bool-cases (str_eq t.txid u.txid)) [
  | inl e ↦ rw (e, (str_eq_iff t.txid u.txid).0 e, find_update-Fresh u.txid us h)
  | inr e ↦ rw e
]

-- The join over one more update is its own UPDATE first.
join_rows-cons :
    (u : StatusUpdate) (us : List StatusUpdate) (now : ℕ) (ts : List CellTx)
    → Fresh u.txid us
    → join_rows us now (update_rows u now ts) ≡ join_rows (u ∷ us) now ts
unfolding join_rows update_rows find_update assign
join_rows-cons u us now [] h = refl
join_rows-cons u us now (t ∷ ts) h =
    ap₂ ◌∷◌ (join_row-assign u us now t h) (join_rows-cons u us now ts h)

pub join_rows-nil : (now : ℕ) (ts : List CellTx) → join_rows [] now ts ≡ ts
unfolding join_rows find_update join_row
join_rows-nil now [] = refl
join_rows-nil now (t ∷ ts) = ap (λ r. t ∷ r) (join_rows-nil now ts)

pub batch_tx-join :
    (s : Store) (us : List StatusUpdate) (now : ℕ)
    → IsDistinct us
    → update_status_batch_tx s us now ≡ record s { cell_txs = join_rows us now s.cell_txs }
unfolding update_status_batch_tx update_status
batch_tx-join s [] now h = rw (join_rows-nil now s.cell_txs)
batch_tx-join s (u ∷ us) now h =
    batch_tx-join (update_status s u now) us now h.1
    ∙ ap (λ ts. record s { cell_txs = ts }) (join_rows-cons u us now s.cell_txs h.0)

-- A batch of updates with distinct transaction ids leaves the store that the single updates leave one
-- after the other, on either database: the one statement, the transaction of single updates and the
-- shortcuts for none and one agree.
pub update_status_batch-each :
    (s : Store) (us : List StatusUpdate) (now : ℕ)
    → IsDistinct us
    → update_status_batch s us now ≡ update_status_batch_tx s us now
unfolding update_status_batch
update_status_batch-each s [] now h = unfold update_status_batch_tx in refl
update_status_batch-each s (u ∷ []) now h = unfold update_status_batch_tx in refl
update_status_batch-each s (u ∷ v ∷ us) now h =
    if_path s.postgres _ _ (sym (batch_tx-join s (u ∷ v ∷ us) now h))

find_key-upsert :
    (g c : ℕ) (t : CellTx) (ts : List CellTx)
    → detail? (find_key g c (upsert t ts))
      ≡ (if has_key g c t then some (detail t) else detail? (find_key g c ts))
unfolding upsert detail? detail
find_key-upsert g c t [] = ground arith
find_key-upsert g c t (u ∷ us) = ground (arith, find_key-upsert g c t us)

-- After `record_tx` the record of that cell in that generation is the new one, whatever stood there,
-- and the record of every other pair is what it was.
pub record_tx-cell_at :
    (s : Store) (tx : CellTx) (generation cell : ℕ)
    → cell_at (record_tx s tx) generation cell ≡ (
        if has_key generation cell tx
        then some (record { txid = tx.txid; status = tx.status; err = tx.err })
        else cell_at s generation cell)
unfolding record_tx cell_at detail
record_tx-cell_at s tx generation cell = find_key-upsert generation cell tx s.cell_txs
