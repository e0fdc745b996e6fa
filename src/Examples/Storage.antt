-- ===== src/Examples/Storage.antt =====
-- A store of four records: writes, deletes, batches and the lease.
use rule_110_arcade.Base.{
  ℕ, ◌≡◌, ◌≢◌, refl, arith, true, false, none, some, List, [], ◌∷◌, String, if◌then◌else◌, is_empty,
  str_eq, str_eq_refl,
}
use mathlib.Core.Option
use rule_110_arcade.History.{
  Status, attempting, broadcast, seen, mined, failed, CellTx, Store, cell_at,
}
use rule_110_arcade.History.Write.{
  StatusUpdate, IsDistinct, update_status_batch, update_status_batch_tx, update_status_batch-each,
}
use rule_110_arcade.History.Delete.{
  delete_attempt, delete_rejection, delete_unsigned_rejection, IsKeyed, same_key, unless,
  is_attempt, is_rejection, is_unsigned_rejection, delete-cell_at,
}
use rule_110_arcade.History.Keys.{Write, put_tx, put_status, drop_attempt}
use rule_110_arcade.History.Election.Exclusion.{acquire_lease_exclusive}
use rule_110_arcade.History.Election.{acquire_lease, Op, acquire, release, run_ops, Respects}

abbrev pub row_of : ℕ → ℕ → String → Status → CellTx
row_of g c id st = record {
  generation = g;
  cell = c;
  txid = id;
  status = st;
  err = "";
  updated_at = 0;
}

abbrev pub store : Store
store = record {
  generations = [];
  cell_txs =
      row_of 2 0 "c2" mined
      ∷ row_of 3 0 "c3" failed
      ∷ row_of 4 0 "" attempting
      ∷ row_of 2 1 "d2" seen
      ∷ [];
  leases = [];
  postgres = true;
}

pub store-IsKeyed : IsKeyed store.cell_txs
store-IsKeyed = (refl, (refl, (refl, (refl, tt))))

abbrev update : String → Status → StatusUpdate
update id st = record { txid = id; status = st; err = "" }

abbrev batch : List StatusUpdate
batch = update "c3" seen ∷ update "d2" mined ∷ []

batch-IsDistinct : IsDistinct batch
batch-IsDistinct = ((refl, tt), (tt, tt))

update_status_batch-each_example :
    update_status_batch store batch 7 ≡ update_status_batch_tx store batch 7
update_status_batch-each_example = update_status_batch-each store batch 7 batch-IsDistinct

delete-cell_at_example :
    (cell_at (delete_attempt store 4 0) 4 0
      ≡ (if same_key 4 0 4 0 then unless is_attempt (cell_at store 4 0) else cell_at store 4 0))
    × (Option.map (λ t. cell_at t 4 0) (delete_rejection store 4 0 "c3") ≡ (
        if is_empty "c3"
        then none
        else some (
            if same_key 4 0 4 0
            then unless (is_rejection "c3") (cell_at store 4 0)
            else cell_at store 4 0)))
    × (cell_at (delete_unsigned_rejection store 4 0) 4 0 ≡ (
        if same_key 4 0 4 0
        then unless is_unsigned_rejection (cell_at store 4 0)
        else cell_at store 4 0))
delete-cell_at_example = delete-cell_at store 4 0 4 0 "c3" store-IsKeyed

abbrev writes : List Write
writes =
    put_tx (row_of 4 0 "c4" broadcast) ∷ put_status (update "c4" mined) 9 ∷ drop_attempt 4 0 ∷ []

abbrev tries : List Op
tries = acquire "writer" "b" 30 110 ∷ acquire "writer" "a" 30 115 ∷ release "writer" "b" ∷ []

held : (acquire_lease store "writer" "a" 30 100).1 ≡ true
unfolding acquire_lease
held = refl

apart : (s t : String) → str_eq s t ≡ false → s ≢ t
apart s t e p = cc (e, str_eq_refl t, p)

tries-Respects : Respects "writer" "a" 130 tries
tries-Respects = (
  omega arith,
  λ e. absurd (apart "b" "a" refl e),
  (omega arith, λ e. omega arith, (λ e. apart "b" "a" refl, tt)),
)

acquire_lease_exclusive_example :
    (acquire_lease
      (run_ops (acquire_lease store "writer" "a" 30 100).0 tries)
      "writer"
      "b"
      60
      129).1
    ≡ false
acquire_lease_exclusive_example =
    acquire_lease_exclusive store "writer" "a" "b" 30 100 60 129 tries held tries-Respects
      (omega arith) (apart "b" "a" refl)
