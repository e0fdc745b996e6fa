-- ===== src/Engine/Status.antt =====
-- internal/engine/status.go: the events of the network, applied to the cells they are about. `words`
-- gives the text of a status constant.
pub mod Cells
pub mod Ahead
pub mod Reasons
pub mod Again
use Prim.Native.String.{◌++◌ as join}
use rule_110_arcade.Base.{
  ℕ, ◌≤◌, Bool, true, false, ◌||◌, Option, none, some, List, [], ◌∷◌, ◌++◌, String, ltb, leb,
  if◌then◌else◌, put, get_elem?, set, str_eq, is_empty,
}
use rule_110_arcade.Chain.Oracle.{
  ArcadeStatus, seen_on_network, seen_multiple_nodes, accepted_by_network, mined, immutable,
  rejected, double_spend_attempted, pending_retry, other,
}
use rule_110_arcade.History.{Store, is_terminal, failed}
use rule_110_arcade.History.Write.{StatusUpdate, update_status}
use rule_110_arcade.Engine.Runtime.{
  TxState, tx_pending, tx_broadcast, tx_seen, tx_mined, tx_failed, tx_other, status_of, CellTx,
  Generation, TxLoc, Runtime,
}
use rule_110_arcade.Engine.Window.{index_of_generation, put_generation}
use rule_110_arcade.Engine.Refusals.{note_refusal_locked}

unfoldable pub state_for : ArcadeStatus → Option TxState
state_for seen_on_network = some tx_seen
state_for seen_multiple_nodes = some tx_seen
state_for accepted_by_network = some tx_seen
state_for mined = some tx_mined
state_for immutable = some tx_mined
state_for rejected = some tx_failed
state_for double_spend_attempted = some tx_failed
state_for pending_retry = none
state_for (other s) = none

unfoldable pub rank : TxState → ℕ
rank tx_pending = 0
rank tx_broadcast = 1
rank tx_seen = 2
rank tx_mined = 3
rank tx_failed = 4
rank (tx_other s) = 0

abbrev pub is_tx_failed : TxState → Bool
is_tx_failed tx_failed = true
is_tx_failed _ = false

abbrev pub is_tx_mined : TxState → Bool
is_tx_mined tx_mined = true
is_tx_mined _ = false

abbrev pub is_tx_seen : TxState → Bool
is_tx_seen tx_seen = true
is_tx_seen _ = false

-- The fields of arcade.TxRecord that are read, and the time at which the record is applied.
pub record TxRecord : Type 0 where
  pub txid : String
  pub status : ArcadeStatus
  pub extra_info : String
  pub at : ℕ

pub record Pending : Type 0 where
  pub rec : TxRecord
  pub next : TxState

-- The writes for the store, and the transactions and cells whose reason is asked for.
pub record Applied : Type 0 where
  pub runtime : Runtime
  pub writes : List StatusUpdate
  pub reasons : List (String × ℕ)

unfoldable pub forget_tx : Runtime → String → Runtime
forget_tx e txid = record e { tx_index = λ id. if str_eq id txid then none else e.tx_index id }

unfoldable pub index_tx : Runtime → String → ℕ → ℕ → Runtime
index_tx e txid generation cell = record e {
  tx_index = λ id.
      if str_eq id txid
      then some (record { generation = generation; cell = cell })
      else e.tx_index id;
}

-- The first pass.
unfoldable pub pick : Runtime → TxRecord → Option TxState → List Pending → List Pending
pick e rec none work = work
pick e rec (some next) work = elim (e.tx_index rec.txid) [
  | none ↦ work
  | some _ ↦ record { rec = rec; next = next } ∷ work
]

unfoldable pub select_work : Runtime → List TxRecord → List Pending
unfolding state_for pick
select_work e [] = []
select_work e (rec ∷ recs) = pick e rec (state_for rec.status) (select_work e recs)

-- The writes to lastMined and lastSeen.
unfoldable pub release_gates : Runtime → TxLoc → TxState → Runtime
release_gates e loc next =
    let mined = e.engine.last_mined in
    let seen = e.engine.last_seen in
    record e {
      engine = record e.engine {
        last_mined =
            if (if is_tx_mined next then ltb (mined loc.cell) loc.generation else false)
            then put mined loc.cell loc.generation
            else mined;
        last_seen =
            if (if is_tx_seen next || is_tx_mined next
              then ltb (seen loc.cell) loc.generation
              else false)
            then put seen loc.cell loc.generation
            else seen;
      };
    }

unfoldable pub entry : Generation → Option CellTx → Option (Generation × CellTx)
entry g none = none
entry g (some c) = some (g, c)

unfoldable pub entry_of : Option Generation → ℕ → Option (Generation × CellTx)
unfolding entry
entry_of none cell = none
entry_of (some g) cell = entry g (get_elem? g.cells cell)

-- The entry of the window for a location: its generation and its cell.
unfoldable pub cell_in_window : List Generation → TxLoc → Option (Generation × CellTx)
unfolding index_of_generation entry_of
cell_in_window gens loc = entry_of (index_of_generation gens loc.generation) loc.cell

unfoldable pub write_cell : List Generation → Generation → ℕ → CellTx → List Generation
unfolding put_generation
write_cell gens g cell c = put_generation (record g { cells = set g.cells cell c }) gens

module _ (words : ArcadeStatus → String) where
  unfoldable pub rejection_message : ArcadeStatus → String → String
  rejection_message status extra =
      let msg : String = join "arcade: " (words status) in
      if is_empty extra then msg else join (join msg ": ") extra

  -- The part of the second pass for a cell that is in the window.
  unfoldable pub settle :
      Runtime → TxRecord → TxState → TxLoc → Generation → CellTx → String → Applied
  unfolding rank write_cell forget_tx note_refusal_locked
  settle e rec next loc g c err =
      if leb (rank next) (rank c.state)
      then record { runtime = e; writes = []; reasons = [] }
      else (let c' : CellTx = record c {
        state = next;
        err = if is_tx_failed next then err else c.err;
      } in
          let shown : Runtime = record e { history = write_cell e.history g loc.cell c' } in
          let kept : Runtime =
            if is_terminal (status_of next) then forget_tx shown rec.txid else shown in
          record {
            runtime =
                if is_tx_failed next
                then note_refusal_locked kept loc.cell loc.generation rec.at rec.status err
                else kept;
            writes = record { txid = rec.txid; status = status_of next; err = err } ∷ [];
            reasons =
                if is_tx_failed next
                then (if is_empty rec.extra_info then (rec.txid, loc.cell) ∷ [] else [])
                else [];
          })

  -- The part of the second pass after the gates are released.
  unfoldable pub apply_found :
      Runtime → TxRecord → TxState → TxLoc → String → Option (Generation × CellTx) → Applied
  unfolding settle forget_tx is_terminal status_of
  apply_found e rec next loc err none = record {
    runtime = if is_terminal (status_of next) then forget_tx e rec.txid else e;
    writes = record { txid = rec.txid; status = status_of next; err = err } ∷ [];
    reasons = [];
  }
  apply_found e rec next loc err (some (g, c)) = settle e rec next loc g c err

  unfoldable pub apply_at : Runtime → TxRecord → TxState → TxLoc → Applied
  unfolding rejection_message release_gates cell_in_window apply_found
  apply_at e rec next loc =
      let err : String =
        if is_tx_failed next then rejection_message rec.status rec.extra_info else "" in
      let open_ = release_gates e loc next in
      apply_found open_ rec next loc err (cell_in_window open_.history loc)

  -- One turn of the second pass, which looks the transaction up again.
  unfoldable pub apply_pending : Runtime → Pending → Applied
  unfolding apply_at
  apply_pending e w = elim (e.tx_index w.rec.txid) [
    | none ↦ record { runtime = e; writes = []; reasons = [] }
    | some loc ↦ apply_at e w.rec w.next loc
  ]

  unfoldable pub apply_work : Runtime → List Pending → Applied
  unfolding apply_pending
  apply_work e [] = record { runtime = e; writes = []; reasons = [] }
  apply_work e (w ∷ work) =
      let first = apply_pending e w in
      let rest = apply_work first.runtime work in
      record {
        runtime = rest.runtime;
        writes = first.writes ++ rest.writes;
        reasons = first.reasons ++ rest.reasons;
      }

  unfoldable pub apply_status_batch : Runtime → List TxRecord → Applied
  unfolding apply_work select_work
  apply_status_batch e recs = apply_work e (select_work e recs)

  -- `fetchRejectionReason` after the network's answer, if it gave one; `none` is a panic.
  unfoldable pub show_reason : Runtime → String → String → Option Runtime
  unfolding write_cell
  show_reason e txid reason = elim (e.tx_index txid) [
    | none ↦ some e
    | some loc ↦ elim (index_of_generation e.history loc.generation) [
      | none ↦ some e
      | some g ↦ elim (get_elem? g.cells loc.cell) [
        | none ↦ none
        | some c ↦
            some
              (record e { history = write_cell e.history g loc.cell (record c { err = reason }) })
      ]
    ]
  ]

  unfoldable pub fetch_rejection_reason :
      Runtime → Store → String → ℕ → Option TxRecord → Option (Runtime × Store)
  unfolding rejection_message show_reason update_status
  fetch_rejection_reason e s txid now none = some (e, s)
  fetch_rejection_reason e s txid now (some rec) =
      if is_empty rec.extra_info
      then some (e, s)
      else (let reason = rejection_message rec.status rec.extra_info in
          elim (show_reason e txid reason) [
            | none ↦ none
            | some e' ↦
                some
                  (e', update_status s (record { txid = txid; status = failed; err = reason }) now)
          ])
