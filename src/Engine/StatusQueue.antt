-- ===== src/Engine/StatusQueue.antt =====
-- internal/engine/status.go: the queue of status writes and its one writer.
pub mod Batch
pub mod Writer
use rule_110_arcade.Base.{
  ℕ, zero, suc, Bool, true, Option, none, some, List, [], ◌∷◌, ◌++◌, ltb, leb, if◌then◌else◌,
  length, str_eq,
}
use rule_110_arcade.History.{Store}
use rule_110_arcade.History.Write.{StatusUpdate, update_status_batch}

abbrev pub status_write_queue : ℕ
status_write_queue = 8192

abbrev pub status_write_max : ℕ
status_write_max = 512

-- A full queue drops the write.
unfoldable pub enqueue_status_writes : List StatusUpdate → List StatusUpdate → List StatusUpdate
enqueue_status_writes queue [] = queue
enqueue_status_writes queue (w ∷ writes) =
    enqueue_status_writes
      (if ltb (length queue) status_write_queue then queue ++ (w ∷ []) else queue) writes

-- `add` of `collectStatusWrites`: its map gives the place of a txid in the batch.
unfoldable pub add : List StatusUpdate → StatusUpdate → List StatusUpdate
add [] u = u ∷ []
add (b ∷ batch) u = let rest = add batch u in if str_eq b.txid u.txid then u ∷ batch else b ∷ rest

-- The loop once the context is done, which takes what is queued.
unfoldable pub drain : List StatusUpdate → List StatusUpdate → List StatusUpdate × List StatusUpdate
unfolding add
drain batch [] = (batch, [])
drain batch (u ∷ queue) =
    let batch' = add batch u in
    let more = drain batch' queue in
    if leb status_write_max (length batch') then (batch', queue) else more

-- The loop that lingers. Its selects receive as many writes as the number says before one of them
-- takes the timer or the context, which it may with writes queued; with none queued no select can
-- receive.
unfoldable pub linger :
    ℕ → List StatusUpdate → List StatusUpdate → List StatusUpdate × List StatusUpdate
unfolding add
linger zero batch queue = (batch, queue)
linger (suc receives) batch [] = (batch, [])
linger (suc receives) batch (u ∷ queue) =
    let more = linger receives (add batch u) queue in
    if ltb (length batch) status_write_max then more else (batch, u ∷ queue)

-- What the first select takes: the context, or a write, after which as many more are received.
pub data Selected : Type 0 where
  done : Selected
  received : ℕ → Selected

unfoldable pub collect_done : List StatusUpdate → List StatusUpdate × List StatusUpdate × Bool
unfolding drain
collect_done queue =
    let (batch, rest) = drain [] queue in (batch, rest, leb status_write_max (length batch))

-- On a context that is done, so that with nothing queued the first select takes the context. The
-- last answer says whether there may be more.
unfoldable pub collect_status_writes :
    Selected → List StatusUpdate → List StatusUpdate × List StatusUpdate × Bool
unfolding collect_done linger
collect_status_writes done queue = collect_done queue
collect_status_writes (received more) [] = collect_done []
collect_status_writes (received more) (u ∷ queue) =
    let (batch, rest) = linger more (add [] u) queue in (batch, rest, true)

-- `writeStatuses` once its context is done, on a store that answers, where `schedule` says what the
-- selects of each turn take. A turn takes at most one unit of fuel.
unfoldable pub write_statuses : (ℕ → Selected) → ℕ → Store → ℕ → List StatusUpdate → Option Store
unfolding collect_status_writes
write_statuses schedule zero s now queue = none
write_statuses schedule (suc fuel) s now queue =
    let (batch, rest, more) = collect_status_writes (schedule fuel) queue in
    let s' = update_status_batch s batch now in
    let later = write_statuses schedule fuel s' now rest in if more then later else some s'
