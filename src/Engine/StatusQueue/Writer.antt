-- ===== src/Engine/StatusQueue/Writer.antt =====
-- internal/engine/status.go: what the writer leaves in the store.
use rule_110_arcade.Base.{
  ℕ, zero, suc, ◌<◌, ◌≤◌, false, Bool-cases, inl, inr, ◌≡◌, refl, sym, ap, ◌∙◌, arith, Bool, true,
  some, List, [], ◌∷◌, ◌++◌, leb, length, ◌⊎◌,
}
use rule_110_arcade.History.{Store}
use rule_110_arcade.History.Write.{
  StatusUpdate, update_status, update_status_batch, update_status_batch_tx, IsDistinct,
  update_status_batch-each, batch_tx-join, join_rows-nil,
}
use rule_110_arcade.Engine.StatusQueue.{
  status_write_max, add, drain, linger, Selected, done, received, collect_done,
  collect_status_writes, write_statuses,
}
use rule_110_arcade.Engine.StatusQueue.Batch.{
  with_rows, add-IsDistinct, IsTaken, IsTaken-add, length-add_le, drain-IsTaken, linger-IsTaken,
  drain-bound, linger-bound, linger-shorter, drain-rest, drain-progress,
}

-- What a turn owes for the queue that it found: a batch that is not too long, of distinct
-- transactions, and worth in any store the updates that it took off the queue's front one after the
-- other; it has taken something and asks for another turn, or it has emptied the queue and ends the
-- writer.
pub record IsCollected (queue batch rest : List StatusUpdate) (more : Bool) : Type 0 where
  pub bounded : length batch ≤ status_write_max
  pub distinct : IsDistinct batch
  pub taken : List StatusUpdate
  pub split : taken ++ rest ≡ queue
  pub each :
      (s : Store) (now : ℕ) → update_status_batch s batch now ≡ update_status_batch_tx s taken now
  pub ends : ((more ≡ true) × (length rest < length queue)) ⊎ ((more ≡ false) × (rest ≡ []))

-- Writing a batch of what was taken from an empty one.
IsTaken-written :
    (batch queue rest : List StatusUpdate) (t : IsTaken [] queue batch rest) (s : Store) (now : ℕ)
    → update_status_batch s batch now ≡ update_status_batch_tx s t.taken now
IsTaken-written batch queue rest t s now =
    update_status_batch-each s batch now t.distinct
    ∙ batch_tx-join s batch now t.distinct
    ∙ t.each s now
    ∙ ap (λ ts. update_status_batch_tx (with_rows s ts) t.taken now) (join_rows-nil now s.cell_txs)

IsTaken-IsCollected :
    (queue batch rest : List StatusUpdate) (more : Bool)
    → IsTaken [] queue batch rest
    → length batch ≤ status_write_max
    → ((more ≡ true) × (length rest < length queue)) ⊎ ((more ≡ false) × (rest ≡ []))
    → IsCollected queue batch rest more
IsTaken-IsCollected queue batch rest more t h e = record {
  bounded = h;
  distinct = t.distinct;
  taken = t.taken;
  split = t.split;
  each = IsTaken-written batch queue rest t;
  ends = e;
}

collect_done-IsCollected :
    (queue : List StatusUpdate)
    → IsCollected queue (collect_done queue).0 (collect_done queue).1 (collect_done queue).2
unfolding collect_done
collect_done-IsCollected queue =
    let batch = (drain [] queue).0 in
    IsTaken-IsCollected queue batch (drain [] queue).1 (leb status_write_max (length batch))
      (drain-IsTaken [] queue tt) (drain-bound [] queue (omega arith))
      (elim (Bool-cases (leb status_write_max (length batch))) [
        | inl full ↦ inl (full, drain-progress queue full)
        | inr open_ ↦ inr (open_, drain-rest [] queue open_)
      ])

-- Whatever the selects of a turn take: the batch has at most 512 updates, of distinct transactions,
-- and writing it on either database is writing the updates that it took off the queue's front one
-- after the other, a later one of a transaction over an earlier; and the turn has taken something
-- and asks for another, or has emptied the queue and ends the writer.
pub collect_status_writes-each :
    (first : Selected) (queue : List StatusUpdate)
    → let r = collect_status_writes first queue in IsCollected queue r.0 r.1 r.2
unfolding collect_status_writes
collect_status_writes-each done queue = collect_done-IsCollected queue
collect_status_writes-each (received more) [] = collect_done-IsCollected []
collect_status_writes-each (received more) (u ∷ queue) =
    let one : IsDistinct (add [] u) = add-IsDistinct [] u tt in
    IsTaken-IsCollected (u ∷ queue) (linger more (add [] u) queue).0
      (linger more (add [] u) queue).1 true
      (IsTaken-add [] u queue _ _ (linger-IsTaken more (add [] u) queue one))
      (linger-bound more (add [] u) queue (omega (arith, length-add_le [] u)))
      (inl (refl, omega (arith, linger-shorter more (add [] u) queue)))

update_status_batch_tx-append :
    (s : Store) (us vs : List StatusUpdate) (now : ℕ)
    → update_status_batch_tx (update_status_batch_tx s us now) vs now
      ≡ update_status_batch_tx s (us ++ vs) now
unfolding update_status_batch_tx
update_status_batch_tx-append s [] vs now = refl
update_status_batch_tx-append s (u ∷ us) vs now =
    update_status_batch_tx-append (update_status s u now) us vs now

append-nil : (us vs : List StatusUpdate) → vs ≡ [] → us ++ vs ≡ us
append-nil [] vs e = e
append-nil (u ∷ us) vs e = ap (λ r. u ∷ r) (append-nil us vs e)

-- Once its context is done, and whatever each select takes, the writer ends within as many turns as
-- there are queued writes and one more, and the store is then the one that the queued updates leave
-- one after the other: none of them is lost.
pub write_statuses-each :
    (schedule : ℕ → Selected) (fuel : ℕ) (s : Store) (now : ℕ) (queue : List StatusUpdate)
    → length queue < fuel
    → write_statuses schedule fuel s now queue ≡ some (update_status_batch_tx s queue now)
unfolding write_statuses
write_statuses-each schedule zero s now queue h = absurd (omega arith)
write_statuses-each schedule (suc fuel) s now queue h =
    let r = collect_status_writes (schedule fuel) queue in
    let c = collect_status_writes-each (schedule fuel) queue in
    elim c.ends [
      | inl (more, shorter) ↦ rw (more) (
          write_statuses-each schedule fuel (update_status_batch s r.0 now) now r.1
            (omega (arith, h, shorter))
          ∙ ap (λ t. some (update_status_batch_tx t r.1 now)) (c.each s now)
          ∙ ap some (update_status_batch_tx-append s c.taken r.1 now)
          ∙ ap (λ q. some (update_status_batch_tx s q now)) c.split)
      | inr (last, empty) ↦ rw (last) (
          ap some (c.each s now)
          ∙ ap (λ q. some (update_status_batch_tx s q now))
              (sym (append-nil c.taken r.1 empty) ∙ c.split))
    ]
