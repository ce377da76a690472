-- ===== src/Storage/Outbox/Dispatched.antt =====
-- What DispatchBatch (internal/storage/postgres/outbox.go) leaves of a valid outbox.
use go_ledger.Base.{
  ℕ, ◌+◌, ◌≤◌, ◌≡◌, Bool, some, String, List, [], length, All, All-map, inl, inr, ◌⊎◌, &&_left,
}
use go_ledger.Base.Table.{find}
use go_ledger.Domain.Errors.{Uuid, Result, ok, err}
use go_ledger.Outbox.Event.{Event}
use go_ledger.Storage.Database.{Database, find_event}
use go_ledger.Storage.Session.{Env, Session, ack_lost}
use go_ledger.Storage.Outbox.{Publisher, dispatch_batch}
use go_ledger.Storage.Outbox.Due.{
  event_id, IsClaimed, batch_of-Distinct, batch_of-IsClaimed, length-batch_of,
}
use go_ledger.Storage.Outbox.Batch.{
  settled_lookup, settled_all-Valid, find_event-settled_all, length-settled_all, AreCurrent,
}
use go_ledger.Storage.Outbox.Dispatch.{claimed_batch, dispatched_store, Ended, dispatch_batch-Ends}
use go_ledger.Storage.Outbox.Remaining.{remaining, IsPending, settled_all-remaining}
use go_ledger.Storage.Outbox.Settle.{OutboxValid}

-- A claimed batch, settled: the database `db` is what the batch leaves of `before`.
pub record BatchSettled (env : Env) (publish : Publisher) (batch : List Event)
    (before db : Database) : Type 0 where
  pub valid : OutboxValid db
  -- the events of the batch have the row that the publisher's answer gives, the others their own
  pub rows :
      (id : Uuid)
      → find_event id db
        ≡ settled_lookup env publish (find event_id id batch) (find_event id before)
  -- one delivery for each event of the batch
  pub recorded : length db.outbox_deliveries ≡ length batch + length before.outbox_deliveries
  -- and as many attempts fewer to come
  pub fewer : remaining db.outbox_events + length batch ≤ remaining before.outbox_events

module _ (env : Env) (held : Uuid → Bool) (limit : ℕ) (publish : Publisher) (s : Session)
    (valid : OutboxValid s.store) where
  abbrev batch : List Event
  batch = claimed_batch env held limit publish s

  batch-AreCurrent : AreCurrent s.store batch
  batch-AreCurrent =
      All-map batch (λ (e : Event) (claimed : IsClaimed env held s.store e). claimed.current)
        (batch_of-IsClaimed env held limit s.store valid.distinct)

  batch-IsPending : All IsPending batch
  batch-IsPending =
      All-map batch
        (λ (e : Event) (claimed : IsClaimed env held s.store e). &&_left _ _ claimed.due)
        (batch_of-IsClaimed env held limit s.store valid.distinct)

  dispatched_store-BatchSettled :
      BatchSettled env publish batch s.store (dispatched_store env held limit publish s)
  dispatched_store-BatchSettled =
      let opened : Session = record s { tx = s.store; deferred = [] } in
      let distinct = batch_of-Distinct env held limit s.store valid.distinct in
      record {
        valid = settled_all-Valid env publish batch opened distinct batch-AreCurrent valid;
        rows = λ id. find_event-settled_all env publish batch opened id distinct batch-AreCurrent;
        recorded = length-settled_all env publish batch opened;
        fewer =
            settled_all-remaining env publish batch opened distinct batch-AreCurrent batch-IsPending
              valid;
      }

  abbrev pub Dispatched : Result ℕ → Database → Type 0
  Dispatched (ok n) db =
      (n ≡ length batch)
      × (n ≤ limit)
      × All (IsClaimed env held s.store) batch
      × BatchSettled env publish batch s.store db
  Dispatched (err x) db =
      (db ≡ s.store)
      ⊎ (((m : String) × (env.commit_fault ≡ some (ack_lost m)))
          × BatchSettled env publish batch s.store db)

  Ended-Dispatched :
      (r : Result ℕ) (db : Database) → Ended env held limit publish s r db → Dispatched r db
  Ended-Dispatched (ok n) db (size, same) = (
    size,
    rw size (length-batch_of env held limit s.store valid.distinct),
    batch_of-IsClaimed env held limit s.store valid.distinct,
    rw same dispatched_store-BatchSettled,
  )
  Ended-Dispatched (err x) db (inl same) = inl same
  Ended-Dispatched (err x) db (inr (lost, same)) = inr (lost, rw same dispatched_store-BatchSettled)

  -- DispatchBatch on a valid outbox, under any driver faults and whatever the publisher answers. If
  -- it returns n, then n is the size of the batch, which is at most the limit and has only rows
  -- that are due and that nobody holds, and the batch is settled: each of its events has the row
  -- that the publisher's answer on its envelope gives, every other event has its own, one delivery
  -- is recorded for each, and the outbox is valid. If it fails, nothing has changed, or the
  -- acknowledgement of the COMMIT was lost and the batch is settled.
  pub dispatch_batch-Dispatched :
      Dispatched
        (dispatch_batch env held limit publish s).0
        (dispatch_batch env held limit publish s).1.store
  dispatch_batch-Dispatched = Ended-Dispatched _ _ (dispatch_batch-Ends env held limit publish s)
