-- ===== src/Storage/Outbox.antt =====
-- internal/storage/postgres/outbox.go: claiming, settling and replaying outbox events.
pub mod Due
pub mod Oldest
pub mod Through
pub mod Published
pub mod Logged
pub mod Settle
pub mod Batch
pub mod Dispatch
pub mod Remaining
pub mod Dispatched
pub mod Drained
pub mod Replay
use go_ledger.Base.{
  ℕ, zero, suc, ◌+◌, ◌/◌, ℤ, pos, negsuc, pos_part, neg, ◌+ℤ◌, Bool, true, false, not, ◌&&◌, ◌||◌,
  Option, none, some, is_some, String, List, [], ◌∷◌, map, length, ◌==◌, ltb, leb, if◌then◌else◌,
}
use go_ledger.Base.Table.{find}
use go_ledger.Domain.Errors.{
  Uuid, outbox_deliveries_event_id_fkey, Error, sentinel, opaque, wrap, annotate, of_id,
  event_not_found, Result, ok, err,
}
use go_ledger.Outbox.Event.{
  Status, pending, published, failed, Event, Envelope, envelope, Trigger, relay, manual_replay,
  Delivery,
}
use go_ledger.Outbox.Backoff.{max_attempts, backoff}
use go_ledger.Storage.Database.{Database, find_event}
use go_ledger.Storage.Session.{
  Site, Env, Session, Action, continue, ◌>>=◌, ◌>>◌, pure, raise, lift, in_context, exec, begin_tx,
  with_rollback,
}
use go_ledger.Storage.Statements.{violates}
use go_ledger.Storage.Transfer.{commit}
use go_ledger.Storage.Accounts.{query_result}

-- The error text of a publish, if it fails. A batch publishes an event at most once.
abbrev pub Publisher : Type 0
Publisher = Envelope → Option String

abbrev pub or_event_not_found : Uuid → Option Event → Result Event
or_event_not_found id none = err (annotate (sentinel event_not_found) (of_id id))
or_event_not_found id (some e) = ok e

unfoldable pub get_event : Env → Uuid → Action Event
get_event env id s = (
  query_result "select outbox event" (env.fault Site.select)
      (or_event_not_found id (find_event id s.store)),
  s,
)

-- WHERE event_id = $1 ORDER BY id
unfoldable pub insert_delivery_by_id : Delivery → List Delivery → List Delivery
insert_delivery_by_id d [] = d ∷ []
insert_delivery_by_id d (x ∷ xs) =
    if leb d.id x.id then d ∷ x ∷ xs else x ∷ insert_delivery_by_id d xs

unfoldable pub deliveries_of : Uuid → List Delivery → List Delivery
unfolding insert_delivery_by_id
deliveries_of id [] = []
deliveries_of id (d ∷ ds) =
    if d.event_id == id then insert_delivery_by_id d (deliveries_of id ds) else deliveries_of id ds

unfoldable pub deliveries : Env → Uuid → Action (List Delivery)
unfolding deliveries_of
deliveries env id s = (
  query_result "select deliveries" (env.fault Site.select)
      (ok (deliveries_of id s.store.outbox_deliveries)),
  s,
)

-- status = 'pending' AND available_at <= now()
abbrev is_pending : Status → Bool
is_pending pending = true
is_pending published = false
is_pending failed = false

abbrev pub is_due : Env → Event → Bool
is_due env e = is_pending e.status && leb e.available_at env.now

unfoldable pub insert_by_creation : Event → List Event → List Event
insert_by_creation e [] = e ∷ []
insert_by_creation e (x ∷ xs) =
    if leb e.created_at x.created_at then e ∷ x ∷ xs else x ∷ insert_by_creation e xs

-- WHERE … ORDER BY created_at FOR UPDATE SKIP LOCKED; `held` are the rows locked by others
unfoldable pub due_events : Env → (Uuid → Bool) → List Event → List Event
unfolding insert_by_creation
due_events env held [] = []
due_events env held (e ∷ es) =
    if is_due env e && not (held e.id)
    then insert_by_creation e (due_events env held es)
    else due_events env held es

-- LIMIT $1
unfoldable pub limited : ℕ → List Event → List Event
limited zero es = []
limited (suc n) [] = []
limited (suc n) (e ∷ es) = e ∷ limited n es

unfoldable pub select_due : Env → (Uuid → Bool) → ℕ → Database → Result (List Event × Database)
unfolding due_events limited
select_due env held limit db = ok (limited limit (due_events env held db.outbox_events), db)

-- UPDATE outbox_events … WHERE id = $1
unfoldable pub update_event : Uuid → (Event → Event) → Database → Result (Unit {0} × Database)
update_event id f db = ok (
  tt,
  record db { outbox_events = map (λ (e : Event). if e.id == id then f e else e) db.outbox_events },
)

abbrev pub delivery_row : Env → ℕ → Uuid → Bool → Trigger → Option String → Delivery
delivery_row env n event_id succeeded trigger error = record {
  id = n;
  event_id = event_id;
  attempted_at = env.now;
  succeeded = succeeded;
  trigger = trigger;
  error = error;
}

-- INSERT INTO outbox_deliveries
unfoldable pub insert_delivery : Delivery → Database → Result (Unit {0} × Database)
insert_delivery d db =
    if not (is_some (find_event d.event_id db))
    then violates outbox_deliveries_event_id_fkey
    else ok (tt, record db { outbox_deliveries = d ∷ db.outbox_deliveries })

-- The sequence moves on whether or not the row is kept.
unfoldable pub record_delivery : Env → Uuid → Bool → Trigger → Option String → Action (Unit {0})
record_delivery env event_id succeeded trigger error s =
    in_context "record delivery"
      (exec env (Site.deliver event_id)
        (insert_delivery (delivery_row env (suc s.delivery_seq) event_id succeeded trigger error)))
      (record s { delivery_seq = suc s.delivery_seq })

abbrev pub published_row : Env → ℕ → Event → Event
published_row env attempts e = record e {
  status = published;
  published_at = some env.now;
  attempts = attempts;
  last_error = none;
}

-- the status after this many failed attempts
abbrev pub status_after : ℕ → Status
status_after attempts = if leb max_attempts attempts then failed else pending

-- intervalOf: the delay in milliseconds, cut off towards 0
abbrev pub interval_of : ℤ → ℤ
interval_of (pos nanoseconds) = pos (nanoseconds / 1_000_000)
interval_of (negsuc n) = neg (pos (suc n / 1_000_000))

-- now() + $5::interval; a time is never before 0 here
abbrev pub later_by : ℕ → ℤ → ℕ
later_by now milliseconds = pos_part (pos now +ℤ milliseconds)

abbrev pub failed_row : Env → ℕ → String → Event → Event
failed_row env attempts message e = record e {
  status = status_after attempts;
  attempts = attempts;
  last_error = some message;
  available_at = later_by env.now (interval_of (backoff (pos attempts)));
}

unfoldable pub settle_attempt : Env → Event → Option String → Trigger → Action (Unit {0})
settle_attempt env e none trigger = do
  in_context "mark event published"
      (exec env (Site.settle e.id) (update_event e.id (published_row env (e.attempts + 1))))
  record_delivery env e.id true trigger none
settle_attempt env e (some message) trigger = do
  in_context "mark event failed"
      (exec env (Site.settle e.id) (update_event e.id (failed_row env (e.attempts + 1) message)))
  record_delivery env e.id false trigger (some message)

-- the loop over the batch
unfoldable pub settle_batch : Env → Publisher → List Event → Action (Unit {0})
unfolding settle_attempt
settle_batch env publish [] = pure tt
settle_batch env publish (e ∷ batch) =
    settle_attempt env e (publish (envelope e)) relay >> settle_batch env publish batch

unfoldable pub dispatch_batch : Env → (Uuid → Bool) → ℕ → Publisher → Action ℕ
unfolding settle_batch
dispatch_batch env held limit publish = with_rollback do
  in_context "begin dispatch" (begin_tx env)
  batch ← in_context "claim outbox batch" (exec env Site.claim_batch (select_due env held limit))
  if length batch == 0 then pure 0 else do
    settle_batch env publish batch
    in_context "commit dispatch" (commit env)
    pure (length batch)

abbrev newer : Delivery → Option Delivery → Option Delivery
newer d none = some d
newer d (some x) = if ltb d.id x.id then some x else some d

-- WHERE event_id = $1 ORDER BY id DESC LIMIT 1
unfoldable pub last_delivery : Uuid → List Delivery → Option Delivery
last_delivery id [] = none
last_delivery id (d ∷ ds) =
    if d.event_id == id then newer d (last_delivery id ds) else last_delivery id ds

abbrev or_no_rows : {A : Type 0} → Database → Option A → Result (A × Database)
or_no_rows db none = err (opaque "no rows in result set")
or_no_rows db (some a) = ok (a, db)

-- The replay of the locked event, up to its commit.
unfoldable pub replay_locked : Env → Uuid → Publisher → Event → Action (Event × Delivery)
unfolding settle_attempt last_delivery
replay_locked env id publish e = do
  settle_attempt env e (publish (envelope e)) manual_replay
  settled ←
      in_context "reload replayed event"
        (exec env Site.reload (λ db. or_no_rows db (find_event id db)))
  d ←
      in_context "read replay delivery"
        (exec env Site.read_delivery (λ db. or_no_rows db (last_delivery id db.outbox_deliveries)))
  in_context "commit replay" (commit env)
  pure (settled, d)

unfoldable pub replay_event : Env → Uuid → Publisher → Action (Event × Delivery)
unfolding replay_locked
replay_event env id publish = with_rollback do
  in_context "begin replay" (begin_tx env)
  row ←
      in_context "select event for replay" (exec env Site.select (λ db. ok (find_event id db, db)))
  e ← lift (or_event_not_found id row)
  replay_locked env id publish e
