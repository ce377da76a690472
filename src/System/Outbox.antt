-- ===== src/System/Outbox.antt =====
-- Every call of the system keeps the ledger well formed and the outbox valid.
use go_ledger.Base.{
  ℕ, suc, ◌≡◌, refl, sym, ap, ◌∙◌, Bool, Option, none, some, String, List, [], ◌∷◌, map, Bytes,
  ◌==◌, ==_iff, if◌then◌else◌, Bool-cases, inl, inr, subst, arith,
}
use go_ledger.Base.Table.{find}
use go_ledger.Domain.Errors.{Uuid, Result, ok, err}
use go_ledger.Outbox.Event.{Event, envelope, Trigger, relay, manual_replay, Delivery}
use go_ledger.Storage.Database.{Database, find_event}
use go_ledger.Storage.Session.{Env, Session}
use go_ledger.Storage.Outbox.{Publisher, dispatch_batch, replay_event}
use go_ledger.Storage.Outbox.Settle.{
  OutboxValid, IsConsistent, attempts_of, row_update, settled_database, settled_session, some-inj,
}
use go_ledger.Storage.Outbox.Batch.{settled_all}
use go_ledger.Storage.Outbox.Dispatch.{claimed_batch, Ended, dispatch_batch-Ends}
use go_ledger.Storage.Outbox.Dispatched.{Dispatched, dispatch_batch-Dispatched}
use go_ledger.Storage.Outbox.Replay.{EventSettled, Replayed, replay_event-Replays}
use go_ledger.Storage.Invariant.{WellFormed, count_events}
use go_ledger.Storage.Invariant.Opening.{with_account-WellFormed}
use go_ledger.Storage.Invariant.Posting.{Posted-WellFormed}
use go_ledger.Storage.Transfer.Outcome.{Posted}
use go_ledger.Domain.Transaction.{TransferCommand}
use go_ledger.Domain.Idempotency.{Claim, RenderFunc}
use go_ledger.Service.Cases.{Request, serve, serve_cases}
use go_ledger.System.{Call, requests, dispatches, replays, perform_call, perform_all, IsSound}

-- a new pending event with a new id, which has had no delivery
with_event-OutboxValid :
    (e : Event) (db db' : Database)
    → db'.outbox_events ≡ e ∷ db.outbox_events
    → db'.outbox_deliveries ≡ db.outbox_deliveries
    → find_event e.id db ≡ none
    → e.attempts ≡ 0
    → IsConsistent e
    → OutboxValid db
    → OutboxValid db'
with_event-OutboxValid e db db' events deliveries fresh untried fits valid = record {
  distinct = rw events (fresh, valid.distinct);
  counted = λ id.
      rw (events, deliveries)
        (elim (Bool-cases (e.id == id)) [
          | inl same ↦
              let absent : find_event id db ≡ none =
                subst (λ k. find_event k db ≡ none) ((==_iff e.id id).0 same) fresh in
              rw same (valid.counted id ∙ ap attempts_of absent ∙ sym untried)
          | inr other ↦ rw other (valid.counted id)
        ]);
  consistent = λ id x found.
      let found' : find (λ (y : Event). y.id) id (e ∷ db.outbox_events) ≡ some x =
        rw events at found in
      elim (Bool-cases (e.id == id)) [
        | inl same ↦ let here : e ≡ x = some-inj (rw same at found') in rw (← here) fits
        | inr other ↦ valid.consistent id x (rw other at found')
      ];
}

Posted-OutboxValid :
    (env : Env) (cmd : TransferCommand) (claim : Claim) (render : RenderFunc) (s : Session)
    (status : ℕ) (body : Bytes) (after : Database)
    → OutboxValid s.store
    → Posted env cmd claim render s status body after
    → OutboxValid after
Posted-OutboxValid env cmd claim render s status body after valid posting = rw posting.database (
    with_event-OutboxValid _ s.store _ refl refl posting.accepted.new_event refl (omega arith)
      valid)

serve-IsSound : (s : Session) (r : Request) → IsSound s.store → IsSound (serve s r).store
serve-IsSound s r sound =
    serve_cases IsSound s r sound
      (λ env a zero_balance fresh. record {
        ledger = with_account-WellFormed env a s.store zero_balance fresh sound.ledger;
        outbox = record {
          distinct = sound.outbox.distinct;
          counted = sound.outbox.counted;
          consistent = sound.outbox.consistent;
        };
      })
      (λ env cmd claim render status body after differ posting. record {
        ledger =
            Posted-WellFormed env cmd claim render s status body after differ sound.ledger posting;
        outbox = Posted-OutboxValid env cmd claim render s status body after sound.outbox posting;
      })

count_events-update :
    (env : Env) (e : Event) (error : Option String) (id : Uuid) (es : List Event)
    → count_events id (map (λ (x : Event). if x.id == e.id then row_update env e error x else x) es)
      ≡ count_events id es
unfolding count_events
count_events-update env e error id [] = refl
count_events-update env e none id (x ∷ es) = ground (arith, count_events-update env e none id es)
count_events-update env e (some m) id (x ∷ es) =
    ground (arith, count_events-update env e (some m) id es)

-- an attempt touches nothing of the ledger
settled_database-WellFormed :
    (env : Env) (e : Event) (error : Option String) (trigger : Trigger) (n : ℕ) (db : Database)
    → WellFormed db
    → WellFormed (settled_database env e error trigger n db)
settled_database-WellFormed env e error trigger n db valid = record {
  accounts_distinct = valid.accounts_distinct;
  allowed = valid.allowed;
  cached = valid.cached;
  zero_sum = valid.zero_sum;
  two_legs = valid.two_legs;
  one_event = λ id. count_events-update env e error id db.outbox_events ∙ valid.one_event id;
  answered = valid.answered;
}

settled_all-WellFormed :
    (env : Env) (publish : Publisher) (batch : List Event) (s : Session)
    → WellFormed s.tx
    → WellFormed (settled_all env publish batch s).tx
unfolding settled_all
settled_all-WellFormed env publish [] s valid = valid
settled_all-WellFormed env publish (e ∷ batch) s valid =
    settled_all-WellFormed env publish batch (settled_session env e (publish (envelope e)) relay s)
      (settled_database-WellFormed env e (publish (envelope e)) relay (suc s.delivery_seq) s.tx
        valid)

module _ (env : Env) (held : Uuid → Bool) (limit : ℕ) (publish : Publisher) (s : Session)
    (sound : IsSound s.store) where
  Ended-WellFormed :
      (r : Result ℕ) (db : Database) → Ended env held limit publish s r db → WellFormed db
  Ended-WellFormed (ok n) db (_, same) =
      rw same
        (settled_all-WellFormed env publish (claimed_batch env held limit publish s) _ sound.ledger)
  Ended-WellFormed (err x) db (inl same) = rw same sound.ledger
  Ended-WellFormed (err x) db (inr (_, same)) =
      rw same
        (settled_all-WellFormed env publish (claimed_batch env held limit publish s) _ sound.ledger)

  Dispatched-OutboxValid :
      (r : Result ℕ) (db : Database)
      → Dispatched env held limit publish s sound.outbox r db
      → OutboxValid db
  Dispatched-OutboxValid (ok n) db (_, _, _, settled) = settled.valid
  Dispatched-OutboxValid (err x) db (inl same) = rw same sound.outbox
  Dispatched-OutboxValid (err x) db (inr (_, settled)) = settled.valid

  dispatch_batch-IsSound : IsSound (dispatch_batch env held limit publish s).1.store
  dispatch_batch-IsSound = record {
    ledger = Ended-WellFormed _ _ (dispatch_batch-Ends env held limit publish s);
    outbox =
        Dispatched-OutboxValid _ _
          (dispatch_batch-Dispatched env held limit publish s sound.outbox);
  }

module _ (env : Env) (id : Uuid) (publish : Publisher) (s : Session) (sound : IsSound s.store) where
  EventSettled-IsSound :
      (db : Database) → EventSettled env id publish s sound.outbox db → IsSound db
  EventSettled-IsSound db settled = record {
    ledger = rw settled.database (
        settled_database-WellFormed env settled.event (publish (envelope settled.event))
          manual_replay settled.number s.store sound.ledger);
    outbox = settled.still_valid;
  }

  Replayed-IsSound :
      (r : Result (Event × Delivery)) (db : Database)
      → Replayed env id publish s sound.outbox r db
      → IsSound db
  Replayed-IsSound (ok _) db (settled, _, _, _) = EventSettled-IsSound db settled
  Replayed-IsSound (err x) db (inl same) = rw same sound
  Replayed-IsSound (err x) db (inr (_, settled)) = EventSettled-IsSound db settled

  replay_event-IsSound : IsSound (replay_event env id publish s).1.store
  replay_event-IsSound = Replayed-IsSound _ _ (replay_event-Replays env id publish s sound.outbox)

pub perform_call-IsSound :
    (s : Session) (c : Call) → IsSound s.store → IsSound (perform_call s c).store
unfolding perform_call
perform_call-IsSound s (requests r) sound = serve-IsSound s r sound
perform_call-IsSound s (dispatches env held limit publish) sound =
    dispatch_batch-IsSound env held limit publish s sound
perform_call-IsSound s (replays env id publish) sound = replay_event-IsSound env id publish s sound

-- From a sound database, any sequence of requests to the service, batches of relays and manual
-- replays, with any faults of the driver and any answers of the publishers, leaves a sound database:
-- the ledger is well formed and the outbox is valid.
pub perform_all-IsSound :
    (s : Session) (calls : List Call) → IsSound s.store → IsSound (perform_all s calls).store
unfolding perform_all
perform_all-IsSound s [] sound = sound
perform_all-IsSound s (c ∷ calls) sound =
    perform_all-IsSound (perform_call s c) calls (perform_call-IsSound s c sound)
