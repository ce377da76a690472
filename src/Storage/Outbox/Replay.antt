-- ===== src/Storage/Outbox/Replay.antt =====
-- The replay of one event: Store.ReplayEvent of internal/storage/postgres/outbox.go.
use go_ledger.Base.{
  ℕ, ◌⊎◌, inl, inr, suc, ◌≡◌, refl, sym, ap, ◌∙◌, Option, none, some, String, [], subst,
}
use go_ledger.Base.Table.{find_key_lem}
use go_ledger.Domain.Errors.{Uuid, Result, ok, err, ok-injective}
use go_ledger.Outbox.Event.{Event, envelope, manual_replay, Delivery}
use go_ledger.Storage.Database.{Database, find_event}
use go_ledger.Storage.Session.{
  lift, Site, Env, Session, Action, continue, contextualise, ◌>>=◌, ◌>>◌, in_context, exec, pure,
  begun, begin_tx, rolled_back, ack_lost,
}
use go_ledger.Storage.Transfer.{commit}
use go_ledger.Storage.Transfer.Cases.{stated_cases}
use go_ledger.Storage.Transfer.Outcome.{commit_cases}
use go_ledger.Storage.Outbox.{
  Publisher, or_event_not_found, or_no_rows, last_delivery, replay_locked, replay_event,
}
use go_ledger.Storage.Outbox.Settle.{
  some-inj, OutboxValid, settled_row, settled_database, settled_session, settle_attempt_cases,
  settled_database-Valid, find_event-settled_self, settled_row-envelope,
}

or_no_rows-ok :
    {A : Type 0} (db db' : Database) (o : Option A) (a : A)
    → or_no_rows db o ≡ ok (a, db')
    → (o ≡ some a) × (db' ≡ db)
or_no_rows-ok db db' none a h = cc
or_no_rows-ok db db' (some x) a h =
    (ap some (ap (λ p. p.0) (ok-injective h)), sym (ap (λ p. p.1) (ok-injective h)))

module _ (env : Env) (id : Uuid) (publish : Publisher) (s : Session)
    (valid : OutboxValid s.store) where
  -- the event, settled: one attempt on it is all that has changed
  pub record EventSettled (db : Database) : Type 0 where
    pub event : Event
    pub number : ℕ
    pub stored : find_event id s.store ≡ some event
    pub database :
        db ≡ settled_database env event (publish (envelope event)) manual_replay number s.store
    pub still_valid : OutboxValid db

  -- What a replay leaves. On success the stored event is the settled one, which has the envelope of
  -- the event that was stored.
  abbrev pub Replayed : Result (Event × Delivery) → Database → Type 0
  Replayed (ok (settled, d)) db =
      (done : EventSettled db) × (settled
        ≡ settled_row env (publish (envelope done.event)) done.event)
      × (envelope settled ≡ envelope done.event)
      × (find_event id db ≡ some settled)
  Replayed (err x) db =
      (db ≡ s.store) ⊎ (((m : String) × (env.commit_fault ≡ some (ack_lost m))) × EventSettled db)

  abbrev pub Replays : Result (Event × Delivery) × Session → Type 0
  Replays p = Replayed p.0 p.1.store

  module _ (e : Event) (s' : Session) (found : find_event id s.store ≡ some e)
      (same : s'.store ≡ s.store) (same_tx : s'.tx ≡ s.store) where
    abbrev attempted : Session
    attempted = settled_session env e (publish (envelope e)) manual_replay s'

    current : find_event e.id s'.tx ≡ some e
    current =
        subst (λ k. find_event k s'.tx ≡ some e)
          (sym (find_key_lem (λ (x : Event). x.id) id s.store.outbox_events e found))
          (rw same_tx found)

    attempted-Valid : OutboxValid attempted.tx
    attempted-Valid =
        settled_database-Valid env e (publish (envelope e)) manual_replay (suc s'.delivery_seq)
          s'.tx current (rw same_tx valid)

    attempted-EventSettled : EventSettled attempted.tx
    attempted-EventSettled = record {
      event = e;
      number = suc s'.delivery_seq;
      stored = found;
      database =
          ap (settled_database env e (publish (envelope e)) manual_replay (suc s'.delivery_seq))
            same_tx;
      still_valid = attempted-Valid;
    }

    reloaded-Replayed :
        (settled : Event) (d : Delivery)
        → find_event id attempted.tx ≡ some settled
        → Replayed (ok (settled, d)) attempted.tx
    unfolding attempted-EventSettled
    reloaded-Replayed settled d read =
        let row : settled ≡ settled_row env (publish (envelope e)) e = some-inj (
          sym (
            subst (λ k. find_event k attempted.tx ≡ some settled)
              (sym (find_key_lem (λ (x : Event). x.id) id s.store.outbox_events e found)) read)
          ∙ find_event-settled_self env e (publish (envelope e)) manual_replay (suc s'.delivery_seq)
              s'.tx current) in
        (
          attempted-EventSettled,
          row,
          ap envelope row ∙ settled_row-envelope env (publish (envelope e)) e,
          read,
        )

    read_back : Event → Action (Event × Delivery)
    read_back settled = do
      d ← in_context "read replay delivery" (
          exec env Site.read_delivery (λ db. or_no_rows db (last_delivery id db.outbox_deliveries)))
      in_context "commit replay" (commit env)
      pure (settled, d)

    finished : Event → Delivery → Action (Event × Delivery)
    finished settled d = in_context "commit replay" (commit env) >> pure (settled, d)

    finished-Replays :
        (settled : Event) (d : Delivery)
        → find_event id attempted.tx ≡ some settled
        → Replays (finished settled d attempted)
    unfolding finished
    finished-Replays settled d read =
        commit_cases
          (λ p.
            Replays (continue (contextualise "commit replay" p.0, p.1) (λ _. pure (settled, d))))
          env attempted (λ _. inl same) (λ _. reloaded-Replayed settled d read)
          λ m _ lost _. inr ((m, lost), attempted-EventSettled)

    read_back-Replays :
        (settled : Event)
        → find_event id attempted.tx ≡ some settled
        → Replays (read_back settled attempted)
    unfolding read_back finished
    read_back-Replays settled read =
        stated_cases Replays "read replay delivery" env Site.read_delivery
          (λ db. or_no_rows db (last_delivery id db.outbox_deliveries)) (finished settled) attempted
          (λ _. inl same)
          λ d db was_read.
            rw
              ((or_no_rows-ok attempted.tx db (last_delivery id attempted.tx.outbox_deliveries) d
                was_read).1)
              (finished-Replays settled d read)

    replay_locked-Replays : Replays (replay_locked env id publish e s')
    unfolding replay_locked read_back
    replay_locked-Replays =
        settle_attempt_cases Replays env e (publish (envelope e)) manual_replay _ s'
          (λ x s'' same''. inl (same'' ∙ same))
          (stated_cases Replays "reload replayed event" env Site.reload
            (λ db. or_no_rows db (find_event id db)) read_back attempted (λ x. inl same)
            λ settled db was_read.
              let reloaded : (find_event id attempted.tx ≡ some settled) × (db ≡ attempted.tx) =
                or_no_rows-ok attempted.tx db (find_event id attempted.tx) settled was_read in
              rw (reloaded.1) (read_back-Replays settled (reloaded.0)))

  abbrev select_and_replay : Action (Event × Delivery)
  select_and_replay = do
    row ←
        in_context "select event for replay"
          (exec env Site.select (λ db. ok (find_event id db, db)))
    e ← lift (or_event_not_found id row)
    replay_locked env id publish e

  selected-Replays :
      (row : Option Event) (s' : Session)
      → find_event id s.store ≡ row
      → s'.store ≡ s.store
      → s'.tx ≡ s.store
      → Replays ((lift (or_event_not_found id row) >>= replay_locked env id publish) s')
  selected-Replays none s' found same same_tx = inl same
  selected-Replays (some e) s' found same same_tx = replay_locked-Replays e s' found same same_tx

  begun-Replays :
      (fault : Option String)
      → Replays (
          continue
            (contextualise "begin replay" (begun fault s).0, (begun fault s).1)
            (λ _. select_and_replay))
  begun-Replays (some m) = inl refl
  begun-Replays none =
      stated_cases Replays "select event for replay" env Site.select
        (λ db. ok (find_event id db, db))
        (λ row. lift (or_event_not_found id row) >>= replay_locked env id publish)
        (record s { tx = s.store; deferred = [] }) (λ _. inl refl)
        λ row db read.
          selected-Replays row (record s { tx = db; deferred = [] })
            (ap (λ p. p.0) (ok-injective read)) refl (sym (ap (λ p. p.1) (ok-injective read)))

  rolled_back-Replays :
      (p : Result (Event × Delivery) × Session) → Replays p → Replays (p.0, rolled_back p.1)
  rolled_back-Replays (ok _, s') holds = holds
  rolled_back-Replays (err _, s') holds = holds

  -- A replay of an event on a valid outbox, under any driver faults and whatever the publisher
  -- answers. If it succeeds, the event was stored, one attempt on it has been settled and nothing
  -- else has changed, the outbox is still valid, and the row that is returned is the row that the
  -- answer of the publisher on the event's envelope gives, it is the row that is stored afterwards,
  -- and the envelope is unchanged. If it fails, nothing has changed, or the acknowledgement of the
  -- COMMIT was lost and the attempt has been settled in the same way.
  pub replay_event-Replays : Replays (replay_event env id publish s)
  unfolding replay_event begin_tx
  replay_event-Replays =
      rolled_back-Replays
        (continue
          (
            contextualise "begin replay" (begun (env.fault Site.begin) s).0,
            (begun (env.fault Site.begin) s).1,
          )
          (λ _. select_and_replay))
        (begun-Replays (env.fault Site.begin))
