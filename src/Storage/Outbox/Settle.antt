-- ===== src/Storage/Outbox/Settle.antt =====
-- One publish attempt on an event (settleAttempt and recordDelivery of
-- internal/storage/postgres/outbox.go), and what it keeps of a valid outbox.
use go_ledger.Base.{
  ℕ, suc, ◌+◌, ◌≤◌, ◌<◌, ◌≡◌, refl, sym, ap, ◌∙◌, Bool, true, false, Option, none, some, is_some,
  String, List, [], ◌∷◌, map, ◌==◌, if◌then◌else◌, Option-cases, Bool-cases, ==_iff, ==_refl, subst,
  inl, inr, arith,
}
use go_ledger.Base.Table.{Distinct, Distinct-map, find_key_lem, find-map-some, find-map-none}
use go_ledger.Domain.Errors.{Uuid, Error, Result, ok, err, ok-injective}
use go_ledger.Outbox.Event.{Status, pending, published, failed, Event, envelope, Trigger, Delivery}
use go_ledger.Outbox.Backoff.{max_attempts}
use go_ledger.Storage.Database.{Database, find_event}
use go_ledger.Storage.Session.{
  Site, Env, Session, Action, continue, contextualise, ◌>>=◌, ◌>>◌, in_context, exec,
}
use go_ledger.Storage.Session.Cases.{exec_cases}
use go_ledger.Storage.Transfer.Cases.{stated_cases}
use go_ledger.Storage.Outbox.{
  update_event, delivery_row, insert_delivery, record_delivery, published_row, failed_row,
  settle_attempt,
}

pub some-inj : {a b : Event} → some a ≡ some b → a ≡ b
some-inj h = cc

unfoldable pub count_deliveries : Uuid → List Delivery → ℕ
count_deliveries id [] = 0
count_deliveries id (d ∷ ds) =
    if d.event_id == id then suc (count_deliveries id ds) else count_deliveries id ds

abbrev pub attempts_of : Option Event → ℕ
attempts_of none = 0
attempts_of (some e) = e.attempts

-- What the status of an event says: a pending one has attempts left, a failed one has none, and a
-- published one has been published.
abbrev pub FitsStatus : Status → ℕ → Option ℕ → Type 0
FitsStatus pending attempts published_at = attempts < max_attempts
FitsStatus published attempts published_at = is_some published_at ≡ true
FitsStatus failed attempts published_at = max_attempts ≤ attempts

abbrev pub IsConsistent : Event → Type 0
IsConsistent e = FitsStatus e.status e.attempts e.published_at

pub record OutboxValid (db : Database) : Type 0 where
  -- the primary key of outbox_events
  pub distinct : Distinct (λ (e : Event). e.id) db.outbox_events
  -- the attempts of an event are its recorded deliveries, and no delivery is of an unknown event
  pub counted :
      (id : Uuid) → count_deliveries id db.outbox_deliveries ≡ attempts_of (find_event id db)
  pub consistent : (id : Uuid) (e : Event) → find_event id db ≡ some e → IsConsistent e

-- the row of an event after a publish attempt with this outcome
abbrev pub settled_row : Env → Option String → Event → Event
settled_row env none e = published_row env (e.attempts + 1) e
settled_row env (some message) e = failed_row env (e.attempts + 1) message e

abbrev pub succeeded : Option String → Bool
succeeded none = true
succeeded (some _) = false

abbrev pub row_update : Env → Event → Option String → Event → Event
row_update env e none = published_row env (e.attempts + 1)
row_update env e (some message) = failed_row env (e.attempts + 1) message

abbrev pub settled_database : Env → Event → Option String → Trigger → ℕ → Database → Database
settled_database env e error trigger n db = record db {
  outbox_events =
      map (λ (x : Event). if x.id == e.id then row_update env e error x else x) db.outbox_events;
  outbox_deliveries =
      delivery_row env n e.id (succeeded error) trigger error ∷ db.outbox_deliveries;
}

update_event-ok :
    (id : Uuid) (f : Event → Event) (db db' : Database)
    → update_event id f db ≡ ok (tt, db')
    → db' ≡ record db {
      outbox_events = map (λ (e : Event). if e.id == id then f e else e) db.outbox_events;
    }
unfolding update_event
update_event-ok id f db db' h = sym (ap (λ p. p.1) (ok-injective h))

insert_delivery-ok :
    (d : Delivery) (db db' : Database)
    → insert_delivery d db ≡ ok (tt, db')
    → db' ≡ record db { outbox_deliveries = d ∷ db.outbox_deliveries }
unfolding insert_delivery
insert_delivery-ok d db db' h = ground arith

module _ {B : Type 0} (Q : Result B × Session → Type 0) where
  settle_parts :
      (context : String) (env : Env) (e : Event) (error : Option String) (trigger : Trigger)
      (f : Unit {0} → Action B) (s : Session)
      → ((x : Error) (s' : Session) → s'.store ≡ s.store → Q (err x, s'))
      → Q (
          f tt (record s {
            tx = settled_database env e error trigger (suc s.delivery_seq) s.tx;
            delivery_seq = suc s.delivery_seq;
          }))
      → Q (
          ((in_context context
                  (exec env (Site.settle e.id) (update_event e.id (row_update env e error)))
                >> record_delivery env e.id (succeeded error) trigger error)
              >>= f)
            s)
  unfolding record_delivery
  settle_parts context env e error trigger f s failing done =
      exec_cases
        (λ p. Q (
          continue
            (continue (contextualise context p.0, p.1)
              (λ _. record_delivery env e.id (succeeded error) trigger error))
            f))
        env (Site.settle e.id) (update_event e.id (row_update env e error)) s
        (λ x. failing _ s refl)
        λ _ db updated. rw (update_event-ok e.id (row_update env e error) s.tx db updated) (
          stated_cases Q "record delivery" env (Site.deliver e.id)
            (insert_delivery
              (delivery_row env (suc s.delivery_seq) e.id (succeeded error) trigger error))
            f _ (λ x. failing x _ refl)
            λ _ db' inserted. rw (insert_delivery-ok _ _ db' inserted) done)

abbrev pub settled_session : Env → Event → Option String → Trigger → Session → Session
settled_session env e error trigger s = record s {
  tx = settled_database env e error trigger (suc s.delivery_seq) s.tx;
  delivery_seq = suc s.delivery_seq;
}

-- An attempt that fails has left the committed database alone.
pub settle_attempt_cases :
    {B : Type 0} (Q : Result B × Session → Type 0) (env : Env) (e : Event) (error : Option String)
    (trigger : Trigger) (f : Unit {0} → Action B) (s : Session)
    → ((x : Error) (s' : Session) → s'.store ≡ s.store → Q (err x, s'))
    → Q (f tt (settled_session env e error trigger s))
    → Q ((settle_attempt env e error trigger >>= f) s)
unfolding settle_attempt
settle_attempt_cases Q env e none trigger f s =
    settle_parts Q "mark event published" env e none trigger f s
settle_attempt_cases Q env e (some m) trigger f s =
    settle_parts Q "mark event failed" env e (some m) trigger f s

row_update-id :
    (env : Env) (e x : Event) (error : Option String)
    → (if x.id == e.id then row_update env e error x else x).id ≡ x.id
row_update-id env e x none = ground arith
row_update-id env e x (some m) = ground arith

-- the settled event: its envelope is what it was
pub settled_row-envelope :
    (env : Env) (error : Option String) (e : Event)
    → envelope (settled_row env error e) ≡ envelope e
unfolding envelope
settled_row-envelope env none e = refl
settled_row-envelope env (some m) e = refl

settled_row-IsConsistent :
    (env : Env) (error : Option String) (e : Event) → IsConsistent (settled_row env error e)
settled_row-IsConsistent env none e = refl
settled_row-IsConsistent env (some m) e = ground arith

settled_row-attempts :
    (env : Env) (error : Option String) (e : Event)
    → (settled_row env error e).attempts ≡ e.attempts + 1
settled_row-attempts env none e = refl
settled_row-attempts env (some m) e = refl

row_update_self :
    (env : Env) (e : Event) (error : Option String)
    → row_update env e error e ≡ settled_row env error e
row_update_self env e none = refl
row_update_self env e (some m) = refl

module _ (env : Env) (e : Event) (error : Option String) (trigger : Trigger) (n : ℕ) (db : Database)
    (current : find_event e.id db ≡ some e) where
  abbrev after_attempt : Database
  after_attempt = settled_database env e error trigger n db

  not_updated :
      (x : Event) (id : Uuid)
      → find_event id db ≡ some x
      → (e.id == id) ≡ false
      → (x.id == e.id) ≡ false
  not_updated x id found differ =
      ground (arith, find_key_lem (λ (y : Event). y.id) id db.outbox_events x found)

  pub find_event-settled_self : find_event e.id after_attempt ≡ some (settled_row env error e)
  find_event-settled_self =
      find-map-some (λ (x : Event). x.id)
        (λ x. if x.id == e.id then row_update env e error x else x)
        (λ x. row_update-id env e x error) e.id db.outbox_events e current
      ∙ rw (==_refl e.id) (ap some (row_update_self env e error))

  pub find_event-settled_ne :
      (id : Uuid) → (e.id == id) ≡ false → find_event id after_attempt ≡ find_event id db
  find_event-settled_ne id differ = elim (Option-cases (find_event id db)) [
    | inl missing ↦
        find-map-none (λ (x : Event). x.id)
          (λ x. if x.id == e.id then row_update env e error x else x)
          (λ x. row_update-id env e x error) id db.outbox_events missing
        ∙ sym missing
    | inr (x, found) ↦
        find-map-some (λ (x : Event). x.id)
          (λ x. if x.id == e.id then row_update env e error x else x)
          (λ x. row_update-id env e x error) id db.outbox_events x found
        ∙ rw (not_updated x id found differ) (sym found)
  ]

  pub settled_database-Valid : OutboxValid db → OutboxValid after_attempt
  unfolding count_deliveries
  settled_database-Valid valid = record {
    distinct =
        Distinct-map (λ (x : Event). x.id)
          (λ x. if x.id == e.id then row_update env e error x else x)
          (λ x. row_update-id env e x error) db.outbox_events valid.distinct;
    counted = λ id. elim (Bool-cases (e.id == id)) [
      | inl same ↦
          subst
            (λ k.
              count_deliveries k after_attempt.outbox_deliveries
              ≡ attempts_of (find_event k after_attempt))
            ((==_iff e.id id).0 same)
            (rw (==_refl e.id, find_event-settled_self)
              (omega (
                arith,
                valid.counted e.id,
                ap attempts_of current,
                settled_row-attempts env error e,
              )))
      | inr differ ↦ rw (differ, find_event-settled_ne id differ) (valid.counted id)
    ];
    consistent = λ id x found. elim (Bool-cases (e.id == id)) [
      | inl same ↦
          let here : find_event e.id after_attempt ≡ some x =
            subst (λ k. find_event k after_attempt ≡ some x) (sym ((==_iff e.id id).0 same))
              found in
          let row : settled_row env error e ≡ x = some-inj (sym find_event-settled_self ∙ here) in
          rw (← row) (settled_row-IsConsistent env error e)
      | inr differ ↦ valid.consistent id x (sym (find_event-settled_ne id differ) ∙ found)
    ];
  }
