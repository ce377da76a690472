-- ===== src/Storage/Outbox/Batch.antt =====
-- DispatchBatch of internal/storage/postgres/outbox.go: a batch is settled as a whole or not at all.
use go_ledger.Base.{
  suc, ◌+◌, ◌≡◌, refl, ap, ◌∙◌, false, Option, none, some, List, [], ◌∷◌, length, All, All-map,
  All-zip, ◌==◌, ==_iff, Bool-cases, subst, inl, inr, arith,
}
use go_ledger.Base.Table.{find, Distinct, absent-All}
use go_ledger.Domain.Errors.{Uuid, Error, Result, err}
use go_ledger.Outbox.Event.{Event, envelope, relay}
use go_ledger.Storage.Database.{Database, find_event}
use go_ledger.Storage.Session.{Env, Session, Action, continue, ◌>>=◌}
use go_ledger.Storage.Outbox.{Publisher, settle_batch}
use go_ledger.Storage.Outbox.Due.{event_id}
use go_ledger.Storage.Outbox.Settle.{
  OutboxValid, settled_row, settled_session, settle_attempt_cases, settled_database-Valid,
  find_event-settled_self, find_event-settled_ne,
}

-- the session after every event of a batch has been published and settled
unfoldable pub settled_all : Env → Publisher → List Event → Session → Session
settled_all env publish [] s = s
settled_all env publish (e ∷ batch) s =
    settled_all env publish batch (settled_session env e (publish (envelope e)) relay s)

pub settle_batch_cases :
    {B : Type 0} (Q : Result B × Session → Type 0) (env : Env) (publish : Publisher)
    (batch : List Event) (f : Unit {0} → Action B) (s : Session)
    → ((x : Error) (s' : Session) → s'.store ≡ s.store → Q (err x, s'))
    → Q (f tt (settled_all env publish batch s))
    → Q ((settle_batch env publish batch >>= f) s)
unfolding settle_batch settled_all
settle_batch_cases Q env publish [] f s failing done = done
settle_batch_cases Q env publish (e ∷ batch) f s failing done =
    settle_attempt_cases (λ p. Q (continue p f)) env e (publish (envelope e)) relay
      (λ _. settle_batch env publish batch) s failing
      (settle_batch_cases Q env publish batch f
        (settled_session env e (publish (envelope e)) relay s) failing done)

-- the row of an event after a batch
abbrev pub settled_lookup : Env → Publisher → Option Event → Option Event → Option Event
settled_lookup env publish none row = row
settled_lookup env publish (some e) row = some (settled_row env (publish (envelope e)) e)

abbrev pub AreCurrent : Database → List Event → Type 0
AreCurrent db = All (λ (e : Event). find_event e.id db ≡ some e)

module _ (env : Env) (publish : Publisher) where
  pub settled-AreCurrent :
      (e : Event) (batch : List Event) (s : Session)
      → find event_id e.id batch ≡ none
      → find_event e.id s.tx ≡ some e
      → AreCurrent s.tx batch
      → AreCurrent (settled_session env e (publish (envelope e)) relay s).tx batch
  settled-AreCurrent e batch s fresh current rest =
      All-map batch
        (λ x both.
          find_event-settled_ne env e (publish (envelope e)) relay (suc s.delivery_seq) s.tx current
            x.id (ground arith)
          ∙ both.1)
        (All-zip (λ (x : Event). (x.id == e.id) ≡ false)
          (λ (x : Event). find_event x.id s.tx ≡ some x) batch
          (absent-All event_id e.id batch fresh) rest)

  pub settled_all-Valid :
      (batch : List Event) (s : Session)
      → Distinct event_id batch
      → AreCurrent s.tx batch
      → OutboxValid s.tx
      → OutboxValid (settled_all env publish batch s).tx
  unfolding settled_all
  settled_all-Valid [] s distinct current valid = valid
  settled_all-Valid (e ∷ batch) s (fresh, distinct) (here, there) valid =
      settled_all-Valid batch (settled_session env e (publish (envelope e)) relay s) distinct
        (settled-AreCurrent e batch s fresh here there)
        (settled_database-Valid env e (publish (envelope e)) relay (suc s.delivery_seq) s.tx here
          valid)

  -- the events of the batch are settled, and the others are what they were
  pub find_event-settled_all :
      (batch : List Event) (s : Session) (id : Uuid)
      → Distinct event_id batch
      → AreCurrent s.tx batch
      → find_event id (settled_all env publish batch s).tx
        ≡ settled_lookup env publish (find event_id id batch) (find_event id s.tx)
  unfolding settled_all
  find_event-settled_all [] s id distinct current = refl
  find_event-settled_all (e ∷ batch) s id (fresh, distinct) (here, there) =
      let s' : Session = settled_session env e (publish (envelope e)) relay s in
      let rest : find_event id (settled_all env publish batch s').tx
          ≡ settled_lookup env publish (find event_id id batch) (find_event id s'.tx) =
        find_event-settled_all batch s' id distinct
          (settled-AreCurrent e batch s fresh here there) in
      elim (Bool-cases (e.id == id)) [
        | inl same ↦
            let absent : find event_id id batch ≡ none =
              subst (λ k. find event_id k batch ≡ none) ((==_iff e.id id).0 same) fresh in
            rw same (
              rest
              ∙ rw absent (
                  subst (λ k. find_event k s'.tx ≡ some (settled_row env (publish (envelope e)) e))
                    ((==_iff e.id id).0 same)
                    (find_event-settled_self env e (publish (envelope e)) relay (suc s.delivery_seq)
                      s.tx here)))
        | inr other ↦ rw other (
            rest
            ∙ ap (settled_lookup env publish (find event_id id batch)) (
                find_event-settled_ne env e (publish (envelope e)) relay (suc s.delivery_seq) s.tx
                  here id other))
      ]

  pub length-settled_all :
      (batch : List Event) (s : Session)
      → length (settled_all env publish batch s).tx.outbox_deliveries
        ≡ length batch + length s.tx.outbox_deliveries
  unfolding settled_all
  length-settled_all [] s = omega arith
  length-settled_all (e ∷ batch) s =
      omega (arith, length-settled_all batch (settled_session env e (publish (envelope e)) relay s))
