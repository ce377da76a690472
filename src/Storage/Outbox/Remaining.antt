-- ===== src/Storage/Outbox/Remaining.antt =====
-- The publish attempts that an outbox has left, which every dispatched event lowers.
use go_ledger.Base.{
  ℕ, suc, ◌+◌, ◌-◌, ◌≤◌, ◌<◌, ◌≡◌, refl, ap, true, Option, none, some, String, List, [], ◌∷◌, map,
  length, All, ◌==◌, ==_iff, if◌then◌else◌, Bool-cases, inl, inr, subst, arith,
}
use go_ledger.Base.Table.{find, Distinct}
use go_ledger.Outbox.Event.{Status, pending, published, failed, Event, envelope, relay}
use go_ledger.Outbox.Backoff.{max_attempts}
use go_ledger.Storage.Session.{Env, Session}
use go_ledger.Storage.Outbox.{Publisher, is_pending}
use go_ledger.Storage.Outbox.Due.{event_id}
use go_ledger.Storage.Outbox.Settle.{
  OutboxValid, FitsStatus, IsConsistent, settled_row, row_update, settled_session, some-inj,
  settled_database-Valid,
}
use go_ledger.Storage.Outbox.Batch.{settled_all, AreCurrent, settled-AreCurrent}

abbrev pub attempts_left : Event → ℕ
attempts_left e = if is_pending e.status then max_attempts - e.attempts else 0

unfoldable pub remaining : List Event → ℕ
remaining [] = 0
remaining (e ∷ es) = attempts_left e + remaining es

pending_attempts :
    (status : Status) (attempts : ℕ) (published_at : Option ℕ)
    → is_pending status ≡ true
    → FitsStatus status attempts published_at
    → attempts < max_attempts
pending_attempts pending attempts published_at is fits = fits
pending_attempts published attempts published_at is fits = cc
pending_attempts failed attempts published_at is fits = cc

settled_row-attempts_left :
    (env : Env) (error : Option String) (e : Event)
    → is_pending e.status ≡ true
    → IsConsistent e
    → attempts_left (settled_row env error e) + 1 ≤ attempts_left e
settled_row-attempts_left env none e is fits =
    let few : e.attempts < max_attempts =
      pending_attempts e.status e.attempts e.published_at is fits in
    rw is (omega arith)
settled_row-attempts_left env (some m) e is fits =
    let few : e.attempts < max_attempts =
      pending_attempts e.status e.attempts e.published_at is fits in
    rw is (ground arith)

module _ (env : Env) (e : Event) (error : Option String) where
  abbrev update : Event → Event
  update x = if x.id == e.id then row_update env e error x else x

  remaining-absent :
      (es : List Event) → find event_id e.id es ≡ none → remaining (map update es) ≡ remaining es
  unfolding remaining
  remaining-absent [] absent = refl
  remaining-absent (x ∷ es) absent = elim (Bool-cases (x.id == e.id)) [
    | inl same ↦ absurd (ground arith)
    | inr other ↦ rw other (omega (arith, remaining-absent es (ground arith)))
  ]

  row_update_self : (x : Event) → x ≡ e → row_update env e error x ≡ settled_row env error e
  row_update_self x same = rw same (on error)
    where
      on : (o : Option String) → row_update env e o e ≡ settled_row env o e
      on none = refl
      on (some m) = refl

  remaining-settled :
      (es : List Event)
      → find event_id e.id es ≡ some e
      → Distinct event_id es
      → is_pending e.status ≡ true
      → IsConsistent e
      → remaining (map update es) + 1 ≤ remaining es
  unfolding remaining
  remaining-settled [] current distinct is fits = cc
  remaining-settled (x ∷ es) current (fresh, distinct) is fits = elim (Bool-cases (x.id == e.id)) [
    | inl same ↦
        let here : x ≡ e = some-inj (rw same at current) in
        let absent : find event_id e.id es ≡ none =
          subst (λ k. find event_id k es ≡ none) ((==_iff x.id e.id).0 same) fresh in
        rw same (
          omega (
            arith,
            ap attempts_left (row_update_self x here),
            ap attempts_left here,
            settled_row-attempts_left env error e is fits,
            remaining-absent es absent,
          ))
    | inr other ↦
        rw other (omega (arith, remaining-settled es (rw other at current) distinct is fits))
  ]

abbrev pub IsPending : Event → Type 0
IsPending e = is_pending e.status ≡ true

pub settled_all-remaining :
    (env : Env) (publish : Publisher) (batch : List Event) (s : Session)
    → Distinct event_id batch
    → AreCurrent s.tx batch
    → All IsPending batch
    → OutboxValid s.tx
    → remaining (settled_all env publish batch s).tx.outbox_events + length batch
      ≤ remaining s.tx.outbox_events
unfolding settled_all
settled_all-remaining env publish [] s distinct current waiting valid = omega arith
settled_all-remaining env publish (e ∷ batch) s (fresh, distinct) (here, there) (is, are) valid =
    let error : Option String = publish (envelope e) in
    omega (
      arith,
      remaining-settled env e error s.tx.outbox_events here valid.distinct is
          (valid.consistent e.id e here),
      settled_all-remaining env publish batch (settled_session env e error relay s) distinct
          (settled-AreCurrent env publish e batch s fresh here there) are
          (settled_database-Valid env e error relay (suc s.delivery_seq) s.tx here valid),
    )
