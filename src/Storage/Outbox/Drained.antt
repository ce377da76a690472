-- ===== src/Storage/Outbox/Drained.antt =====
-- What is left to do after a batch that was not full: the inner loop of Relay.Run
-- (internal/outbox/relay.go) stops there.
use go_ledger.Base.{
  ℕ, zero, suc, ◌+◌, ◌<◌, ◌≡◌, refl, sym, ap, ◌∙◌, Bool, true, false, not, ◌&&◌, Option, none, some,
  is_some, String, ℤ, pos, ◌≤ℤ◌, ◌+ℤ◌, List, [], ◌∷◌, length, All, All-map, ◌==◌, Bool-cases, inl,
  inr, arith,
}
use go_ledger.Base.Table.{find, Distinct-find}
use go_ledger.Domain.Errors.{Uuid}
use go_ledger.Outbox.Event.{Event, envelope}
use go_ledger.Outbox.Backoff.Bounds.{backoff-bounds}
use go_ledger.Outbox.Backoff.{second, backoff}
use go_ledger.Storage.Database.{Database, find_event}
use go_ledger.Storage.Session.{Env}
use go_ledger.Storage.Outbox.{
  Publisher, is_due, insert_by_creation, due_events, limited, interval_of, later_by,
}
use go_ledger.Storage.Outbox.Due.{event_id, batch_of}
use go_ledger.Storage.Outbox.Settle.{settled_row, some-inj}
use go_ledger.Storage.Outbox.Batch.{settled_lookup}
use go_ledger.Storage.Outbox.Dispatched.{BatchSettled}

-- a row that a relay would claim
abbrev pub is_claimable : Env → (Uuid → Bool) → Event → Bool
is_claimable env held e = is_due env e && not (held e.id)

due_events-empty :
    (env : Env) (held : Uuid → Bool) (es : List Event)
    → All (λ e. is_claimable env held e ≡ false) es
    → due_events env held es ≡ []
unfolding due_events
due_events-empty env held [] none_due = refl
due_events-empty env held (e ∷ es) (here, there) = rw here (due_events-empty env held es there)

find-insert_by_creation_some :
    (k : Uuid) (e : Event) (es : List Event)
    → is_some (find event_id k (e ∷ es)) ≡ true
    → is_some (find event_id k (insert_by_creation e es)) ≡ true
unfolding insert_by_creation
find-insert_by_creation_some k e [] found = found
find-insert_by_creation_some k e (x ∷ es) found =
    ground (arith, find-insert_by_creation_some k e es)

find-due_events-some :
    (env : Env) (held : Uuid → Bool) (es : List Event) (x : Event)
    → find event_id x.id es ≡ some x
    → is_claimable env held x ≡ true
    → is_some (find event_id x.id (due_events env held es)) ≡ true
unfolding due_events
find-due_events-some env held [] x found due = cc
find-due_events-some env held (e ∷ es) x found due = elim (Bool-cases (e.id == x.id)) [
  | inl same ↦
      let here : e ≡ x = some-inj (rw same at found) in
      let claimed : is_claimable env held e ≡ true = ap (is_claimable env held) here ∙ due in
      rw claimed (find-insert_by_creation_some x.id e (due_events env held es) (rw same refl))
  | inr other ↦
      let rest : is_some (find event_id x.id (due_events env held es)) ≡ true =
        find-due_events-some env held es x (rw other at found) due in
      elim (Bool-cases (is_claimable env held e)) [
        | inl claimed ↦
            rw claimed
              (find-insert_by_creation_some x.id e (due_events env held es) (rw other rest))
        | inr left ↦ rw left rest
      ]
]

limited-short : (n : ℕ) (es : List Event) → length (limited n es) < n → limited n es ≡ es
unfolding limited
limited-short zero es short = absurd (omega arith)
limited-short (suc n) [] short = refl
limited-short (suc n) (e ∷ es) short = ap (λ r. e ∷ r) (limited-short n es (omega arith))

later_by-positive : (now : ℕ) (d : ℤ) → pos second ≤ℤ d → now < later_by now (interval_of d)
unfolding ◌+ℤ◌
later_by-positive now d long = ground arith

-- A settled row is not due: it is published, it is failed, or its delay has begun.
settled_row-waits :
    (env : Env) (held : Uuid → Bool) (error : Option String) (e : Event)
    → is_claimable env held (settled_row env error e) ≡ false
settled_row-waits env held none e = refl
settled_row-waits env held (some m) e = ground (
  arith,
  later_by-positive env.now (backoff (pos (e.attempts + 1)))
      ((backoff-bounds (pos (e.attempts + 1))).0),
)

module _ (env : Env) (held : Uuid → Bool) (limit : ℕ) (publish : Publisher)
    (before after : Database) (short : length (batch_of env held limit before) < limit)
    (settled : BatchSettled env publish (batch_of env held limit before) before after) where
  row-waits :
      (x : Event) (claimed row : Option Event)
      → find event_id x.id (due_events env held before.outbox_events) ≡ claimed
      → find_event x.id before ≡ row
      → some x ≡ settled_lookup env publish claimed row
      → is_claimable env held x ≡ false
  row-waits x (some e) row in_batch stored same =
      rw (some-inj same) (settled_row-waits env held (publish (envelope e)) e)
  row-waits x none row absent stored same = elim (Bool-cases (is_claimable env held x)) [
    | inl due ↦
        let found : is_some (find event_id x.id (due_events env held before.outbox_events)) ≡ true =
          find-due_events-some env held before.outbox_events x (stored ∙ sym same) due in
        let none_found : is_some {A = Event} none ≡ true = rw absent at found in cc (none_found)
    | inr waits ↦ waits
  ]

  -- After a batch that was not full no row is left that a relay would claim at that time.
  pub short_batch-drains : due_events env held after.outbox_events ≡ []
  short_batch-drains = due_events-empty env held after.outbox_events (
      All-map after.outbox_events
        (λ (x : Event) (stored : find_event x.id after ≡ some x).
          row-waits x _ _
            (ap (find event_id x.id)
              (sym (limited-short limit (due_events env held before.outbox_events) short)))
            refl (sym stored ∙ settled.rows x.id))
        (Distinct-find event_id after.outbox_events settled.valid.distinct))
