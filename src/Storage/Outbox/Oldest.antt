-- ===== src/Storage/Outbox/Oldest.antt =====
-- The order of the batch that DispatchBatch claims (internal/storage/postgres/outbox.go).
use go_ledger.Base.{
  ℕ, zero, suc, ◌≤◌, ◌<◌, ◌≡◌, refl, Bool, not, ◌&&◌, List, [], ◌∷◌, ◌++◌, length, All, All-map,
  leb, if◌then◌else◌, Bool-cases, inl, inr, arith,
}
use mathlib.Core.List.{Perm}
use mathlib.Core.List.Perm
use go_ledger.Domain.Errors.{Uuid, ok}
use go_ledger.Outbox.Event.{Event}
use go_ledger.Storage.Database.{Database}
use go_ledger.Storage.Session.{Env, Session}
use go_ledger.Storage.Outbox.{
  Publisher, is_due, insert_by_creation, due_events, limited, dispatch_batch,
}
use go_ledger.Storage.Outbox.Dispatch.{claimed_batch}
use go_ledger.Storage.Outbox.Settle.{OutboxValid}
use go_ledger.Storage.Outbox.Dispatched.{BatchSettled, Dispatched, dispatch_batch-Dispatched}

-- the rows of the table that are due and that nobody holds, as they stand
unfoldable pub waiting : Env → (Uuid → Bool) → List Event → List Event
waiting env held [] = []
waiting env held (e ∷ es) =
    let rest = waiting env held es in if is_due env e && not (held e.id) then e ∷ rest else rest

abbrev pub IsOlder : Event → Event → Type 0
IsOlder e x = e.created_at ≤ x.created_at

abbrev pub IsOldestFirst : List Event → Type 0
IsOldestFirst [] = Unit
IsOldestFirst (e ∷ es) = All (IsOlder e) es × IsOldestFirst es

-- A batch with the events that it leaves waiting: oldest first, and none is left while there is
-- room.
pub record ClaimsOldest (env : Env) (held : Uuid → Bool) (limit : ℕ) (db : Database)
    (batch : List Event) : Type 0 where
  pub left : List Event
  pub whole : Perm (batch ++ left) (waiting env held db.outbox_events)
  pub oldest_first : IsOldestFirst (batch ++ left)
  pub full : length batch < limit → left ≡ []

insert_by_creation-Perm : (e : Event) (es : List Event) → Perm (insert_by_creation e es) (e ∷ es)
unfolding insert_by_creation
insert_by_creation-Perm e [] = Perm.rfl
insert_by_creation-Perm e (x ∷ xs) = elim (Bool-cases (leb e.created_at x.created_at)) [
  | inl first ↦ rw first Perm.rfl
  | inr later ↦
      rw later (Perm.trans (Perm.cons x (insert_by_creation-Perm e xs)) (Perm.swap e x xs))
]

due_events-Perm :
    (env : Env) (held : Uuid → Bool) (es : List Event)
    → Perm (due_events env held es) (waiting env held es)
unfolding due_events waiting
due_events-Perm env held [] = Perm.rfl
due_events-Perm env held (e ∷ es) = elim (Bool-cases (is_due env e && not (held e.id))) [
  | inl due ↦ rw due (
      Perm.trans (insert_by_creation-Perm e (due_events env held es))
        (Perm.cons e (due_events-Perm env held es)))
  | inr other ↦ rw other (due_events-Perm env held es)
]

insert_by_creation-IsOlder :
    (a e : Event) (es : List Event)
    → IsOlder a e
    → All (IsOlder a) es
    → All (IsOlder a) (insert_by_creation e es)
unfolding insert_by_creation
insert_by_creation-IsOlder a e [] here there = (here, tt)
insert_by_creation-IsOlder a e (x ∷ xs) here there =
    elim (Bool-cases (leb e.created_at x.created_at)) [
      | inl first ↦ rw first (here, there)
      | inr later ↦ rw later (there.0, insert_by_creation-IsOlder a e xs here there.1)
    ]

insert_by_creation-IsOldestFirst :
    (e : Event) (es : List Event) → IsOldestFirst es → IsOldestFirst (insert_by_creation e es)
unfolding insert_by_creation
insert_by_creation-IsOldestFirst e [] sorted = (tt, tt)
insert_by_creation-IsOldestFirst e (x ∷ xs) sorted =
    elim (Bool-cases (leb e.created_at x.created_at)) [
      | inl first ↦
          let below : IsOlder e x = ground arith in
          rw first ((below, All-map xs (λ y older. omega (arith, below, older)) sorted.0), sorted)
      | inr later ↦ rw later (
        insert_by_creation-IsOlder x e xs (ground arith) sorted.0,
        insert_by_creation-IsOldestFirst e xs sorted.1,
      )
    ]

due_events-IsOldestFirst :
    (env : Env) (held : Uuid → Bool) (es : List Event) → IsOldestFirst (due_events env held es)
unfolding due_events
due_events-IsOldestFirst env held [] = tt
due_events-IsOldestFirst env held (e ∷ es) = elim (Bool-cases (is_due env e && not (held e.id))) [
  | inl due ↦ rw due (
      insert_by_creation-IsOldestFirst e (due_events env held es)
        (due_events-IsOldestFirst env held es))
  | inr other ↦ rw other (due_events-IsOldestFirst env held es)
]

-- what a limit leaves out
beyond : ℕ → List Event → List Event
beyond zero es = es
beyond (suc n) [] = []
beyond (suc n) (e ∷ es) = beyond n es

limited-beyond : (n : ℕ) (es : List Event) → limited n es ++ beyond n es ≡ es
unfolding limited beyond
limited-beyond zero es = refl
limited-beyond (suc n) [] = refl
limited-beyond (suc n) (e ∷ es) = rw (limited-beyond n es) refl

beyond-full : (n : ℕ) (es : List Event) → length (limited n es) < n → beyond n es ≡ []
unfolding limited beyond
beyond-full zero es room = absurd (omega arith)
beyond-full (suc n) [] room = refl
beyond-full (suc n) (e ∷ es) room = beyond-full n es (omega arith)

module _ (env : Env) (held : Uuid → Bool) (limit : ℕ) (publish : Publisher) (s : Session) where
  abbrev due : List Event
  due = due_events env held s.store.outbox_events

  pub claimed_batch-ClaimsOldest :
      ClaimsOldest env held limit s.store (claimed_batch env held limit publish s)
  claimed_batch-ClaimsOldest = record {
    left = beyond limit due;
    whole = rw (limited-beyond limit due) (due_events-Perm env held s.store.outbox_events);
    oldest_first =
        rw (limited-beyond limit due) (due_events-IsOldestFirst env held s.store.outbox_events);
    full = beyond-full limit due;
  }

  -- DispatchBatch takes the oldest events first. On a valid outbox, under any driver faults and
  -- whatever the publisher answers, if it returns n, then it has settled a batch of n events which,
  -- with the events that it leaves waiting, is a rearrangement of the events that are due and that
  -- nobody holds, the oldest first by created_at; and if the batch is smaller than the limit, none
  -- is left waiting.
  pub dispatch_batch_takes_oldest :
      (n : ℕ)
      → OutboxValid s.store
      → (dispatch_batch env held limit publish s).0 ≡ ok n
      → (batch : List Event) × (n ≡ length batch)
        × ClaimsOldest env held limit s.store batch
        × BatchSettled env publish batch s.store (dispatch_batch env held limit publish s).1.store
  dispatch_batch_takes_oldest n valid done =
      let (size, _, _, settled) : Dispatched env held limit publish s valid (ok n)
          (dispatch_batch env held limit publish s).1.store =
        rw done at (dispatch_batch-Dispatched env held limit publish s valid) in
      (claimed_batch env held limit publish s, size, claimed_batch-ClaimsOldest, settled)
