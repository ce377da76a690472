-- ===== src/Storage/Outbox/Due.antt =====
-- The batch that DispatchBatch claims (internal/storage/postgres/outbox.go): which rows it has.
use go_ledger.Base.{
  ℕ, zero, suc, ◌≤◌, ◌≡◌, refl, Bool, true, false, not, ◌&&◌, none, some, List, [], ◌∷◌, length,
  All, ◌==◌, leb, Bool-cases, inl, inr, arith, All-map, &&_left,
}
use go_ledger.Base.Table.{find, Distinct, Distinct-find}
use go_ledger.Domain.Errors.{Uuid}
use go_ledger.Outbox.Event.{Event}
use go_ledger.Storage.Database.{Database, find_event}
use go_ledger.Storage.Session.{Env}
use go_ledger.Storage.Outbox.{is_due, insert_by_creation, due_events, limited}

abbrev pub event_id : Event → Uuid
event_id e = e.id

-- the rows that a relay claims
abbrev pub batch_of : Env → (Uuid → Bool) → ℕ → Database → List Event
batch_of env held limit db = limited limit (due_events env held db.outbox_events)

module _ (P : Event → Type 0) where
  insert_by_creation-All :
      (e : Event) (es : List Event) → P e → All P es → All P (insert_by_creation e es)
  unfolding insert_by_creation
  insert_by_creation-All e [] here there = (here, tt)
  insert_by_creation-All e (x ∷ xs) here there = elim (Bool-cases (leb e.created_at x.created_at)) [
    | inl first ↦ rw first (here, there)
    | inr later ↦ rw later (there.0, insert_by_creation-All e xs here there.1)
  ]

  limited-All : (n : ℕ) (es : List Event) → All P es → All P (limited n es)
  unfolding limited
  limited-All zero es all = tt
  limited-All (suc n) [] all = tt
  limited-All (suc n) (e ∷ es) all = (all.0, limited-All n es all.1)

-- what holds of every row that is due and that nobody holds
due_events-All :
    (P : Event → Type 0) (env : Env) (held : Uuid → Bool) (es : List Event)
    → All (λ e. (is_due env e && not (held e.id)) ≡ true → P e) es
    → All P (due_events env held es)
unfolding due_events
due_events-All P env held [] all = tt
due_events-All P env held (e ∷ es) all = elim (Bool-cases (is_due env e && not (held e.id))) [
  | inl due ↦ rw due (
      insert_by_creation-All P e (due_events env held es) (all.0 due)
        (due_events-All P env held es all.1))
  | inr other ↦ rw other (due_events-All P env held es all.1)
]

length-limited : (n : ℕ) (es : List Event) → length (limited n es) ≤ n
unfolding limited
length-limited zero es = omega arith
length-limited (suc n) [] = omega arith
length-limited (suc n) (e ∷ es) = omega (arith, length-limited n es)

find-insert_by_creation :
    (k : Uuid) (e : Event) (es : List Event)
    → find event_id k es ≡ none
    → (e.id == k) ≡ false
    → find event_id k (insert_by_creation e es) ≡ none
unfolding insert_by_creation
find-insert_by_creation k e [] absent other = ground arith
find-insert_by_creation k e (x ∷ xs) absent other = ground (arith, find-insert_by_creation k e xs)

find-due_events :
    (env : Env) (held : Uuid → Bool) (k : Uuid) (es : List Event)
    → find event_id k es ≡ none
    → find event_id k (due_events env held es) ≡ none
unfolding due_events
find-due_events env held k [] absent = refl
find-due_events env held k (e ∷ es) absent =
    ground
      (arith, find-due_events env held k es, find-insert_by_creation k e (due_events env held es))

find-limited :
    (k : Uuid) (n : ℕ) (es : List Event)
    → find event_id k es ≡ none
    → find event_id k (limited n es) ≡ none
unfolding limited
find-limited k zero es absent = refl
find-limited k (suc n) [] absent = refl
find-limited k (suc n) (e ∷ es) absent = ground (arith, find-limited k n es)

insert_by_creation-Distinct :
    (e : Event) (es : List Event)
    → find event_id e.id es ≡ none
    → Distinct event_id es
    → Distinct event_id (insert_by_creation e es)
unfolding insert_by_creation
insert_by_creation-Distinct e [] fresh distinct = (refl, tt)
insert_by_creation-Distinct e (x ∷ xs) fresh distinct =
    elim (Bool-cases (leb e.created_at x.created_at)) [
      | inl first ↦ rw first (fresh, distinct)
      | inr later ↦ rw later (
        find-insert_by_creation x.id e xs distinct.0 (ground arith),
        insert_by_creation-Distinct e xs (ground arith) distinct.1,
      )
    ]

due_events-Distinct :
    (env : Env) (held : Uuid → Bool) (es : List Event)
    → Distinct event_id es
    → Distinct event_id (due_events env held es)
unfolding due_events
due_events-Distinct env held [] distinct = tt
due_events-Distinct env held (e ∷ es) distinct =
    elim (Bool-cases (is_due env e && not (held e.id))) [
      | inl due ↦ rw due (
          insert_by_creation-Distinct e (due_events env held es)
            (find-due_events env held e.id es distinct.0)
            (due_events-Distinct env held es distinct.1))
      | inr other ↦ rw other (due_events-Distinct env held es distinct.1)
    ]

limited-Distinct :
    (n : ℕ) (es : List Event) → Distinct event_id es → Distinct event_id (limited n es)
unfolding limited
limited-Distinct zero es distinct = tt
limited-Distinct (suc n) [] distinct = tt
limited-Distinct (suc n) (e ∷ es) distinct =
    (find-limited e.id n es distinct.0, limited-Distinct n es distinct.1)

-- what a relay knows of a row that it has claimed
pub record IsClaimed (env : Env) (held : Uuid → Bool) (db : Database) (e : Event) : Type 0 where
  pub current : find_event e.id db ≡ some e
  pub due : is_due env e ≡ true
  pub free : held e.id ≡ false

module _ (env : Env) (held : Uuid → Bool) (limit : ℕ) (db : Database)
    (distinct : Distinct event_id db.outbox_events) where
  pub batch_of-Distinct : Distinct event_id (batch_of env held limit db)
  batch_of-Distinct =
      limited-Distinct limit _ (due_events-Distinct env held db.outbox_events distinct)

  pub batch_of-IsClaimed : All (IsClaimed env held db) (batch_of env held limit db)
  batch_of-IsClaimed = limited-All (IsClaimed env held db) limit _ (
      due_events-All (IsClaimed env held db) env held db.outbox_events (
        All-map db.outbox_events
          (λ e current claimed. record {
            current = current;
            due = &&_left _ _ claimed;
            free = ground arith;
          })
          (Distinct-find event_id db.outbox_events distinct)))

  pub length-batch_of : length (batch_of env held limit db) ≤ limit
  length-batch_of = length-limited limit (due_events env held db.outbox_events)
