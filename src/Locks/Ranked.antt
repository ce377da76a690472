-- ===== src/Locks/Ranked.antt =====
-- The order in which a transfer takes its locks: its key, its accounts by ascending id, its
-- reference.
use go_ledger.Base.{
  ℕ, suc, ◌≡◌, ◌∙◌, ◌<◌, String, ◌^◌, Option, none, some, List, [], ◌∷◌, ◌++◌, map, All, All-map,
  leb, Bool-cases, inl, inr, arith,
}
use go_ledger.Base.Table.{find, Distinct}
use go_ledger.Domain.Errors.{Uuid}
use go_ledger.Domain.Account.{Account}
use go_ledger.Storage.Statements.{insert_by_id, order_by_id, any_of, where_any_of}
use go_ledger.Storage.Transfer.Locked.{id_of, find-order_by_id, where_any_of-Distinct}
use go_ledger.Locks.{
  Lock, key_row, account_row, reference_entry, event_row, account_lock, reference_of,
  transfer_locks, Process, running, polling, ended, Call, transfers, replays, dispatches,
  batch_locks, begun, takes, commits, claims, gives_up, Steps, advances, ends,
}

-- ids have 128 bits
abbrev pub top : ℕ
top = 2 ^ 128

abbrev pub rank : Lock → ℕ
rank (key_row k endpoint) = 0
rank (account_row id) = suc id
rank (reference_entry ref) = suc top
rank (event_row id) = 0

abbrev pub IsAscending : List Lock → Type 0
IsAscending [] = Unit
IsAscending (l ∷ ls) = All (λ x. rank l < rank x) ls × IsAscending ls

-- A process wants its locks by ascending rank, all above the locks that it holds.
abbrev pub IsRanked : Process → Type 0
IsRanked (running held wanted) =
    All (λ h. All (λ w. rank h < rank w) wanted) held
    × IsAscending wanted
    × All (λ h. rank h < suc (suc top)) held
    × All (λ w. rank w < suc (suc top)) wanted
IsRanked polling = Unit
IsRanked ended = Unit

batch_locks-IsRanked : (ids : List Uuid) → IsRanked (running (batch_locks ids) [])
batch_locks-IsRanked [] = (tt, tt, tt, tt)
batch_locks-IsRanked (id ∷ ids) =
    let (below, _, low, _) = batch_locks-IsRanked ids in ((tt, below), tt, (omega arith, low), tt)

pub Steps-IsRanked :
    {others : List Process} {p p' : Process} → Steps others p p' → IsRanked p → IsRanked p'
Steps-IsRanked (advances (takes {held = held} free)) (below, ascending, low, high) =
    ((ascending.0, All-map held (λ h above. above.1) below), ascending.1, (high.0, low), high.1)
Steps-IsRanked (advances commits) ranked = tt
Steps-IsRanked (advances (claims ids free)) ranked = batch_locks-IsRanked ids
Steps-IsRanked ends ranked = tt
Steps-IsRanked gives_up ranked = tt

-- What is asked of a call: the ids of the accounts are those of a primary key, of 128 bits.
abbrev pub IsCall : Call → Type 0
IsCall (transfers cmd claim accounts) =
    Distinct id_of accounts × All (λ (a : Account). a.id < top) accounts
IsCall (replays id) = Unit
IsCall dispatches = Unit

abbrev IsIncreasing : List Account → Type 0
IsIncreasing [] = Unit
IsIncreasing (a ∷ rows) = All (λ (b : Account). a.id < b.id) rows × IsIncreasing rows

insert_by_id-All :
    (P : Account → Type 0) (a : Account) (rows : List Account)
    → P a
    → All P rows
    → All P (insert_by_id a rows)
unfolding insert_by_id
insert_by_id-All P a [] here there = (here, tt)
insert_by_id-All P a (b ∷ rows) here there = elim (Bool-cases (leb a.id b.id)) [
  | inl below ↦ rw below (here, there)
  | inr above ↦ rw above (there.0, insert_by_id-All P a rows here there.1)
]

insert_by_id-IsIncreasing :
    (a : Account) (rows : List Account)
    → find id_of a.id rows ≡ none
    → IsIncreasing rows
    → IsIncreasing (insert_by_id a rows)
unfolding insert_by_id
insert_by_id-IsIncreasing a [] new increasing = (tt, tt)
insert_by_id-IsIncreasing a (b ∷ rows) new increasing = elim (Bool-cases (leb a.id b.id)) [
  | inl below ↦
      let first : a.id < b.id = ground (arith, new) in
      rw below
        ((first, All-map rows (λ c above. omega (arith, first, above)) increasing.0), increasing)
  | inr above ↦ rw above (
    insert_by_id-All (λ c. b.id < c.id) a rows (ground arith) increasing.0,
    insert_by_id-IsIncreasing a rows (ground (arith, new)) increasing.1,
  )
]

order_by_id-IsIncreasing :
    (rows : List Account) → Distinct id_of rows → IsIncreasing (order_by_id rows)
unfolding order_by_id
order_by_id-IsIncreasing [] distinct = tt
order_by_id-IsIncreasing (a ∷ rows) distinct =
    insert_by_id-IsIncreasing a (order_by_id rows)
      ((find-order_by_id rows distinct.1).1 a.id ∙ distinct.0)
      (order_by_id-IsIncreasing rows distinct.1)

order_by_id-All :
    (P : Account → Type 0) (rows : List Account) → All P rows → All P (order_by_id rows)
unfolding order_by_id
order_by_id-All P [] all = tt
order_by_id-All P (a ∷ rows) all =
    insert_by_id-All P a (order_by_id rows) all.0 (order_by_id-All P rows all.1)

where_any_of-All :
    (P : Account → Type 0) (ids : List Uuid) (rows : List Account)
    → All P rows
    → All P (where_any_of ids rows)
unfolding where_any_of
where_any_of-All P ids [] all = tt
where_any_of-All P ids (a ∷ rows) all = elim (Bool-cases (any_of ids a.id)) [
  | inl wanted ↦ rw wanted (all.0, where_any_of-All P ids rows all.1)
  | inr other ↦ rw other (where_any_of-All P ids rows all.1)
]

-- what holds of the accounts' locks and of the reference
account_locks-All :
    (P : Lock → Type 0) (rows : List Account) (ref : Option String)
    → All (λ a. P (account_lock a)) rows
    → ((r : String) → P (reference_entry r))
    → All P (map account_lock rows ++ reference_of ref)
account_locks-All P [] none all last = tt
account_locks-All P [] (some r) all last = (last r, tt)
account_locks-All P (a ∷ rows) ref all last = (all.0, account_locks-All P rows ref all.1 last)

account_locks-IsAscending :
    (rows : List Account) (ref : Option String)
    → IsIncreasing rows
    → All (λ (a : Account). a.id < top) rows
    → IsAscending (map account_lock rows ++ reference_of ref)
account_locks-IsAscending [] none increasing low = tt
account_locks-IsAscending [] (some r) increasing low = (tt, tt)
account_locks-IsAscending (a ∷ rows) ref increasing low = (
  account_locks-All (λ x. suc a.id < rank x) rows ref
      (All-map rows (λ b above. omega (arith, above)) increasing.0) (λ r. omega (arith, low.0)),
  account_locks-IsAscending rows ref increasing.1 low.1,
)

pub begun-IsRanked : (c : Call) → IsCall c → IsRanked (begun c)
unfolding transfer_locks
begun-IsRanked (replays id) is_call = (tt, (tt, tt), tt, (omega arith, tt))
begun-IsRanked dispatches is_call = tt
begun-IsRanked (transfers cmd claim accounts) (distinct, low) =
    let ids : List Uuid = cmd.debit_account_id ∷ cmd.credit_account_id ∷ [] in
    let rows : List Account = order_by_id (where_any_of ids accounts) in
    let rows_low : All (λ (a : Account). a.id < top) rows =
      order_by_id-All (λ a. a.id < top) (where_any_of ids accounts)
        (where_any_of-All (λ a. a.id < top) ids accounts low) in
    let increasing : IsIncreasing rows =
      order_by_id-IsIncreasing (where_any_of ids accounts)
        (where_any_of-Distinct ids accounts distinct) in
    (
      tt,
      (
        account_locks-All (λ x. 0 < rank x) rows cmd.external_ref
            (All-map rows (λ a _. omega arith) rows_low) (λ r. omega arith),
        account_locks-IsAscending rows cmd.external_ref increasing rows_low,
      ),
      tt,
      (
        omega arith,
        account_locks-All (λ x. rank x < suc (suc top)) rows cmd.external_ref
            (All-map rows (λ a below. omega (arith, below)) rows_low) (λ r. omega arith),
      ),
    )
