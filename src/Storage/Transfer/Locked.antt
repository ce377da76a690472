-- ===== src/Storage/Transfer/Locked.antt =====
-- What lockAccounts finds: the accounts of the table.
use go_ledger.Base.{
  ℕ, ◌≡◌, refl, sym, ap, ◌∙◌, subst, true, false, Option, none, some, List, [], ◌∷◌, ◌==◌, ==_iff,
  ==_refl, leb, if◌then◌else◌, Bool-cases, inl, inr, arith,
}
use go_ledger.Base.Table.{find, Distinct}
use go_ledger.Domain.Errors.{Uuid}
use go_ledger.Domain.Account.{Account}
use go_ledger.Domain.Transaction.{TransferCommand}
use go_ledger.Storage.Database.{Database, find_account}
use go_ledger.Storage.Statements.{insert_by_id, order_by_id, any_of, where_any_of}
use go_ledger.Storage.Transfer.{FoundAccounts, collect, lookup}
use go_ledger.Storage.Transfer.Prepared.{locked}

abbrev pub id_of : Account → Uuid
id_of a = a.id

abbrev or_found : Option Account → Option Account → Option Account
or_found none rest = rest
or_found (some a) rest = some a

lookup-collect :
    (id : Uuid) (found : FoundAccounts) (rows : List Account)
    → Distinct id_of rows
    → lookup id (collect found rows) ≡ or_found (find id_of id rows) (lookup id found)
unfolding lookup collect
lookup-collect id found [] distinct = refl
lookup-collect id found (a ∷ rows) distinct = elim (Bool-cases (a.id == id)) [
  | inl same ↦
      let gone : find id_of id rows ≡ none =
        subst (λ k. find id_of k rows ≡ none) ((==_iff a.id id).0 same) distinct.0 in
      lookup-collect id ((a.id, a) ∷ found) rows distinct.1 ∙ rw (gone, same) refl
  | inr other ↦ lookup-collect id ((a.id, a) ∷ found) rows distinct.1 ∙ rw other refl
]

swap :
    (i j k : ℕ) (x y rest : Option Account)
    → (j == i) ≡ false
    → (if j == k then y else if i == k then x else rest)
      ≡ (if i == k then x else if j == k then y else rest)
swap i j k x y rest other = ground arith

find-insert_by_id :
    (id : Uuid) (a : Account) (rows : List Account)
    → Distinct id_of (a ∷ rows)
    → find id_of id (insert_by_id a rows) ≡ find id_of id (a ∷ rows)
unfolding insert_by_id
find-insert_by_id id a [] distinct = refl
find-insert_by_id id a (b ∷ rows) distinct = elim (Bool-cases (leb a.id b.id)) [
  | inl below ↦ rw below refl
  | inr above ↦
      let other : (b.id == a.id) ≡ false = ground (arith, distinct.0) in
      let gone : find id_of a.id rows ≡ none = ground (arith, distinct.0) in
      rw (above, find-insert_by_id id a rows (gone, distinct.1.1))
        (swap a.id b.id id (some a) (some b) (find id_of id rows) other)
]

pub insert_by_id-Distinct :
    (a : Account) (rows : List Account)
    → Distinct id_of (a ∷ rows)
    → Distinct id_of (insert_by_id a rows)
unfolding insert_by_id
insert_by_id-Distinct a [] distinct = (refl, tt)
insert_by_id-Distinct a (b ∷ rows) distinct = elim (Bool-cases (leb a.id b.id)) [
  | inl below ↦ rw below distinct
  | inr above ↦
      let gone : find id_of a.id rows ≡ none = ground (arith, distinct.0) in
      let differ : (a.id == b.id) ≡ false = ground (arith, distinct.0) in
      rw above (
        find-insert_by_id b.id a rows (gone, distinct.1.1) ∙ (rw differ distinct.1.0),
        insert_by_id-Distinct a rows (gone, distinct.1.1),
      )
]

pub find-order_by_id :
    (rows : List Account)
    → Distinct id_of rows
    → Distinct id_of (order_by_id rows)
      × ((id : Uuid) → find id_of id (order_by_id rows) ≡ find id_of id rows)
unfolding order_by_id
find-order_by_id [] distinct = (tt, λ id. refl)
find-order_by_id (a ∷ rows) distinct =
    let (ordered, same) = find-order_by_id rows distinct.1 in
    let new : Distinct id_of (a ∷ order_by_id rows) = (same a.id ∙ distinct.0, ordered) in
    (
      insert_by_id-Distinct a (order_by_id rows) new,
      λ id.
          find-insert_by_id id a (order_by_id rows) new
          ∙ ap (λ rest. if a.id == id then some a else rest) (same id),
    )

find-where_any_of-none :
    (ids : List Uuid) (id : Uuid) (rows : List Account)
    → find id_of id rows ≡ none
    → find id_of id (where_any_of ids rows) ≡ none
unfolding where_any_of
find-where_any_of-none ids id [] absent = refl
find-where_any_of-none ids id (a ∷ rows) absent = elim (Bool-cases (a.id == id)) [
  | inl same ↦ let bad : some a ≡ none = rw same at absent in cc (bad)
  | inr other ↦
      let rest : find id_of id (where_any_of ids rows) ≡ none =
        find-where_any_of-none ids id rows (rw other at absent) in
      elim (Bool-cases (any_of ids a.id)) [
        | inl wanted ↦ rw (wanted, other) rest
        | inr unwanted ↦ rw unwanted rest
      ]
]

pub where_any_of-Distinct :
    (ids : List Uuid) (rows : List Account)
    → Distinct id_of rows
    → Distinct id_of (where_any_of ids rows)
unfolding where_any_of
where_any_of-Distinct ids [] distinct = tt
where_any_of-Distinct ids (a ∷ rows) distinct = elim (Bool-cases (any_of ids a.id)) [
  | inl wanted ↦
      rw wanted
        (find-where_any_of-none ids a.id rows distinct.0, where_any_of-Distinct ids rows distinct.1)
  | inr unwanted ↦ rw unwanted (where_any_of-Distinct ids rows distinct.1)
]

find-where_any_of :
    (ids : List Uuid) (id : Uuid) (rows : List Account)
    → any_of ids id ≡ true
    → find id_of id (where_any_of ids rows) ≡ find id_of id rows
unfolding where_any_of
find-where_any_of ids id [] wanted = refl
find-where_any_of ids id (a ∷ rows) wanted = elim (Bool-cases (a.id == id)) [
  | inl same ↦
      let a_wanted : any_of ids a.id ≡ true =
        subst (λ k. any_of ids k ≡ true) (sym ((==_iff a.id id).0 same)) wanted in
      rw (a_wanted, same) refl
  | inr other ↦
      let rest = find-where_any_of ids id rows wanted in
      elim (Bool-cases (any_of ids a.id)) [
        | inl taken ↦ rw (taken, other) rest
        | inr left ↦ rw (left, other) rest
      ]
]

-- a wanted account is looked up as it stands in the table
lookup_wanted :
    (ids : List Uuid) (id : Uuid) (rows : List Account)
    → Distinct id_of rows
    → any_of ids id ≡ true
    → lookup id (collect [] (order_by_id (where_any_of ids rows))) ≡ find id_of id rows
unfolding lookup
lookup_wanted ids id rows distinct wanted =
    let (ordered, same) =
      find-order_by_id (where_any_of ids rows) (where_any_of-Distinct ids rows distinct) in
    lookup-collect id [] (order_by_id (where_any_of ids rows)) ordered
    ∙ rw (same id, find-where_any_of ids id rows wanted) (or_none (find id_of id rows))
  where
    or_none : (o : Option Account) → or_found o none ≡ o
    or_none none = refl
    or_none (some a) = refl

pub debit_lookup :
    (cmd : TransferCommand) (db : Database)
    → Distinct id_of db.accounts
    → lookup cmd.debit_account_id (locked cmd db) ≡ find_account cmd.debit_account_id db
unfolding any_of
debit_lookup cmd db distinct =
    lookup_wanted (cmd.debit_account_id ∷ cmd.credit_account_id ∷ []) cmd.debit_account_id
      db.accounts distinct (rw (==_refl cmd.debit_account_id) refl)

pub credit_lookup :
    (cmd : TransferCommand) (db : Database)
    → Distinct id_of db.accounts
    → lookup cmd.credit_account_id (locked cmd db) ≡ find_account cmd.credit_account_id db
unfolding any_of
credit_lookup cmd db distinct =
    lookup_wanted (cmd.debit_account_id ∷ cmd.credit_account_id ∷ []) cmd.credit_account_id
      db.accounts distinct (ground (arith, ==_refl cmd.credit_account_id))
