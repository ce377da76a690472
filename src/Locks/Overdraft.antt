-- ===== src/Locks/Overdraft.antt =====
-- No interleaving of transfers overdraws an account: the balances that they check are current.
use go_ledger.Base.{
  ◌+◌, ◌≤◌, ℤ, pos, ◌+ℤ◌, ◌<ℤ◌, leb_ℤ, int_laws, ◌≡◌, refl, sym, ◌∙◌, subst, Bool, true, false,
  ◌||◌, none, some, is_some, List, [], ◌∷◌, ◌++◌, map, All, All-map, All-zip, ◌==◌, ==_iff,
  Bool-cases, inl, inr, arith,
}
use go_ledger.Base.Table.{
  find, Distinct, Distinct-find, Distinct-map, find-map-some, find_key_lem, absent-All,
}
use go_ledger.Domain.Errors.{Uuid}
use go_ledger.Domain.Account.{Account}
use go_ledger.Domain.Transaction.{TransferCommand}
use go_ledger.Storage.Session.{Env}
use go_ledger.Storage.Statements.Facts.{move_account}
use go_ledger.Storage.Transfer.{uncovered}
use go_ledger.Storage.Transfer.Locked.{id_of}
use go_ledger.Storage.Transfer.Room.{covers_floor}
use go_ledger.Locks.Funds.{
  Worker, works, done, reads, one, readers, Acts, locks, commits, ends, OneActs, this, later, Leads,
  stays, goes, started,
}

-- the rows that a transfer has read are those of the table
abbrev pub IsCurrent : List Account → Worker → Type 0
IsCurrent t (works cmd wanted read) = All (λ (a : Account). find id_of a.id t ≡ some a) read
IsCurrent t done = Unit

abbrev pub HasFloor : Account → Type 0
HasFloor a = (a.allow_negative_balance || leb_ℤ (pos 0) a.balance) ≡ true

readers-append :
    (id : Uuid) (us ws : List Worker) → readers id (us ++ ws) ≡ readers id us + readers id ws
unfolding readers
readers-append id [] ws = omega arith
readers-append id (u ∷ us) ws = omega (arith, readers-append id us ws)

module _ (env : Env) (cmd : TransferCommand) where
  abbrev move : Account → Account
  move = move_account env cmd.debit_account_id cmd.credit_account_id cmd.amount

  move_id : (a : Account) → (move a).id ≡ a.id
  move_id a = ground arith

  unread :
      (id : Uuid) (w : Worker) (ws : List Worker)
      → one (reads id w) + readers id ws ≡ 0
      → (reads id w ≡ false) × (readers id ws ≡ 0)
  unread id w ws none_reads = elim (Bool-cases (reads id w)) [
    | inl holds ↦
        let bad : 1 + readers id ws ≡ 0 = rw holds at none_reads in absurd (omega (arith, bad))
    | inr free ↦
        let rest : 0 + readers id ws ≡ 0 = rw free at none_reads in (free, omega (arith, rest))
  ]

  none_found :
      (id : Uuid) (read : List Account)
      → is_some (find id_of id read) ≡ false
      → find id_of id read ≡ none
  none_found id read absent = ground arith

  -- the rows of a transfer that has locked neither account stay as they are
  moved-IsCurrent :
      (t : List Account) (w : Worker)
      → IsCurrent t w
      → reads cmd.debit_account_id w ≡ false
      → reads cmd.credit_account_id w ≡ false
      → IsCurrent (map move t) w
  moved-IsCurrent t done current no_debit no_credit = tt
  moved-IsCurrent t (works cmd' wanted read) current no_debit no_credit =
      All-map read
        (λ a known.
          let ((found, not_debit), not_credit) = known in
          find-map-some id_of move move_id a.id t a found ∙ rw (not_debit, not_credit) refl)
        (All-zip _ _ read
          (All-zip _ _ read current (
            absent-All id_of cmd.debit_account_id read
              (none_found cmd.debit_account_id read no_debit)))
          (absent-All id_of cmd.credit_account_id read
            (none_found cmd.credit_account_id read no_credit)))

  All-moved-IsCurrent :
      (t : List Account) (ws : List Worker)
      → All (IsCurrent t) ws
      → readers cmd.debit_account_id ws ≡ 0
      → readers cmd.credit_account_id ws ≡ 0
      → All (IsCurrent (map move t)) ws
  unfolding readers
  All-moved-IsCurrent t [] current no_debit no_credit = tt
  All-moved-IsCurrent t (w ∷ ws) current no_debit no_credit =
      let (here, there) = unread cmd.debit_account_id w ws no_debit in
      let (here', there') = unread cmd.credit_account_id w ws no_credit in
      (moved-IsCurrent t w current.0 here here', All-moved-IsCurrent t ws current.1 there there')

  credited_floor :
      (allow : Bool) (b m : ℤ)
      → pos 0 <ℤ m
      → (allow || leb_ℤ (pos 0) b) ≡ true
      → (allow || leb_ℤ (pos 0) (b +ℤ m)) ≡ true
  credited_floor allow b m positive floor = grind int_laws

  -- one row keeps its floor
  move-HasFloor :
      (a credit : Account)
      → pos 0 <ℤ cmd.amount
      → uncovered cmd credit ≡ false
      → ((a.id == cmd.credit_account_id) ≡ true → a ≡ credit)
      → HasFloor a
      → HasFloor (move a)
  move-HasFloor a credit positive covered same floor =
      elim (Bool-cases (a.id == cmd.debit_account_id)) [
        | inl is_debit ↦
            rw is_debit
              (credited_floor a.allow_negative_balance a.balance cmd.amount positive floor)
        | inr not_debit ↦ elim (Bool-cases (a.id == cmd.credit_account_id)) [
          | inl is_credit ↦
              let enough : uncovered cmd a ≡ false = rw (same is_credit) covered in
              rw (not_debit, is_credit)
                (covers_floor a.allow_negative_balance a.balance cmd.amount enough)
          | inr other ↦ rw (not_debit, other) floor
        ]
      ]

-- What holds at every point, of the transfers before one and of those from it on: the table has a
-- primary key and no overdrawn account, all that was read is current, and an account has one reader.
record IsGood (seen ws : List Worker) (t : List Account) : Type 0 where
  distinct : Distinct id_of t
  floors : All HasFloor t
  earlier_current : All (IsCurrent t) seen
  current : All (IsCurrent t) ws
  exclusive : (id : Uuid) → readers id seen + readers id ws ≤ 1

reads_locked :
    (cmd : TransferCommand) (wanted : List Uuid) (read : List Account) (a : Account) (id : Uuid)
    → (a.id == id) ≡ false
    → reads id (works cmd wanted (a ∷ read)) ≡ reads id (works cmd wanted read)
reads_locked cmd wanted read a id other = rw other refl

at_most_one : (b : Bool) → one b ≤ 1
at_most_one true = omega arith
at_most_one false = omega arith

locks-IsGood :
    (seen ws : List Worker) (t : List Account) (cmd : TransferCommand) (id : Uuid)
    (wanted : List Uuid) (read : List Account) (a : Account)
    → readers id (seen ++ ws) ≡ 0
    → find id_of id t ≡ some a
    → IsGood seen (works cmd (id ∷ wanted) read ∷ ws) t
    → IsGood seen (works cmd wanted (a ∷ read) ∷ ws) t
unfolding readers
locks-IsGood seen ws t cmd id wanted read a free found good =
    let its_id : a.id ≡ id = find_key_lem id_of id t a found in
    record {
      distinct = good.distinct;
      floors = good.floors;
      earlier_current = good.earlier_current;
      current = (
        (subst (λ k. find id_of k t ≡ some a) (sym its_id) found, good.current.0),
        good.current.1,
      );
      exclusive = λ k. elim (Bool-cases (a.id == k)) [
        | inl same ↦
            let is_id : id ≡ k = sym its_id ∙ (==_iff a.id k).0 same in
            let none_else : readers k seen + readers k ws ≡ 0 =
              subst (λ j. readers j seen + readers j ws ≡ 0) is_id
                (sym (readers-append id seen ws) ∙ free) in
            omega (arith, none_else, at_most_one (reads k (works cmd wanted (a ∷ read))))
        | inr other ↦ rw other (good.exclusive k)
      ];
    }

found_reads :
    (cmd : TransferCommand) (id : Uuid) (read : List Account) (a : Account)
    → find id_of id read ≡ some a
    → one (reads id (works cmd [] read)) ≡ 1
found_reads cmd id read a found = rw found refl

current_found :
    (t : List Account) (k : Uuid) (read : List Account) (a : Account)
    → All (λ (x : Account). find id_of x.id t ≡ some x) read
    → find id_of k read ≡ some a
    → find id_of k t ≡ some a
current_found t k [] a current found = cc (found)
current_found t k (x ∷ read) a current found = elim (Bool-cases (x.id == k)) [
  | inl same ↦
      let here : some x ≡ some a = rw same at found in
      subst (λ j. find id_of j t ≡ some x) ((==_iff x.id k).0 same) current.0 ∙ here
  | inr other ↦ current_found t k read a current.1 (rw other at found)
]

same_row :
    (t : List Account) (k : Uuid) (a b : Account)
    → find id_of a.id t ≡ some a
    → find id_of k t ≡ some b
    → (a.id == k) ≡ true
    → a ≡ b
same_row t k a b found found' same =
    let here : find id_of k t ≡ some a =
      subst (λ j. find id_of j t ≡ some a) ((==_iff a.id k).0 same) found in
    cc (here, found')

map-All :
    (P Q : Account → Type 0) (f : Account → Account) (xs : List Account)
    → ((a : Account) → P a → Q (f a))
    → All P xs
    → All Q (map f xs)
map-All P Q f [] step all = tt
map-All P Q f (x ∷ xs) step all = (step x all.0, map-All P Q f xs step all.1)

commits-IsGood :
    (seen ws : List Worker) (t : List Account) (cmd : TransferCommand) (read : List Account)
    (env : Env) (debit credit : Account)
    → find id_of cmd.debit_account_id read ≡ some debit
    → find id_of cmd.credit_account_id read ≡ some credit
    → uncovered cmd credit ≡ false
    → pos 0 <ℤ cmd.amount
    → IsGood seen (works cmd [] read ∷ ws) t
    → IsGood seen (done ∷ ws) (map (move env cmd) t)
unfolding readers
commits-IsGood seen ws t cmd read env debit credit debit_read credit_read covered positive good =
    let debit_one = found_reads cmd cmd.debit_account_id read debit debit_read in
    let credit_one = found_reads cmd cmd.credit_account_id read credit credit_read in
    let debit_alone = good.exclusive cmd.debit_account_id in
    let credit_alone = good.exclusive cmd.credit_account_id in
    let credit_now : find id_of cmd.credit_account_id t ≡ some credit =
      current_found t cmd.credit_account_id read credit good.current.0 credit_read in
    record {
      distinct = Distinct-map id_of (move env cmd) (move_id env cmd) t good.distinct;
      floors =
          map-All (λ a. (find id_of a.id t ≡ some a) × HasFloor a) HasFloor (move env cmd) t
            (λ a known.
              move-HasFloor env cmd a credit positive covered
                (same_row t cmd.credit_account_id a credit known.0 credit_now) known.1)
            (All-zip _ _ t (Distinct-find id_of t good.distinct) good.floors);
      earlier_current =
          All-moved-IsCurrent env cmd t seen good.earlier_current
            (omega (arith, debit_one, debit_alone)) (omega (arith, credit_one, credit_alone));
      current = (
        tt,
        All-moved-IsCurrent env cmd t ws good.current.1 (omega (arith, debit_one, debit_alone))
            (omega (arith, credit_one, credit_alone)),
      );
      exclusive = λ id. omega (arith, good.exclusive id);
    }

Acts-IsGood :
    (seen ws : List Worker) (t t' : List Account) (w w' : Worker)
    → Acts (seen ++ ws) t w t' w'
    → IsGood seen (w ∷ ws) t
    → IsGood seen (w' ∷ ws) t'
unfolding readers
Acts-IsGood seen ws t t' w w' (locks a free found) good =
    locks-IsGood seen ws t _ _ _ _ a free found good
Acts-IsGood seen ws t t' w w' (commits env debit credit debit_read credit_read covered positive)
      good =
    commits-IsGood seen ws t _ _ env debit credit debit_read credit_read covered positive good
Acts-IsGood seen ws t t' w w' ends good = record {
  distinct = good.distinct;
  floors = good.floors;
  earlier_current = good.earlier_current;
  current = (tt, good.current.1);
  exclusive = λ id. omega (arith, good.exclusive id);
}

OneActs-IsGood :
    {seen ws ws' : List Worker} {t t' : List Account}
    → OneActs seen t ws t' ws'
    → IsGood seen ws t
    → IsGood seen ws' t'
unfolding readers
OneActs-IsGood (this step) good = Acts-IsGood _ _ _ _ _ _ step good
OneActs-IsGood (later step) good =
    let after = OneActs-IsGood step (record {
      distinct = good.distinct;
      floors = good.floors;
      earlier_current = (good.current.0, good.earlier_current);
      current = good.current.1;
      exclusive = λ id. omega (arith, good.exclusive id);
    }) in
    record {
      distinct = after.distinct;
      floors = after.floors;
      earlier_current = after.earlier_current.1;
      current = (after.earlier_current.0, after.current);
      exclusive = λ id. omega (arith, after.exclusive id);
    }

Leads-IsGood :
    {t t' : List Account} {ws ws' : List Worker}
    → Leads t ws t' ws'
    → IsGood [] ws t
    → IsGood [] ws' t'
Leads-IsGood stays good = good
Leads-IsGood (goes before step) good = OneActs-IsGood step (Leads-IsGood before good)

started-unread :
    (id : Uuid) (transfers : List (TransferCommand × List Uuid))
    → readers id (map started transfers) ≡ 0
unfolding readers
started-unread id [] = refl
started-unread id (x ∷ transfers) = omega (arith, started-unread id transfers)

started-IsCurrent :
    (t : List Account) (transfers : List (TransferCommand × List Uuid))
    → All (IsCurrent t) (map started transfers)
started-IsCurrent t [] = tt
started-IsCurrent t (x ∷ transfers) = (tt, started-IsCurrent t transfers)

-- No interleaving overdraws an account. From a table of accounts with distinct ids of which none is
-- overdrawn that may not be, however the steps of transfers interleave that lock and read rows,
-- check what they have read and commit, none is overdrawn that may not be, although the constraint
-- on the floor is left out; and every row that an unfinished transfer has read is the row of the
-- table.
pub no_overdraft :
    (transfers : List (TransferCommand × List Uuid)) (t t' : List Account) (ws : List Worker)
    → Distinct id_of t
    → All HasFloor t
    → Leads t (map started transfers) t' ws
    → All HasFloor t' × All (IsCurrent t') ws
unfolding readers
no_overdraft transfers t t' ws distinct floors led =
    let good : IsGood [] ws t' = Leads-IsGood led (record {
      distinct = distinct;
      floors = floors;
      earlier_current = tt;
      current = started-IsCurrent t transfers;
      exclusive = λ id. omega (arith, started-unread id transfers);
    }) in
    (good.floors, good.current)
