-- ===== src/Tests/Locks.antt =====
-- Two transfers in opposite directions between two accounts, which lock them in the same order, and
-- a relay.
use go_ledger.Base.{ℕ, ◌≡◌, refl, true, List, [], ◌∷◌, map, All, arith, bytes_equal}
use go_ledger.Domain.Account.{Account}
use go_ledger.Domain.Transaction.{TransferCommand}
use go_ledger.Domain.Idempotency.{Claim}
use go_ledger.Storage.Statements.{order_by_id, insert_by_id, where_any_of, any_of}
use go_ledger.Locks.{
  Lock, key_row, account_row, event_row, claims, dispatches, Process, running, Call, transfers,
  begun, transfer_locks, taken, any_conflicts, Advances, takes, advances, OneOf, this, later,
  Reaches, stays, goes,
}
use go_ledger.Locks.Ranked.{IsCall}
use go_ledger.Locks.Progress.{any_running, no_deadlock}
use go_ledger.Tests.{deposit}
use go_ledger.Tests.Postings.{the_user, the_funding}

abbrev table : List Account
table = the_user ∷ the_funding ∷ []

abbrev refund : TransferCommand
refund = record deposit { debit_account_id = 100; credit_account_id = 101 }

abbrev claim_with : ℕ → Claim
claim_with k = record { key = k ∷ []; endpoint = "POST /transactions"; fingerprint = [] }

abbrev both : List Call
both =
    transfers deposit (claim_with 1) table ∷ transfers refund (claim_with 2) table ∷ dispatches ∷ []

abbrev key_of : ℕ → Lock
key_of k = key_row (k ∷ []) "POST /transactions"

locks-run :
    (transfer_locks deposit (claim_with 1) table
      ≡ key_of 1 ∷ account_row 100 ∷ account_row 101 ∷ [])
    × (transfer_locks refund (claim_with 2) table
        ≡ key_of 2 ∷ account_row 100 ∷ account_row 101 ∷ [])
unfolding transfer_locks order_by_id insert_by_id where_any_of any_of
locks-run = (refl, refl)

-- Both have their key, the first has the first account, and a relay has a batch of one event.
abbrev halfway : List Process
halfway =
    running (account_row 100 ∷ key_of 1 ∷ []) (account_row 101 ∷ [])
    ∷ running (key_of 2 ∷ []) (account_row 100 ∷ account_row 101 ∷ [])
    ∷ running (event_row 7 ∷ []) []
    ∷ []

to_halfway : Reaches (map begun both) halfway
unfolding taken any_conflicts bytes_equal
to_halfway =
    rw (locks-run.0, locks-run.1)
      (goes
        (goes
          (goes (goes stays (this (advances (takes refl))))
            (later (later (this (advances (claims (7 ∷ []) (refl, tt)))))))
          (later (this (advances (takes refl)))))
        (this (advances (takes refl))))

both-AreCalls : All IsCall both
both-AreCalls = (
  ((refl, (refl, tt)), (omega arith, (omega arith, tt))),
  (((refl, (refl, tt)), (omega arith, (omega arith, tt))), (tt, tt)),
)

halfway-running : any_running halfway ≡ true
unfolding any_running
halfway-running = refl

no_deadlock_example : (ps' : List Process) × OneOf Advances [] halfway ps'
no_deadlock_example = no_deadlock both halfway both-AreCalls to_halfway halfway-running
