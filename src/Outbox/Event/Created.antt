-- ===== src/Outbox/Event/Created.antt =====
-- What NewTransactionCreated returns when it succeeds.
use go_ledger.Base.{◌≡◌, inl, inr, Option, some, Bytes, Option-cases, arith}
use go_ledger.Domain.Errors.{Uuid, ok}
use go_ledger.Domain.Transaction.{Transaction}
use go_ledger.Outbox.Event.{
  TransactionCreatedPayload, Event, created_payload, pending_event, new_transaction_created,
}

pub new_transaction_created-ok :
    (marshal : TransactionCreatedPayload → Option Bytes) (id : Uuid) (t : Transaction) (e : Event)
    → new_transaction_created marshal id t ≡ ok e
    → (payload : Bytes) × (marshal (created_payload t) ≡ some payload)
      × (e ≡ pending_event id t payload)
unfolding new_transaction_created
new_transaction_created-ok marshal id t e h = elim (Option-cases (marshal (created_payload t))) [
  | inl failed ↦ absurd (ground arith)
  | inr (payload, done) ↦ (payload, done, ground arith)
]
