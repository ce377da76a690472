-- ===== src/Http/Transactions/Creates.antt =====
-- Requests of POST /transactions that are answered with a new transaction.
use go_ledger.Base.{ℕ, suc, ◌≡◌, refl, none, [], Bytes}
use go_ledger.Domain.Errors.{ok}
use go_ledger.Domain.Account.{Account}
use go_ledger.Domain.Transaction.{TransferCommand, validate_transfer}
use go_ledger.Domain.Idempotency.{Claim}
use go_ledger.Storage.Session.{Env, Session}
use go_ledger.Storage.Invariant.{WellFormed}
use go_ledger.Storage.Transfer.Retry.{IsCalm}
use go_ledger.Storage.Transfer.Room.{CanPost}
use go_ledger.Storage.Transfer.Complete.{posted_store, transfer_posts}
use go_ledger.Service.Requests.{service_transfer-validated}
use go_ledger.Http.Handler.{Library, HttpRequest, goes_on, calling}
use go_ledger.Http.Transactions.{render, transfer_request, handle_create_transaction}
use go_ledger.Http.Transactions.Retries.{new_answer}

-- POST /transactions creates every transaction that meets CanPost. Over a driver that works and a
-- COMMIT that goes through, on a well-formed database, a request that is well formed, whose command
-- passes validation and for which CanPost holds (a positive amount in the range of bigint, two
-- accounts that exist and have its currency, the credited one covering it, new balances in the
-- range of bigint, a key that ValidateKey accepts and that is not in use, an external reference
-- that is not in use, new ids, a reference and an endpoint that have room in their indexes, no
-- U+0000 in the endpoint, the description or the reference, a payload that marshals and that jsonb
-- takes, a response that renders as valid JSON with a status in the range of int) is answered with
-- the rendered response, not as a replay, and the committed database is the posting of its command.
pub post_creates :
    (lib : Library) (env : Env) (req : HttpRequest) (s : Session) (cmd : TransferCommand)
    (claim : Claim) (debit credit : Account) (status : ℕ) (body payload : Bytes)
    → IsCalm env
    → env.commit_fault ≡ none
    → WellFormed s.store
    → transfer_request lib req ≡ goes_on (cmd, claim)
    → validate_transfer cmd ≡ ok tt
    → CanPost env cmd claim (render lib) s.store s.drawn debit credit status body payload
    → handle_create_transaction lib env req s ≡ (
      new_answer lib status body,
      record s {
        store = posted_store env cmd claim status body payload s;
        tx = posted_store env cmd claim status body payload s;
        deferred = [];
        drawn = suc (suc (suc (suc s.drawn)));
      },
    )
unfolding handle_create_transaction calling
post_creates lib env req s cmd claim debit credit status body payload calm commits valid prepared
      validated can =
    rw
      (
        prepared,
        service_transfer-validated env cmd claim (render lib) s validated,
        transfer_posts env cmd claim (render lib) calm debit credit status body payload s commits
            valid can,
      )
      refl
