-- ===== src/Tests/System.antt =====
-- The whole system at concrete inputs: the ledger and its history.
use go_ledger.Base.{◌≡◌, refl, ap, false, [], ◌∷◌}
use go_ledger.Domain.Errors.{ok}
use go_ledger.Service
use go_ledger.Service.{open_account}
use go_ledger.Service.Cases.{opens, moves, serve}
use go_ledger.Service.ReadBack.{as_read, transfer_read_back}
use go_ledger.System.{requests, dispatches, perform_call, perform_all, IsSound}
use go_ledger.System.Outbox.{perform_all-IsSound}
use go_ledger.System.Totals.{total, IsZeroSum, perform_all-IsZeroSum}
use go_ledger.System.History.{Extends, perform_all-Extends, get_transaction_stable}
use go_ledger.Tests.{
  test_env, start, opened, opened-WellFormed, funding, user, deposit, deposit-valid, deposit-run,
  test_claim, test_render, test_result, posted_session,
}
use go_ledger.Tests.Relay.{no_broker, start-IsSound}
use go_ledger.Tests.Http.{opened-IsSound}

start-IsZeroSum : IsZeroSum start.store
unfolding total
start-IsZeroSum c = refl

perform_all-IsZeroSum_example :
    IsZeroSum
      (perform_all start (
        requests (opens test_env funding)
        ∷ requests (opens test_env user)
        ∷ requests (moves test_env deposit test_claim test_render)
        ∷ [])).store
perform_all-IsZeroSum_example =
    perform_all-IsZeroSum start
      (requests (opens test_env funding)
        ∷ requests (opens test_env user)
        ∷ requests (moves test_env deposit test_claim test_render)
        ∷ [])
      start-IsSound start-IsZeroSum

perform_all-Extends_example :
    Extends opened.store
      (perform_all opened (
        requests (moves test_env deposit test_claim test_render)
        ∷ dispatches test_env (λ _. false) 10 no_broker
        ∷ [])).store
perform_all-Extends_example =
    perform_all-Extends opened
      (requests (moves test_env deposit test_claim test_render)
        ∷ dispatches test_env (λ _. false) 10 no_broker
        ∷ [])
      opened-IsSound

posted-IsSound : IsSound posted_session.store
unfolding perform_all perform_call serve
posted-IsSound =
    perform_all-IsSound opened (requests (moves test_env deposit test_claim test_render) ∷ [])
      opened-IsSound

deposit-read :
    (Service.get_transaction test_env (test_env.new_uuid opened.drawn) posted_session).0
    ≡ ok (as_read test_env deposit opened.drawn)
deposit-read =
    ap (λ p. p.0)
      (transfer_read_back test_env deposit test_claim test_render opened test_result test_env
        posted_session opened-WellFormed deposit-valid deposit-run.0 refl refl (λ _. refl)).1

-- the deposit has been read, and the user's account has been opened again since
get_transaction_stable_example :
    Service.get_transaction test_env
      (test_env.new_uuid opened.drawn)
      (perform_all posted_session (requests (opens test_env user) ∷ []))
    ≡ (
      ok (as_read test_env deposit opened.drawn),
      perform_all posted_session (requests (opens test_env user) ∷ []),
    )
get_transaction_stable_example =
    get_transaction_stable test_env test_env (test_env.new_uuid opened.drawn) posted_session
      (as_read test_env deposit opened.drawn) (requests (opens test_env user) ∷ []) posted-IsSound
      deposit-read (λ _. refl)
