-- ===== src/Storage/Transfer/Complete.antt =====
-- Transfers that Transfer posts.
use go_ledger.Base.{ℕ, suc, arith, pos, ◌≡◌, refl, ◌∙◌, false, none, some, [], ◌∷◌, Bytes, ==_refl}
use go_ledger.Domain.Errors.{Uuid, ok}
use go_ledger.Domain.Account.{Account}
use go_ledger.Domain.Transaction.{TransferCommand}
use go_ledger.Domain.Idempotency.{Claim, RenderFunc}
use go_ledger.Storage.Database.{Database, find_key}
use go_ledger.Storage.Session.{Site, Env, Session, begin_tx, exec}
use go_ledger.Storage.Statements.{
  insert_claim, sum_legs, count_legs, assert_transaction_balanced, run_deferred,
}
use go_ledger.Storage.Invariant.{WellFormed}
use go_ledger.Storage.Invariant.Posting.{sum_legs-posting, count_legs-posting}
use go_ledger.Storage.Transfer.{prepare, claim_key, commit, perform, transfer}
use go_ledger.Storage.Transfer.Cases.{transaction_of, Written}
use go_ledger.Storage.Transfer.Prepared.{posting, prepared_session}
use go_ledger.Storage.Transfer.Locked.{debit_lookup, credit_lookup}
use go_ledger.Storage.Transfer.Retry.{IsCalm}
use go_ledger.Storage.Transfer.Outcome.{claimed}
use go_ledger.Storage.Transfer.Success.{prepare_posts}
use go_ledger.Storage.Transfer.Room.{CanPost, All-FitsIfMoved}

-- the deferred check of a transaction of two entries that cancel
two_legs_pass :
    (id : Uuid) (db : Database)
    → sum_legs id db.ledger_entries ≡ pos 0
    → count_legs id db.ledger_entries ≡ 2
    → run_deferred (id ∷ id ∷ []) db ≡ ok tt
unfolding run_deferred assert_transaction_balanced
two_legs_pass id db zero two = rw (zero, two) refl

-- the database that the commit leaves
abbrev pub posted_store : Env → TransferCommand → Claim → ℕ → Bytes → Bytes → Session → Database
posted_store env cmd claim status body payload s =
    posting env cmd s.drawn claim status body payload (claimed env claim s).tx

module _ (env : Env) (cmd : TransferCommand) (claim : Claim) (render : RenderFunc)
    (calm : IsCalm env) (debit credit : Account) (status : ℕ) (body payload : Bytes) where
  -- the working copy of the claimed key offers what the transfer needs
  claimed-Written :
      (s : Session)
      → CanPost env cmd claim render s.store s.drawn debit credit status body payload
      → Written env cmd (claimed env claim s)
  claimed-Written s can = record {
    texts = rw (can.plain_description, can.plain_ref) refl;
    new_transaction = can.new_transaction;
    new_ref = can.new_ref;
    ref_indexed = can.indexed_ref;
    positive = can.positive;
    new_debit_entry = can.new_debit_entry;
    new_credit_entry = rw can.entries_differ can.new_credit_entry;
    debit_known = rw can.debit_found refl;
    credit_known = rw can.credit_found refl;
  }

  claimed-prepare :
      (s : Session)
      → CanPost env cmd claim render s.store s.drawn debit credit status body payload
      → WellFormed s.store
      → prepare env cmd claim render (claimed env claim s) ≡ (
        ok (status, body, transaction_of env cmd s.drawn),
        prepared_session env cmd claim status body payload (claimed env claim s),
      )
  claimed-prepare s can valid =
      prepare_posts env cmd calm claim render status body payload (claimed env claim s) debit credit
        (debit_lookup cmd (claimed env claim s).tx valid.accounts_distinct ∙ can.debit_found)
        (credit_lookup cmd (claimed env claim s).tx valid.accounts_distinct ∙ can.credit_found)
        can.same_currency can.covered (claimed-Written s can)
        (All-FitsIfMoved env cmd claim render calm debit credit status body payload s.store s.drawn
          can valid)
        (record {
          new_event = can.new_event;
          marshalled = can.marshalled;
          rendered = can.rendered;
          jsonb_payload = can.jsonb_payload;
          int_status = ground (arith, can.int_status);
          valid_json = can.valid_json;
          written = rw (==_refl (env.new_uuid s.drawn)) refl;
        })

  abbrev after : Session → Database
  after = posted_store env cmd claim status body payload

  passes_checks :
      (s : Session)
      → CanPost env cmd claim render s.store s.drawn debit credit status body payload
      → WellFormed s.store
      → run_deferred (env.new_uuid s.drawn ∷ env.new_uuid s.drawn ∷ []) (after s) ≡ ok tt
  passes_checks s can valid =
      two_legs_pass (env.new_uuid s.drawn) (after s)
        (sum_legs-posting env cmd s.drawn s.store (env.new_uuid s.drawn)
          (valid.zero_sum (env.new_uuid s.drawn)))
        (count_legs-posting env cmd s.drawn s.store (env.new_uuid s.drawn) can.new_transaction
            (valid.two_legs (env.new_uuid s.drawn))
          ∙ rw (==_refl (env.new_uuid s.drawn)) refl)

  -- Transfer posts every transfer that meets CanPost. Over a driver that works and a COMMIT that
  -- goes through, on a well-formed database, if CanPost holds (a positive amount in the range of
  -- bigint, two accounts that exist and have its currency, the credited one covering it, new
  -- balances in the range of bigint, a key that ValidateKey accepts and that is not in use, an
  -- external reference that is not in use, new ids, a reference and an endpoint that have room in
  -- their indexes, no U+0000 in the endpoint, the description or the reference, a payload that
  -- marshals and that jsonb takes, a response that renders as valid JSON with a status in the range
  -- of int), then Transfer returns the rendered response and the new transaction, and the committed
  -- database is the posting: the two balances moved, the transaction, its two entries, its event,
  -- and the key with its response.
  pub transfer_posts :
      (s : Session)
      → env.commit_fault ≡ none
      → WellFormed s.store
      → CanPost env cmd claim render s.store s.drawn debit credit status body payload
      → transfer env cmd claim render s ≡ (
        ok (record {
          status = status;
          body = body;
          replayed = false;
          transaction = some (transaction_of env cmd s.drawn);
        }),
        record s {
          store = posted_store env cmd claim status body payload s;
          tx = posted_store env cmd claim status body payload s;
          deferred = [];
          drawn = suc (suc (suc (suc s.drawn)));
        },
      )
  unfolding transfer begin_tx claim_key exec insert_claim perform find_key commit
  transfer_posts s commits valid can =
      rw
        (
          calm Site.begin,
          calm Site.claim,
          can.new_key,
          claimed-prepare s can valid,
          commits,
          passes_checks s can valid,
        )
        refl
