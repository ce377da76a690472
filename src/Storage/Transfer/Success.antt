-- ===== src/Storage/Transfer/Success.antt =====
-- Which transfers the store posts: every statement of Transfer succeeds.
use go_ledger.Base.{
  ℕ, suc, pos, ◌+ℤ◌, leb_ℤ, ltb, fits_int64, ◌≡◌, refl, true, false, ◌||◌, none, some, is_some,
  List, [], ◌∷◌, map, All, Bytes, ◌==◌, ==_refl, Bool-cases, inl, inr, arith,
}
use go_ledger.Domain.Errors.{Uuid, ok}
use go_ledger.Domain.Account.{Account}
use go_ledger.Domain.Transaction.{Direction, Transaction, TransferCommand}
use go_ledger.Domain.Idempotency.{Claim, RenderFunc}
use go_ledger.Outbox.Event.{created_payload, pending_event, new_transaction_created}
use go_ledger.Storage.Database.{Database, find_transaction, find_event}
use go_ledger.Storage.Session.{Site, Env, Session, exec, draw_uuid}
use go_ledger.Storage.Statements.{
  select_for_update, insert_transaction_row, insert_entry_row, movement, update_row, update_rows,
  update_balances, insert_event_row, stored_event, update_claim, answer_rows, max_int32,
}
use go_ledger.Storage.Statements.Facts.{move_account}
use go_ledger.Storage.Transfer.{
  lookup, require_found, lock_accounts, mismatched, uncovered, write_transaction, insert_leg,
  apply_balances, insert_event, store_response, record_answer, record_event, prepare,
}
use go_ledger.Storage.Transfer.Cases.{transaction_of, Written, written_session}
use go_ledger.Storage.Transfer.Prepared.{event_of, locked, prepared_session}
use go_ledger.Storage.Transfer.Retry.{IsCalm}

module _ (env : Env) (cmd : TransferCommand) (calm : IsCalm env) where
  -- the transaction and its two entries
  write_transaction_posts :
      (s : Session)
      → Written env cmd s
      → write_transaction env cmd s
        ≡ (ok (transaction_of env cmd s.drawn), written_session env cmd s)
  unfolding write_transaction draw_uuid exec insert_transaction_row insert_leg insert_entry_row
  write_transaction_posts s w =
      let amount : leb_ℤ cmd.amount (pos 0) ≡ false = ground (arith, w.positive) in
      rw
        (
          calm Site.insert_transaction,
          w.texts,
          w.new_transaction,
          w.new_ref,
          w.ref_indexed,
          calm (Site.insert_entry Direction.debit),
          amount,
          w.new_debit_entry,
          ==_refl (env.new_uuid s.drawn),
          w.debit_known,
          calm (Site.insert_entry Direction.credit),
          amount,
          w.new_credit_entry,
          ==_refl (env.new_uuid s.drawn),
          w.credit_known,
        )
        refl

  -- The new balances of the two accounts are in the range of bigint, and above their floors.
  abbrev pub Fits : Account → Type 0
  Fits a =
      (fits_int64 (movement cmd.debit_account_id cmd.amount a.id) ≡ true)
      × (fits_int64 (a.balance +ℤ movement cmd.debit_account_id cmd.amount a.id) ≡ true)
      × ((a.allow_negative_balance
            || leb_ℤ (pos 0) (a.balance +ℤ movement cmd.debit_account_id cmd.amount a.id))
          ≡ true)

  abbrev pub FitsIfMoved : Account → Type 0
  FitsIfMoved a = (a.id == cmd.debit_account_id || a.id == cmd.credit_account_id) ≡ true → Fits a

  update_rows_move :
      (rows : List Account)
      → All FitsIfMoved rows
      → update_rows env cmd.debit_account_id cmd.credit_account_id cmd.amount rows
        ≡ ok (map (move_account env cmd.debit_account_id cmd.credit_account_id cmd.amount) rows)
  unfolding update_rows update_row
  update_rows_move [] fits = refl
  update_rows_move (a ∷ rows) fits =
      elim (Bool-cases (a.id == cmd.debit_account_id || a.id == cmd.credit_account_id)) [
        | inl moves ↦
            let here : Fits a = fits.0 moves in
            rw (update_rows_move rows fits.1, moves, here.0, here.1, here.2) refl
        | inr stays ↦ rw (update_rows_move rows fits.1, stays) refl
      ]

  apply_balances_moves :
      (s : Session)
      → All FitsIfMoved s.tx.accounts
      → apply_balances env cmd s ≡ (
        ok tt,
        record s {
          tx = record s.tx {
            accounts =
                map
                  (move_account env cmd.debit_account_id cmd.credit_account_id cmd.amount)
                  s.tx.accounts;
          };
        },
      )
  unfolding apply_balances exec update_balances
  apply_balances_moves s fits = rw (calm Site.apply, update_rows_move s.tx.accounts fits) refl

  marshalled_event :
      (id : Uuid) (t : Transaction) (payload : Bytes)
      → env.marshal (created_payload t) ≡ some payload
      → new_transaction_created env.marshal id t ≡ ok (pending_event id t payload)
  unfolding new_transaction_created
  marshalled_event id t payload done = rw (new_transaction_created, done) refl

  module _ (claim : Claim) (render : RenderFunc) (status : ℕ) (body payload : Bytes) where
    -- what recording the event and the answer meets
    pub record CanRecord (n : ℕ) (db : Database) : Type 0 where
      pub new_event : find_event (env.new_uuid (suc (suc (suc n)))) db ≡ none
      pub marshalled : env.marshal (created_payload (transaction_of env cmd n)) ≡ some payload
      pub rendered : render (transaction_of env cmd n) ≡ ok (status, body)
      pub jsonb_payload : env.jsonb_takes payload ≡ true
      pub int_status : ltb max_int32 status ≡ false
      pub valid_json : env.json_valid body ≡ true
      pub written : is_some (find_transaction (env.new_uuid n) db) ≡ true

    record_event_records :
        (n : ℕ) (s : Session)
        → s.drawn ≡ suc (suc (suc n))
        → CanRecord n s.tx
        → record_event env claim render (transaction_of env cmd n) s ≡ (
          ok (status, body, transaction_of env cmd n),
          record s {
            drawn = suc s.drawn;
            tx = record s.tx {
              outbox_events = stored_event env (event_of env cmd n payload) ∷ s.tx.outbox_events;
              idempotency_keys =
                  answer_rows claim status body (env.new_uuid n) s.tx.idempotency_keys;
            };
          },
        )
    unfolding record_event draw_uuid insert_event exec insert_event_row record_answer store_response
        update_claim
    record_event_records n s drawn can =
        rw
          (
            drawn,
            marshalled_event (env.new_uuid (suc (suc (suc n)))) (transaction_of env cmd n) payload
                can.marshalled,
            calm Site.insert_event,
            can.jsonb_payload,
            can.new_event,
            can.rendered,
            calm Site.store_response,
            can.int_status,
            can.valid_json,
            can.written,
          )
          refl

    -- the session with the transaction and the new balances
    abbrev applied_session : Session → Session
    applied_session s = record (written_session env cmd s) {
      tx = record (written_session env cmd s).tx {
        accounts =
            map (move_account env cmd.debit_account_id cmd.credit_account_id cmd.amount)
              s.tx.accounts;
      };
    }

    pub prepare_posts :
        (s : Session) (debit credit : Account)
        → lookup cmd.debit_account_id (locked cmd s.tx) ≡ some debit
        → lookup cmd.credit_account_id (locked cmd s.tx) ≡ some credit
        → mismatched cmd debit credit ≡ false
        → uncovered cmd credit ≡ false
        → Written env cmd s
        → All FitsIfMoved s.tx.accounts
        → CanRecord s.drawn (written_session env cmd s).tx
        → prepare env cmd claim render s ≡ (
          ok (status, body, transaction_of env cmd s.drawn),
          prepared_session env cmd claim status body payload s,
        )
    unfolding prepare lock_accounts exec select_for_update require_found
    prepare_posts s debit credit found found' same covered written fits can =
        rw
          (
            calm Site.lock,
            found,
            found',
            found,
            found',
            same,
            covered,
            write_transaction_posts s written,
            apply_balances_moves (written_session env cmd s) fits,
            record_event_records s.drawn (applied_session s) refl (record {
              new_event = can.new_event;
              marshalled = can.marshalled;
              rendered = can.rendered;
              jsonb_payload = can.jsonb_payload;
              int_status = can.int_status;
              valid_json = can.valid_json;
              written = can.written;
            }),
          )
          refl
