-- ===== src/Storage/Outbox/Logged.antt =====
-- What LogPublisher (internal/outbox/publisher.go) logs of a batch.
use go_ledger.Base.{ℕ, ◌≡◌, refl, ◌∙◌, sym, String, Bool, List, [], ◌∷◌, ◌++◌, Bytes}
use mathlib.Core.List.{append_assoc, append-nil}
use go_ledger.Domain.Errors.{Uuid, Error, Result, ok, err}
use go_ledger.Outbox.Event.{Event, Envelope, envelope}
use go_ledger.Outbox.Publisher.{LogLine, log_line, logged, log_publish}
use go_ledger.Storage.Session.{Env, Session}
use go_ledger.Storage.Outbox.{Publisher, dispatch_batch}
use go_ledger.Storage.Outbox.Due.{batch_of}
use go_ledger.Storage.Outbox.Oldest.{ClaimsOldest, claimed_batch-ClaimsOldest}
use go_ledger.Storage.Outbox.Through.{error_message, dispatch_through}
use go_ledger.Storage.Outbox.Published.{
  publish_each, Publishes, dispatch_through-Publishes, dispatch_through-dispatch_batch,
}

-- the line of an envelope that marshals
abbrev pub line : Result Bytes → Envelope → List LogLine
line (ok encoded) e = log_line e encoded ∷ []
line (err x) e = []

-- the lines for these events, in their order
unfoldable pub lines : (Envelope → Result Bytes) → List Event → List LogLine
lines marshal [] = []
lines marshal (e ∷ es) = line (marshal (envelope e)) (envelope e) ++ lines marshal es

-- LogPublisher as a publisher of which only the answers are seen
abbrev pub log_answers : (Error → String) → (Envelope → Result Bytes) → Publisher
log_answers text marshal e = error_message text (logged (marshal e) e []).0

logged-line :
    (r : Result Bytes) (e : Envelope) (log : List LogLine) → (logged r e log).1 ≡ log ++ line r e
logged-line (ok encoded) e log = refl
logged-line (err x) e log = sym (append-nil log)

logged-answer :
    (text : Error → String) (r : Result Bytes) (e : Envelope) (log : List LogLine)
    → error_message text (logged r e log).0 ≡ error_message text (logged r e []).0
logged-answer text (ok encoded) e log = refl
logged-answer text (err x) e log = refl

publish_each-lines :
    (marshal : Envelope → Result Bytes) (batch : List Event) (log : List LogLine)
    → publish_each (log_publish marshal) batch log ≡ log ++ lines marshal batch
unfolding publish_each log_publish lines
publish_each-lines marshal [] log = sym (append-nil log)
publish_each-lines marshal (e ∷ batch) log =
    rw (logged-line (marshal (envelope e)) (envelope e) log) (
      publish_each-lines marshal batch (log ++ line (marshal (envelope e)) (envelope e))
      ∙ append_assoc log (line (marshal (envelope e)) (envelope e)) (lines marshal batch))

-- What DispatchBatch with LogPublisher leaves in the log.
pub record Logs (env : Env) (held : Uuid → Bool) (limit : ℕ) (marshal : Envelope → Result Bytes)
    (before : List LogLine) (s : Session) (r : Result ℕ) (after : List LogLine) : Type 0 where
  pub called : List Event
  pub rest : List Event
  pub oldest : ClaimsOldest env held limit s.store (called ++ rest)
  pub added : after ≡ before ++ lines marshal called
  pub all : (n : ℕ) → r ≡ ok n → rest ≡ []

-- DispatchBatch with LogPublisher calls Publish for the events of its batch in their order. Whatever
-- faults it meets and whichever envelopes marshal, its result and the session that it leaves are
-- those of DispatchBatch with a publisher that refuses just the envelopes that do not marshal; the
-- log has got a line for each envelope that marshals of an initial part of the batch, the oldest of
-- the events that are due and free, in its order; and without an error that part is the whole
-- batch.
pub dispatch_through-Logs :
    (text : Error → String) (env : Env) (held : Uuid → Bool) (limit : ℕ)
    (marshal : Envelope → Result Bytes) (log : List LogLine) (s : Session)
    → ((dispatch_through text env held limit (log_publish marshal) log s).0
        ≡ dispatch_batch env held limit (log_answers text marshal) s)
      × Logs env held limit marshal log s
          (dispatch_through text env held limit (log_publish marshal) log s).0.0
          (dispatch_through text env held limit (log_publish marshal) log s).1
unfolding log_publish
dispatch_through-Logs text env held limit marshal log s =
    let calls : Publishes (log_publish marshal) log (batch_of env held limit s.store)
        (dispatch_through text env held limit (log_publish marshal) log s).0.0
        (dispatch_through text env held limit (log_publish marshal) log s).1 =
      dispatch_through-Publishes text env (log_publish marshal) held limit log s in
    (
      dispatch_through-dispatch_batch text env (log_publish marshal) (log_answers text marshal)
          (λ e l. logged-answer text (marshal e) e l) held limit log s,
      record {
        called = calls.called;
        rest = calls.rest;
        oldest =
            rw (← calls.split)
              (claimed_batch-ClaimsOldest env held limit (log_answers text marshal) s);
        added = calls.kept ∙ publish_each-lines marshal calls.called log;
        all = calls.all;
      },
    )
