-- ===== src/Outbox/Publisher.antt =====
-- internal/outbox/publisher.go: the two publishers. Publish is a step on what the publisher keeps:
-- the log, or the envelopes that it has recorded; the mutex makes each call one step.
use go_ledger.Base.{ℕ, String, Option, none, some, List, [], ◌∷◌, ◌++◌, Bytes, length}
use go_ledger.Domain.Errors.{Uuid, Error, wrap, Result, ok, err}
use go_ledger.Outbox.Event.{Envelope}

-- what LogPublisher logs of an envelope
pub record LogLine : Type 0 where
  pub event_id : Uuid
  pub event_type : String
  pub schema_version : ℕ
  pub aggregate_id : Uuid
  pub envelope : Bytes

abbrev pub log_line : Envelope → Bytes → LogLine
log_line e encoded = record {
  event_id = e.event_id;
  event_type = e.event_type;
  schema_version = e.schema_version;
  aggregate_id = e.aggregate.id;
  envelope = encoded;
}

abbrev pub logged : Result Bytes → Envelope → List LogLine → Result (Unit {0}) × List LogLine
logged (err e) envelope log = (err (wrap "marshal envelope" e), log)
logged (ok encoded) envelope log = (ok tt, log ++ (log_line envelope encoded ∷ []))

-- LogPublisher.Publish; `marshal` is json.Marshal
unfoldable pub log_publish :
    (Envelope → Result Bytes) → Envelope → List LogLine → Result (Unit {0}) × List LogLine
log_publish marshal e log = logged (marshal e) e log

pub record RecordingPublisher : Type 0 where
  pub published : List Envelope
  pub error : Option Error

abbrev pub recorded :
    Option Error → Envelope → RecordingPublisher → Result (Unit {0}) × RecordingPublisher
recorded (some x) e p = (err x, p)
recorded none e p = (ok tt, record p { published = p.published ++ (e ∷ []) })

-- RecordingPublisher.Publish
unfoldable pub record_publish :
    Envelope → RecordingPublisher → Result (Unit {0}) × RecordingPublisher
record_publish e p = recorded p.error e p

-- Published
abbrev pub published_envelopes : RecordingPublisher → List Envelope
published_envelopes p = [] ++ p.published

-- Count
abbrev pub published_count : RecordingPublisher → ℕ
published_count p = length p.published
