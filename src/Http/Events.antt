-- ===== src/Http/Events.antt =====
-- internal/httpapi/events.go
use go_ledger.Base.{[], if◌then◌else◌, String}
use go_ledger.Domain.Errors.{Uuid, Error, event_not_found, is, Result, ok, err}
use go_ledger.Outbox.Event.{Event}
use go_ledger.Storage.Session.{Env, Session}
use go_ledger.Storage.Outbox.{Publisher, get_event, deliveries, replay_event}
use go_ledger.Http.Problem.{Problem, write, internal}
use go_ledger.Http.Wire.{new_event_response, new_delivery_response}
use go_ledger.Http.Handler.{
  Library, HttpRequest, Body, Response, write_json, refuse, after, respond, calling,
  parse_uuid_param,
}

-- writeEventError
unfoldable pub write_event_error : (Error → String) → Error → Problem
unfolding is write internal
write_event_error text e =
    if is e event_not_found
    then write 404 "event_not_found" "Event Not Found" (text e)
    else internal

module _ (lib : Library) (env : Env) (req : HttpRequest) where
  -- handleGetEvent after its first call
  abbrev pub with_deliveries : Uuid → Result Event × Session → Response × Session
  with_deliveries id (err e, s) = (refuse (write_event_error lib.error_text e), s)
  with_deliveries id (ok e, s) =
      respond (λ _. internal)
        (λ ds. write_json 200 (Body.event (new_event_response lib.format e ds)))
        (deliveries env id s)

  -- handleGetEvent
  unfoldable pub handle_get_event : Session → Response × Session
  unfolding parse_uuid_param new_event_response write_event_error
  handle_get_event =
      after (parse_uuid_param lib "id" req) λ id s. with_deliveries id (get_event env id s)

  -- handleReplayEvent
  unfoldable pub handle_replay_event : Publisher → Session → Response × Session
  unfolding parse_uuid_param new_event_response write_event_error
  handle_replay_event publish =
      calling (parse_uuid_param lib "id" req) (λ id. replay_event env id publish)
        (write_event_error lib.error_text)
        (λ done. write_json 202 (
          Body.replay (new_event_response lib.format done.0 [])
            (new_delivery_response lib.format done.1)))
