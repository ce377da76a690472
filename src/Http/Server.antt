-- ===== src/Http/Server.antt =====
-- internal/httpapi/router.go: Server, RequestTimeout and the log of requests. Of the middleware only
-- requestLogger is the repository's; what the router's library tells it (the bytes written, the
-- duration and the request's id) comes with the visit.
pub mod Log
use go_ledger.Base.{ℕ, ◌*◌, String, Option, none, some, List, [], ◌∷◌, ◌++◌}
use go_ledger.Storage.Session.{Env, Session}
use go_ledger.Storage.Outbox.{Publisher}
use go_ledger.Http.Handler.{Library, HttpRequest, Response}
use go_ledger.Http.Router.{Matched, answer_request}

-- a request with what it meets
pub record Visit : Type 0 where
  pub env : Env
  pub ping : Option String
  pub request : HttpRequest
  pub matched : Matched
  pub bytes : ℕ
  pub duration_ms : ℕ
  pub request_id : String

-- one line of the log
pub record LogEntry : Type 0 where
  pub method : String
  pub path : String
  pub status : ℕ
  pub bytes : ℕ
  pub duration_ms : ℕ
  pub request_id : String

abbrev pub entry_of : Visit → Response → LogEntry
entry_of v response = record {
  method = v.request.method;
  path = v.request.path;
  status = response.status;
  bytes = v.bytes;
  duration_ms = v.duration_ms;
  request_id = v.request_id;
}

-- requestLogger: the next handler first, then the line
abbrev pub request_logger :
    Visit → Response × Session → List LogEntry → Response × Session × List LogEntry
request_logger v (response, s) log = (response, s, log ++ (entry_of v response ∷ []))

-- The dependencies of Server that change what a handler does; the pool answers a visit's ping, and
-- the service and the events are the store.
pub record Server : Type 1 where
  pub library : Library
  pub publisher : Publisher

-- NewServer
abbrev pub new_server : Library → Publisher → Server
new_server library publisher = record { library = library; publisher = publisher }

-- what the handler of Routes does with one request
unfoldable pub serve_visit :
    Server → Visit → Session → List LogEntry → Response × Session × List LogEntry
unfolding answer_request
serve_visit server v s log =
    request_logger v
      (answer_request server.library server.publisher v.env v.ping v.request v.matched s) log

abbrev pub and_then :
    Response × Session × List LogEntry
    → (Session → List LogEntry → List Response × Session × List LogEntry)
    → List Response × Session × List LogEntry
and_then (response, s, log) rest =
    let (responses, s', log') = rest s log in (response ∷ responses, s', log')

-- one request after another
unfoldable pub serve_visits :
    Server → List Visit → Session → List LogEntry → List Response × Session × List LogEntry
unfolding serve_visit
serve_visits server [] s log = ([], s, log)
serve_visits server (v ∷ visits) s log =
    and_then (serve_visit server v s log) (serve_visits server visits)
