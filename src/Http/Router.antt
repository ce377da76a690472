-- ===== src/Http/Router.antt =====
-- internal/httpapi/router.go: the routes, and what the server does with a request. Which route a
-- method and a path match is for the router of chi to say. Its middleware is not modelled: the
-- deadline of a request is among the faults of the driver.
pub mod Sound
use go_ledger.Base.{ℕ, String, Option, none, some, List, [], ◌∷◌}
use Prim.Native.String.{◌++◌}
use go_ledger.Storage.Session.{Env, Session}
use go_ledger.Storage.Outbox.{Publisher}
use go_ledger.Http.Problem.{Problem, write}
use go_ledger.Http.Handler.{Library, HttpRequest, Body, Response, write_json, refuse}
use go_ledger.Http.Accounts.{handle_create_account, handle_get_account}
use go_ledger.Http.Transactions.{handle_create_transaction, handle_get_transaction}
use go_ledger.Http.Events.{handle_get_event, handle_replay_event}

pub data Endpoint : Type 0 where
  health ready create_account get_account create_transaction get_transaction : Endpoint
  get_event replay_event : Endpoint

pub record Route : Type 0 where
  pub method : String
  pub pattern : String
  pub endpoint : Endpoint

abbrev route : String → String → Endpoint → Route
route method pattern endpoint = record { method = method; pattern = pattern; endpoint = endpoint }

-- Routes
unfoldable pub routes : List Route
routes =
    route "GET" "/healthz" health
    ∷ route "GET" "/readyz" ready
    ∷ route "POST" "/accounts/" create_account
    ∷ route "GET" "/accounts/{id}" get_account
    ∷ route "POST" "/transactions/" create_transaction
    ∷ route "GET" "/transactions/{id}" get_transaction
    ∷ route "GET" "/events/{id}" get_event
    ∷ route "POST" "/events/{id}/replay" replay_event
    ∷ []

-- what the router finds for a request
pub data Matched : Type 0 where
  found : Route → Matched
  no_route : Matched
  other_method : Matched

abbrev handle_health : Response
handle_health = write_json 200 (Body.probe "ok" none)

-- handleReady, by the error of Ping
abbrev handle_ready : Option String → Response
handle_ready none = write_json 200 (Body.probe "ready" none)
handle_ready (some _) = write_json 503 (Body.probe "unavailable" (some "database unreachable"))

abbrev not_found : HttpRequest → Problem
not_found req =
    write 404 "not_found" "Not Found" ("No route matches " ++ req.method ++ " " ++ req.path)

abbrev method_not_allowed : HttpRequest → Problem
method_not_allowed req =
    write 405 "method_not_allowed" "Method Not Allowed"
      (req.method ++ " is not supported on " ++ req.path)

module _ (lib : Library) (publish : Publisher) (env : Env) (ping : Option String)
    (req : HttpRequest) where
  -- the handlers of Routes
  unfoldable pub handle : Endpoint → Session → Response × Session
  unfolding handle_create_account handle_get_account handle_create_transaction
      handle_get_transaction handle_get_event handle_replay_event
  handle health s = (handle_health, s)
  handle ready s = (handle_ready ping, s)
  handle create_account s = handle_create_account lib env req s
  handle get_account s = handle_get_account lib env req s
  handle create_transaction s = handle_create_transaction lib env req s
  handle get_transaction s = handle_get_transaction lib env req s
  handle get_event s = handle_get_event lib env req s
  handle replay_event s = handle_replay_event lib env req publish s

  -- what the server does with a request
  unfoldable pub answer_request : Matched → Session → Response × Session
  unfolding handle write
  answer_request (found r) s = handle r.endpoint s
  answer_request no_route s = (refuse (not_found req), s)
  answer_request other_method s = (refuse (method_not_allowed req), s)
