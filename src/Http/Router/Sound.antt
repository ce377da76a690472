-- ===== src/Http/Router/Sound.antt =====
-- What the requests of clients do to the database.
use go_ledger.Base.{String, ◌≡◌, refl, sym, subst, Option, All}
use go_ledger.Base.{true, false}
use text.Mathlib.Text.{◌==◌}
use go_ledger.Domain.Errors.{Uuid, Error, Result, ok, err}
use go_ledger.Outbox.Event.{Event}
use go_ledger.Storage.Session.{Env, Session, Action}
use go_ledger.Storage.Outbox.{Publisher, get_event, deliveries}
use go_ledger.Storage.Accounts
use go_ledger.Service
use go_ledger.Service.{open_account, service_transfer}
use go_ledger.Service.Cases.{opens, moves, serve}
use go_ledger.System.{requests, replays, perform_call, IsSound}
use go_ledger.System.Outbox.{perform_call-IsSound}
use go_ledger.Http.Problem.{Problem}
use go_ledger.Http.Handler.{
  Library, HttpRequest, Response, Answer, goes_on, answers, after, respond, calling,
  parse_uuid_param,
}
use go_ledger.Http.Accounts.{handle_create_account, handle_get_account, account_command}
use go_ledger.Http.Transactions.{handle_create_transaction, handle_get_transaction, render}
use go_ledger.Http.Events.{with_deliveries, handle_get_event, handle_replay_event}
use go_ledger.Http.Router.{
  Endpoint, health, ready, create_account, create_transaction, Route, routes, Matched, found,
  no_route, other_method, handle, answer_request,
}

respond-session :
    {A : Type 0} (failed : Error → Problem) (done : A → Response) (p : Result A × Session)
    → (respond failed done p).1 ≡ p.1
respond-session failed done (ok a, s) = refl
respond-session failed done (err e, s) = refl

-- A handler leaves the session that its call leaves, or the one that it was given.
after-session :
    {A : Type 0} (P : Session → Type 0) (a : Answer A) (rest : A → Session → Response × Session)
    (s : Session)
    → P s
    → ((x : A) → P (rest x s).1)
    → P (after a rest s).1
after-session P (goes_on x) rest s here there = there x
after-session P (answers r) rest s here there = here

with_deliveries-session :
    (lib : Library) (env : Env) (req : HttpRequest) (id : Uuid) (r : Result Event) (s : Session)
    → (with_deliveries lib env req id (r, s)).1 ≡ s
unfolding deliveries
with_deliveries-session lib env req id (err e) s = refl
with_deliveries-session lib env req id (ok e) s = respond-session _ _ (deliveries env id s)

-- the endpoints that read
abbrev pub Reads : Endpoint → Type 0
Reads health = Unit
Reads ready = Unit
Reads Endpoint.get_account = Unit
Reads Endpoint.get_transaction = Unit
Reads Endpoint.get_event = Unit
Reads create_account = ⊥
Reads create_transaction = ⊥
Reads Endpoint.replay_event = ⊥

calling-session :
    {A B : Type 0} (P : Session → Type 0) (asked : Answer A) (call : A → Action B)
    (failed : Error → Problem) (done : B → Response) (s : Session)
    → P s
    → ((a : A) → P (call a s).1)
    → P (calling asked call failed done s).1
unfolding calling
calling-session P asked call failed done s here there =
    after-session P asked (λ a s'. respond failed done (call a s')) s here
      λ a. subst P (sym (respond-session failed done (call a s))) (there a)

module _ (lib : Library) (publish : Publisher) (env : Env) (ping : Option String)
    (req : HttpRequest) (s : Session) where
  abbrev Kept : Session → Type 0
  Kept s' = s' ≡ s

  handle-Reads : (e : Endpoint) → Reads e → (handle lib publish env ping req e s).1 ≡ s
  unfolding handle handle_get_account Service.get_account Accounts.get_account
      handle_get_transaction Service.get_transaction Accounts.get_transaction handle_get_event
      get_event
  handle-Reads health reads = refl
  handle-Reads ready reads = refl
  handle-Reads Endpoint.get_account reads = calling-session Kept _ _ _ _ s refl λ id. refl
  handle-Reads Endpoint.get_transaction reads = calling-session Kept _ _ _ _ s refl λ id. refl
  handle-Reads Endpoint.get_event reads =
      after-session Kept (parse_uuid_param lib "id" req)
        (λ id s'. with_deliveries lib env req id (get_event env id s')) s refl
        λ id. with_deliveries-session lib env req id _ s
  handle-Reads create_account reads = elim reads [ ]
  handle-Reads create_transaction reads = elim reads [ ]
  handle-Reads Endpoint.replay_event reads = elim reads [ ]

  abbrev Sound : Session → Type 0
  Sound s' = IsSound s'.store

  handle-IsSound :
      (e : Endpoint) → IsSound s.store → IsSound (handle lib publish env ping req e s).1.store
  unfolding handle handle_create_account handle_create_transaction handle_replay_event perform_call
      serve
  handle-IsSound create_account sound =
      calling-session Sound _ _ _ _ s sound
        λ body. perform_call-IsSound s (requests (opens env (account_command body))) sound
  handle-IsSound create_transaction sound =
      calling-session Sound _ _ _ _ s sound
        λ p. perform_call-IsSound s (requests (moves env p.0 p.1 (render lib))) sound
  handle-IsSound Endpoint.replay_event sound =
      calling-session Sound _ _ _ _ s sound
        λ id. perform_call-IsSound s (replays env id publish) sound
  handle-IsSound health sound = sound
  handle-IsSound ready sound = sound
  handle-IsSound Endpoint.get_account sound = rw (handle-Reads Endpoint.get_account tt) sound
  handle-IsSound Endpoint.get_transaction sound =
      rw (handle-Reads Endpoint.get_transaction tt) sound
  handle-IsSound Endpoint.get_event sound = rw (handle-Reads Endpoint.get_event tt) sound

-- Whatever a client sends and the router matches, from a sound database, with any faults of the
-- driver and any answer of the publisher, the database stays sound.
pub answer_request-IsSound :
    (lib : Library) (publish : Publisher) (env : Env) (ping : Option String) (req : HttpRequest)
    (m : Matched) (s : Session)
    → IsSound s.store
    → IsSound (answer_request lib publish env ping req m s).1.store
unfolding answer_request
answer_request-IsSound lib publish env ping req (found r) s sound =
    handle-IsSound lib publish env ping req s r.endpoint sound
answer_request-IsSound lib publish env ping req no_route s sound = sound
answer_request-IsSound lib publish env ping req other_method s sound = sound

-- what a request to a route of the table with the method GET leaves as it is
abbrev pub GetKeeps : Route → Session → Session → Type 0
GetKeeps r s s' = elim (r.method == "GET") [ true ↦ s' ≡ s | false ↦ Unit {0} ]

-- A request that matches a GET route of the table changes nothing, whatever its handler meets.
pub get_routes_change_nothing :
    (lib : Library) (publish : Publisher) (env : Env) (ping : Option String) (req : HttpRequest)
    (s : Session)
    → All (λ r. GetKeeps r s (answer_request lib publish env ping req (found r) s).1) routes
unfolding answer_request routes handle
get_routes_change_nothing lib publish env ping req s =
    let reads : (e : Endpoint) → Reads e → (handle lib publish env ping req e s).1 ≡ s =
      handle-Reads lib publish env ping req s in
    let from_accounts : ((handle_get_account lib env req s).1 ≡ s)
        × (Unit {0}
            × (((handle_get_transaction lib env req s).1 ≡ s)
                × (((handle_get_event lib env req s).1 ≡ s) × (Unit {0} × Unit {0})))) =
      (
        reads Endpoint.get_account tt,
        (tt, (reads Endpoint.get_transaction tt, (reads Endpoint.get_event tt, (tt, tt)))),
      ) in
    (reads health tt, (reads ready tt, (tt, from_accounts)))
