-- ===== src/Http/Server/Log.antt =====
-- What a server leaves after a sequence of requests: its log, and a sound database.
use go_ledger.Base.{suc, ◌≡◌, refl, ap, ◌∙◌, sym, List, [], ◌∷◌, ◌++◌, length}
use mathlib.Core.List.{append_assoc, append-nil}
use go_ledger.Storage.Session.{Session}
use go_ledger.Http.Handler.{Response}
use go_ledger.Http.Router.{answer_request}
use go_ledger.Http.Router.Sound.{answer_request-IsSound}
use go_ledger.System.{IsSound}
use go_ledger.Http.Server.{Visit, LogEntry, entry_of, Server, serve_visits}

-- the lines for visits with their responses
unfoldable pub entries : List Visit → List Response → List LogEntry
entries (v ∷ visits) (r ∷ responses) = entry_of v r ∷ entries visits responses
entries _ _ = []

pub record IsServed (visits : List Visit) (log : List LogEntry)
    (p : List Response × Session × List LogEntry) : Type 0 where
  pub sound : IsSound p.1.store
  pub answered : length p.0 ≡ length visits
  pub logged : p.2 ≡ log ++ entries visits p.0

-- A server answers each request once and logs each answer. From a sound database, whatever the
-- clients send and the requests meet, the database stays sound, there is one response for each
-- request, and the log has got one line for each, in order, with its method, its path and the
-- status of its response.
pub serve_visits-IsServed :
    (server : Server) (visits : List Visit) (s : Session) (log : List LogEntry)
    → IsSound s.store
    → IsServed visits log (serve_visits server visits s log)
unfolding serve_visits entries
serve_visits-IsServed server [] s log sound = record {
  sound = sound;
  answered = refl;
  logged = sym (append-nil log);
}
serve_visits-IsServed server (v ∷ visits) s log sound =
    let p = answer_request server.library server.publisher v.env v.ping v.request v.matched s in
    let rest = serve_visits-IsServed server visits p.1 (log ++ (entry_of v p.0 ∷ [])) (
      answer_request-IsSound server.library server.publisher v.env v.ping v.request v.matched s
        sound) in
    record {
      sound = rest.sound;
      answered = ap suc rest.answered;
      logged = rest.logged ∙ append_assoc log (entry_of v p.0 ∷ []) _;
    }
