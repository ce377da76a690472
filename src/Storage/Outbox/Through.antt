-- ===== src/Storage/Outbox/Through.antt =====
-- DispatchBatch (internal/storage/postgres/outbox.go) with a publisher that keeps a state, such as
-- the two of internal/outbox/publisher.go: every call of Publish in its place among the statements.
use go_ledger.Base.{ℕ, String, Bool, Option, none, some, List, [], ◌∷◌, length, ◌==◌, if◌then◌else◌}
use go_ledger.Domain.Errors.{Uuid, Error, Result, ok, err}
use go_ledger.Outbox.Event.{Event, Envelope, envelope, relay}
use go_ledger.Storage.Session.{
  Site, Env, Session, Action, continue, ◌>>◌, pure, in_context, exec, begin_tx, rolled_back,
}
use go_ledger.Storage.Transfer.{commit}
use go_ledger.Storage.Outbox.{select_due, settle_attempt}

-- Publish on what the publisher keeps
abbrev pub StatefulPublisher : Type 0 → Type 0
StatefulPublisher L = Envelope → L → Result (Unit {0}) × L

-- publishErr.Error()
abbrev pub error_message : (Error → String) → Result (Unit {0}) → Option String
error_message text (ok _) = none
error_message text (err e) = some (text e)

-- What a step of the store and the publisher leave, and the next step unless it failed.
abbrev pub through :
    {L A B : Type 0}
    → Result A × Session
    → L
    → (A → Session → (Result B × Session) × L)
    → (Result B × Session) × L
through (ok a, s) l next = next a s
through (err e, s) l next = ((err e, s), l)

-- the loop over the batch
unfoldable pub settle_through :
    {L : Type 0}
    → (Error → String)
    → Env
    → StatefulPublisher L
    → List Event
    → L
    → Session
    → (Result (Unit {0}) × Session) × L
settle_through text env publish [] l s = (pure tt s, l)
settle_through text env publish (e ∷ batch) l s =
    let (answer, l') = publish (envelope e) l in
    through (settle_attempt env e (error_message text answer) relay s) l'
      (λ _. settle_through text env publish batch l')

-- what precedes the loop
abbrev pub claim : Env → (Uuid → Bool) → ℕ → Action (List Event)
claim env held limit =
    in_context "begin dispatch" (begin_tx env)
    >> in_context "claim outbox batch" (exec env Site.claim_batch (select_due env held limit))

abbrev pub finished : Env → ℕ → Action ℕ
finished env n = in_context "commit dispatch" (commit env) >> pure n

-- the loop and the COMMIT, for a batch that was claimed
abbrev pub settled_through :
    {L : Type 0}
    → (Error → String)
    → Env
    → StatefulPublisher L
    → L
    → List Event
    → Session
    → (Result ℕ × Session) × L
settled_through text env publish l batch s =
    if length batch == 0
    then (pure 0 s, l)
    else (let (q, l') = settle_through text env publish batch l s in
        (continue q (λ _. finished env (length batch)), l'))

unfoldable pub dispatch_through :
    {L : Type 0}
    → (Error → String)
    → Env
    → (Uuid → Bool)
    → ℕ
    → StatefulPublisher L
    → L
    → Session
    → (Result ℕ × Session) × L
unfolding settle_through
dispatch_through text env held limit publish l s =
    let (p, l') = through (claim env held limit s) l (settled_through text env publish l) in
    ((p.0, rolled_back (p.1)), l')
