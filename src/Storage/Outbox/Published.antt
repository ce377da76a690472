-- ===== src/Storage/Outbox/Published.antt =====
-- What DispatchBatch (internal/storage/postgres/outbox.go) publishes: the calls of Publish, with a
-- publisher that keeps a state.
use go_ledger.Base.{
  ℕ, ◌≡◌, refl, false, ap, ◌∙◌, String, Bool, List, [], ◌∷◌, ◌++◌, length, ◌==◌, if◌then◌else◌,
  Option-cases, inl, inr, arith,
}
use go_ledger.Domain.Errors.{Uuid, Error, Result, ok, err}
use go_ledger.Outbox.Event.{Event, Envelope, envelope, relay}
use go_ledger.Storage.Session.{
  Site, Env, Session, Action, continue, ◌>>◌, pure, in_context, exec, begin_tx, rolled_back,
}
use go_ledger.Storage.Transfer.{commit}
use go_ledger.Storage.Outbox.{Publisher, select_due, settle_attempt, settle_batch, dispatch_batch}
use go_ledger.Storage.Outbox.Due.{batch_of}
use go_ledger.Storage.Outbox.Through.{
  StatefulPublisher, error_message, through, settle_through, claim, finished, settled_through,
  dispatch_through,
}

-- what a publisher keeps after the envelopes of these events, in their order
unfoldable pub publish_each : {L : Type 0} → StatefulPublisher L → List Event → L → L
publish_each publish [] l = l
publish_each publish (e ∷ batch) l = publish_each publish batch ((publish (envelope e) l).1)

-- The calls of Publish that lead from one state to another: one for each event of an initial part
-- of the batch, in its order, and for each event of the batch unless the result is an error.
pub record Publishes {L : Type 0} {A : Type 0} (publish : StatefulPublisher L) (l : L)
    (batch : List Event) (r : Result A) (l' : L) : Type 0 where
  pub called : List Event
  pub rest : List Event
  pub split : batch ≡ called ++ rest
  pub kept : l' ≡ publish_each publish called l
  pub all : (a : A) → r ≡ ok a → rest ≡ []

module _ {L : Type 0} (text : Error → String) (env : Env) (publish : StatefulPublisher L) where
  no_calls :
      {A : Type 0} (l : L) (batch : List Event) (x : Error)
      → Publishes {A = A} publish l batch (err x) l
  unfolding publish_each
  no_calls l batch x = record {
    called = [];
    rest = batch;
    split = refl;
    kept = refl;
    all = λ a bad. cc;
  }

  one_call :
      (e : Event) (batch : List Event) (l : L) (q : Result (Unit {0}) × Session)
      (next : Session → (Result (Unit {0}) × Session) × L)
      → ((s : Session)
          → Publishes publish ((publish (envelope e) l).1) batch (next s).0.0 (next s).1)
      → Publishes publish l
          (e ∷ batch)
          (through q ((publish (envelope e) l).1) (λ _. next)).0.0
          (through q ((publish (envelope e) l).1) (λ _. next)).1
  unfolding publish_each
  one_call e batch l (ok _, s) next later = record {
    called = e ∷ (later s).called;
    rest = (later s).rest;
    split = ap (λ b. e ∷ b) (later s).split;
    kept = (later s).kept;
    all = (later s).all;
  }
  one_call e batch l (err x, s) next later = record {
    called = e ∷ [];
    rest = batch;
    split = refl;
    kept = refl;
    all = λ a bad. cc;
  }

  settle_through-Publishes :
      (batch : List Event) (l : L) (s : Session)
      → Publishes publish l batch
          (settle_through text env publish batch l s).0.0
          (settle_through text env publish batch l s).1
  unfolding settle_through publish_each
  settle_through-Publishes [] l s = record {
    called = [];
    rest = [];
    split = refl;
    kept = refl;
    all = λ a done. refl;
  }
  settle_through-Publishes (e ∷ batch) l s =
      one_call e batch l _ (settle_through text env publish batch ((publish (envelope e) l).1))
        (settle_through-Publishes batch ((publish (envelope e) l).1))

  finished-Publishes :
      (batch : List Event) (l l' : L) (q : Result (Unit {0}) × Session) (n : ℕ)
      → Publishes publish l batch q.0 l'
      → Publishes publish l batch (continue q (λ _. finished env n)).0 l'
  finished-Publishes batch l l' (ok t, s) n p = record {
    called = p.called;
    rest = p.rest;
    split = p.split;
    kept = p.kept;
    all = λ a done. p.all t refl;
  }
  finished-Publishes batch l l' (err x, s) n p = record {
    called = p.called;
    rest = p.rest;
    split = p.split;
    kept = p.kept;
    all = λ a bad. cc;
  }

  settled_through-Publishes :
      (batch : List Event) (l : L) (s : Session)
      → Publishes publish l batch
          (settled_through text env publish l batch s).0.0
          (settled_through text env publish l batch s).1
  unfolding publish_each settle_through
  settled_through-Publishes [] l s = record {
    called = [];
    rest = [];
    split = refl;
    kept = refl;
    all = λ a done. refl;
  }
  settled_through-Publishes (e ∷ batch) l s =
      let some_rows : (length (e ∷ batch) == 0) ≡ false = ground arith in
      rw some_rows (
        finished-Publishes (e ∷ batch) l _ _ (length (e ∷ batch))
          (settle_through-Publishes (e ∷ batch) l s))

  pub dispatch_through-Publishes :
      (held : Uuid → Bool) (limit : ℕ) (l : L) (s : Session)
      → Publishes publish l
          (batch_of env held limit s.store)
          (dispatch_through text env held limit publish l s).0.0
          (dispatch_through text env held limit publish l s).1
  unfolding dispatch_through begin_tx exec select_due
  dispatch_through-Publishes held limit l s = elim (Option-cases (env.fault Site.begin)) [
    | inl begins ↦ elim (Option-cases (env.fault Site.claim_batch)) [
      | inl claims ↦
          rw (begins, claims)
            (settled_through-Publishes (batch_of env held limit s.store) l
              (record s { tx = s.store; deferred = [] }))
      | inr (m, fails) ↦ rw (begins, fails) (no_calls l (batch_of env held limit s.store) _)
    ]
    | inr (m, fails) ↦ rw fails (no_calls l (batch_of env held limit s.store) _)
  ]

  -- a publisher whose answers do not depend on what it keeps
  module _ (p : Publisher)
      (answers : (e : Envelope) (l : L) → error_message text (publish e l).0 ≡ p e) where
    through-continue :
        {A B : Type 0} (q : Result A × Session) (l : L) (f : A → Session → (Result B × Session) × L)
        (g : A → Action B)
        → ((a : A) (s : Session) → (f a s).0 ≡ g a s)
        → (through q l f).0 ≡ continue q g
    through-continue (ok a, s) l f g same = same a s
    through-continue (err x, s) l f g same = refl

    settle_through-settle_batch :
        (batch : List Event) (l : L) (s : Session)
        → (settle_through text env publish batch l s).0 ≡ settle_batch env p batch s
    unfolding settle_through settle_batch
    settle_through-settle_batch [] l s = refl
    settle_through-settle_batch (e ∷ batch) l s = rw (answers (envelope e) l) (
        through-continue (settle_attempt env e (p (envelope e)) relay s) _ _
          (λ _. settle_batch env p batch)
          (λ _ s'. settle_through-settle_batch batch ((publish (envelope e) l).1) s'))

    abbrev settles : List Event → Action ℕ
    settles batch = if length batch == 0 then pure 0 else do
      settle_batch env p batch
      in_context "commit dispatch" (commit env)
      pure (length batch)

    settled_through-settles :
        (l : L) (batch : List Event) (s : Session)
        → (settled_through text env publish l batch s).0 ≡ settles batch s
    unfolding settle_through settle_batch
    settled_through-settles l [] s = refl
    settled_through-settles l (e ∷ batch) s =
        let some_rows : (length (e ∷ batch) == 0) ≡ false = ground arith in
        rw some_rows (
          ap (λ q. continue q (λ _. finished env (length (e ∷ batch))))
            (settle_through-settle_batch (e ∷ batch) l s))

    continue-continue :
        {A B C : Type 0} (q : Result A × Session) (f : A → Action B) (g : B → Action C)
        → continue (continue q f) g ≡ continue q (λ a s. continue (f a s) g)
    continue-continue (ok a, s) f g = refl
    continue-continue (err x, s) f g = refl

    pub dispatch_through-dispatch_batch :
        (held : Uuid → Bool) (limit : ℕ) (l : L) (s : Session)
        → (dispatch_through text env held limit publish l s).0 ≡ dispatch_batch env held limit p s
    unfolding dispatch_through dispatch_batch
    dispatch_through-dispatch_batch held limit l s =
        ap (λ (q : Result ℕ × Session). (q.0, rolled_back (q.1)))
          (through-continue (claim env held limit s) l (settled_through text env publish l) settles
              (settled_through-settles l)
            ∙ continue-continue (in_context "begin dispatch" (begin_tx env) s)
                (λ _.
                  in_context "claim outbox batch"
                    (exec env Site.claim_batch (select_due env held limit)))
                settles)
