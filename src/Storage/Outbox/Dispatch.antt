-- ===== src/Storage/Outbox/Dispatch.antt =====
-- How a call of DispatchBatch (internal/storage/postgres/outbox.go) can end.
use go_ledger.Base.{
  ℕ, ◌≡◌, refl, sym, ap, Bool, false, Option, none, some, String, List, [], ◌∷◌, length, ◌==◌, inl,
  inr, ◌⊎◌, if◌then◌else◌, arith,
}
use go_ledger.Domain.Errors.{Uuid, Result, ok, err, ok-injective}
use go_ledger.Outbox.Event.{Event}
use go_ledger.Storage.Database.{Database}
use go_ledger.Storage.Session.{
  Site, Env, Session, Action, ack_lost, continue, contextualise, ◌>>=◌, ◌>>◌, in_context, exec,
  pure, begun, begin_tx, rolled_back,
}
use go_ledger.Storage.Transfer.{commit}
use go_ledger.Storage.Transfer.Cases.{stated_cases}
use go_ledger.Storage.Transfer.Outcome.{commit_cases}
use go_ledger.Storage.Outbox.{Publisher, select_due, settle_batch, dispatch_batch}
use go_ledger.Storage.Outbox.Due.{batch_of}
use go_ledger.Storage.Outbox.Batch.{settled_all, settle_batch_cases}

module _ (env : Env) (held : Uuid → Bool) (limit : ℕ) (publish : Publisher) (s : Session) where
  -- the claimed rows, and the session in which they are
  abbrev pub claimed_batch : List Event
  claimed_batch = batch_of env held limit s.store

  abbrev opened : Session
  opened = record s { tx = s.store; deferred = [] }

  abbrev pub dispatched_store : Database
  dispatched_store = (settled_all env publish claimed_batch opened).tx

  -- All of the batch is settled or none of it; the caller is told the size of a batch that was.
  abbrev pub Ended : Result ℕ → Database → Type 0
  Ended (ok n) db = (n ≡ length claimed_batch) × (db ≡ dispatched_store)
  Ended (err x) db =
      (db ≡ s.store)
      ⊎ (((m : String) × (env.commit_fault ≡ some (ack_lost m))) × (db ≡ dispatched_store))

  abbrev Ends : Result ℕ × Session → Type 0
  Ends p = Ended p.0 p.1.store

  settled_all-deferred :
      (batch : List Event) (s' : Session)
      → ((settled_all env publish batch s').deferred ≡ s'.deferred)
        × ((settled_all env publish batch s').store ≡ s'.store)
  unfolding settled_all
  settled_all-deferred [] s' = (refl, refl)
  settled_all-deferred (e ∷ batch) s' = settled_all-deferred batch _

  dispatch : List Event → Action ℕ
  dispatch batch = if length batch == 0 then pure 0 else do
    settle_batch env publish batch
    in_context "commit dispatch" (commit env)
    pure (length batch)

  commit_and_count : ℕ → Action ℕ
  commit_and_count n = in_context "commit dispatch" (commit env) >> pure n

  counted-Ends :
      (batch : List Event)
      → batch ≡ claimed_batch
      → Ends (commit_and_count (length batch) (settled_all env publish batch opened))
  unfolding commit_and_count
  counted-Ends batch same =
      let after : Session = settled_all env publish batch opened in
      commit_cases
        (λ p. Ends (continue (contextualise "commit dispatch" p.0, p.1) (λ _. pure (length batch))))
        env after (λ _. inl ((settled_all-deferred batch opened).1))
        (λ _. (ap length same, ap (λ b. (settled_all env publish b opened).tx) same))
        λ m _ lost _. inr ((m, lost), ap (λ b. (settled_all env publish b opened).tx) same)

  dispatch-Ends : (batch : List Event) → batch ≡ claimed_batch → Ends (dispatch batch opened)
  unfolding dispatch commit_and_count settled_all
  dispatch-Ends [] same = (ap length same, ap (λ b. (settled_all env publish b opened).tx) same)
  dispatch-Ends (e ∷ batch) same =
      let some_rows : (length (e ∷ batch) == 0) ≡ false = ground arith in
      rw some_rows (
        settle_batch_cases Ends env publish (e ∷ batch) (λ _. commit_and_count (length (e ∷ batch)))
          opened (λ x s' kept. inl kept) (counted-Ends (e ∷ batch) same))

  begun-Ends :
      (fault : Option String)
      → Ends (
          continue
            (contextualise "begin dispatch" (begun fault s).0, (begun fault s).1)
            (λ _.
              in_context "claim outbox batch"
                (exec env Site.claim_batch (select_due env held limit))
              >>= dispatch))
  unfolding select_due
  begun-Ends (some m) = inl refl
  begun-Ends none =
      stated_cases Ends "claim outbox batch" env Site.claim_batch (select_due env held limit)
        dispatch opened (λ _. inl refl)
        λ batch db claimed.
          rw (sym (ap (λ p. p.1) (ok-injective claimed)))
            (dispatch-Ends batch (sym (ap (λ p. p.0) (ok-injective claimed))))

  rolled_back-Ends : (r : Result ℕ) (s' : Session) → Ends (r, s') → Ends (r, rolled_back s')
  rolled_back-Ends (ok n) s' ends = ends
  rolled_back-Ends (err x) s' ends = ends

  pub dispatch_batch-Ends : Ends (dispatch_batch env held limit publish s)
  unfolding dispatch_batch begin_tx dispatch
  dispatch_batch-Ends =
      let p : Result ℕ × Session =
        continue
          (
            contextualise "begin dispatch" (begun (env.fault Site.begin) s).0,
            (begun (env.fault Site.begin) s).1,
          )
          (λ _.
            in_context "claim outbox batch" (exec env Site.claim_batch (select_due env held limit))
            >>= dispatch) in
      rolled_back-Ends (p.0) (p.1) (begun-Ends (env.fault Site.begin))
