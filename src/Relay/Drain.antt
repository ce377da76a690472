-- ===== src/Relay/Drain.antt =====
-- The loops of Relay.Run end: a tick makes at most one call more than the outbox has attempts left.
use go_ledger.Base.{
  ℕ, zero, suc, ◌≤◌, ◌<◌, pos, pos_part, ◌<ℤ◌, ltb_ℤ, ◌≡◌, refl, ap, ◌∙◌, subst, fun_ext, Bool,
  true, false, Option, none, some, List, [], ◌∷◌, inl, inr, Bool-cases, arith,
}
use go_ledger.Domain.Errors.{Result, ok, err}
use go_ledger.Storage.Session.{Session}
use go_ledger.Storage.Outbox.{due_events}
use go_ledger.Storage.Outbox.Settle.{OutboxValid}
use go_ledger.Storage.Outbox.Remaining.{remaining}
use go_ledger.Storage.Outbox.Dispatched.{Dispatched, dispatch_batch-Dispatched}
use go_ledger.Storage.Outbox.Drained.{short_batch-drains}
use go_ledger.Relay.{
  RelayOptions, Relay, new_relay, Round, dispatch_round, after_batch, drain, Signal, tick,
  cancelled, run,
}

abbrev pub HasBatch : Relay → Type 0
HasBatch r = pos 0 <ℤ r.batch_size

-- Whatever the options are, the relay has a positive batch size and a positive interval.
pub new_relay-positive :
    (opts : RelayOptions)
    → (pos 0 <ℤ (new_relay opts).batch_size) × (pos 0 <ℤ (new_relay opts).interval)
unfolding new_relay
new_relay-positive opts = ground arith

-- How the inner loop ends: on an error, or with no row that the relay would claim in its last round.
abbrev pub Stopped : Round → Result ℕ → Session → Type 0
Stopped round (err e) s = Unit {0}
Stopped round (ok n) s = due_events round.env round.held s.store.outbox_events ≡ []

-- How the loop `runs` ends on this fuel, which is the number of calls that it can make. The rounds
-- are numbered from 0, and `last` is the last one that it runs: on fuel for one call fewer it has not
-- ended.
pub record Drains (r : Relay) (rounds : ℕ → Round) (before : ℕ)
    (runs : ℕ → Option (Result ℕ × Session)) (fuel : ℕ) : Type 0 where
  pub result : Result ℕ
  pub session : Session
  pub ends : runs fuel ≡ some (result, session)
  pub valid : OutboxValid session.store
  pub fewer : remaining session.store.outbox_events ≤ before
  pub last : ℕ
  pub few : last ≤ before
  pub enough : runs (suc last) ≡ some (result, session)
  pub needed : runs last ≡ none
  pub previous : Session
  pub returned : dispatch_round r (rounds last) previous ≡ (result, session)
  pub stopped : Stopped (rounds last) result session

-- a loop of which the first round goes on with `again`
abbrev pub looped :
    Relay
    → Result ℕ
    → Session
    → (ℕ → Session → Option (Result ℕ × Session))
    → ℕ
    → Option (Result ℕ × Session)
looped r result s again zero = none
looped r result s again (suc fuel) = after_batch r result s (again fuel)

last_round-Drains :
    (r : Relay) (rounds : ℕ → Round) (before : ℕ) (s : Session)
    (again : ℕ → Session → Option (Result ℕ × Session)) (fuel : ℕ) (result : Result ℕ)
    (s' : Session)
    → ((f : ℕ) → after_batch r result s' (again f) ≡ some (result, s'))
    → OutboxValid s'.store
    → remaining s'.store.outbox_events ≤ before
    → dispatch_round r (rounds 0) s ≡ (result, s')
    → Stopped (rounds 0) result s'
    → Drains r rounds before (looped r result s' again) (suc fuel)
last_round-Drains r rounds before s again fuel result s' ends valid fewer call stopped = record {
  result = result;
  session = s';
  ends = ends fuel;
  valid = valid;
  fewer = fewer;
  last = 0;
  few = omega arith;
  enough = ends 0;
  needed = refl;
  previous = s;
  returned = call;
  stopped = stopped;
}

shifted-Drains :
    (r : Relay) (rounds : ℕ → Round) (before after : ℕ)
    (again : ℕ → Session → Option (Result ℕ × Session)) (fuel : ℕ) (result : Result ℕ)
    (s' : Session)
    → ((f : ℕ) → after_batch r result s' (again f) ≡ again f s')
    → after < before
    → Drains r (λ k. rounds (suc k)) after (λ f. again f s') fuel
    → Drains r rounds before (looped r result s' again) (suc fuel)
shifted-Drains r rounds before after again fuel result s' goes_on less d = record {
  result = d.result;
  session = d.session;
  ends = goes_on fuel ∙ d.ends;
  valid = d.valid;
  fewer = omega (arith, d.fewer);
  last = suc d.last;
  few = omega (arith, d.few);
  enough = goes_on (suc d.last) ∙ d.enough;
  needed = goes_on d.last ∙ d.needed;
  previous = d.previous;
  returned = d.returned;
  stopped = d.stopped;
}

module _ (r : Relay) (positive : HasBatch r) where
  round-Drains :
      (rounds : ℕ → Round) (before : ℕ) (s : Session) (valid : OutboxValid s.store)
      (again : ℕ → Session → Option (Result ℕ × Session)) (fuel : ℕ) (result : Result ℕ)
      (s' : Session)
      → remaining s.store.outbox_events ≡ before
      → dispatch_round r (rounds 0) s ≡ (result, s')
      → ((s'' : Session)
          → OutboxValid s''.store
          → remaining s''.store.outbox_events < before
          → Drains r
              (λ k. rounds (suc k))
              (remaining s''.store.outbox_events)
              (λ f. again f s'')
              fuel)
      → Dispatched
          (rounds 0).env
          (rounds 0).held
          (pos_part r.batch_size)
          (rounds 0).publish
          s
          valid
          result
          s'.store
      → Drains r rounds before (looped r result s' again) (suc fuel)
  round-Drains rounds before s valid again fuel (err e) s' same call next (inl kept) =
      last_round-Drains r rounds before s again fuel (err e) s' (λ f. refl) (rw kept valid)
        (omega (arith, ap (λ db. remaining db.outbox_events) kept, same)) call tt
  round-Drains rounds before s valid again fuel (err e) s' same call next (inr (lost, settled)) =
      last_round-Drains r rounds before s again fuel (err e) s' (λ f. refl) settled.valid
        (omega (arith, settled.fewer, same)) call tt
  round-Drains rounds before s valid again fuel (ok n) s' same call next
        (size, few, claimed, settled) =
      elim (Bool-cases (ltb_ℤ (pos n) r.batch_size)) [
        | inl short ↦
            last_round-Drains r rounds before s again fuel (ok n) s'
              (λ f. rw (short, after_batch) refl) settled.valid (omega (arith, settled.fewer, same))
              call
              (short_batch-drains (rounds 0).env (rounds 0).held (pos_part r.batch_size)
                (rounds 0).publish s.store s'.store (rw (← size) (ground arith)) settled)
        | inr full ↦
            let less : remaining s'.store.outbox_events < before =
              omega (arith, settled.fewer, same, size, full_size n full) in
            shifted-Drains r rounds before (remaining s'.store.outbox_events) again fuel (ok n) s'
              (λ f. rw (full, after_batch) refl) less (next s' settled.valid less)
      ]
    where
      full_size : (n : ℕ) → ltb_ℤ (pos n) r.batch_size ≡ false → 0 < n
      full_size n full = ground arith

  as_looped :
      (rounds : ℕ → Round) (s : Session) (fuel : ℕ)
      → looped r
          (dispatch_round r (rounds 0) s).0
          (dispatch_round r (rounds 0) s).1
          (λ f. drain f r (λ k. rounds (suc k)))
          fuel
        ≡ drain fuel r rounds s
  unfolding drain
  as_looped rounds s zero = refl
  as_looped rounds s (suc fuel) = refl

  -- Every tick's loop ends, after at most one call of DispatchBatch more than the outbox has attempts
  -- left. For a relay with a positive batch size, on a valid outbox and with fuel for as many calls,
  -- whatever faults, locks and answers its rounds meet: the result and the session are those that
  -- the last call returns; the outbox stays valid and has no more attempts left than before; and the
  -- last call has failed, or left no event that the relay would claim at the time of this last round.
  pub drain-Drains :
      (fuel : ℕ) (rounds : ℕ → Round) (s : Session)
      → OutboxValid s.store
      → remaining s.store.outbox_events < fuel
      → Drains r rounds (remaining s.store.outbox_events) (λ f. drain f r rounds s) fuel
  drain-Drains zero rounds s valid enough = absurd (omega arith)
  drain-Drains (suc fuel) rounds s valid enough =
      subst (λ runs. Drains r rounds (remaining s.store.outbox_events) runs (suc fuel))
        (fun_ext (as_looped rounds s))
        (round-Drains rounds (remaining s.store.outbox_events) s valid
          (λ f. drain f r (λ k. rounds (suc k))) fuel (dispatch_round r (rounds 0) s).0
          (dispatch_round r (rounds 0) s).1 refl refl
          (λ s' valid' less. drain-Drains fuel (λ k. rounds (suc k)) s' valid' (omega arith))
          (dispatch_batch-Dispatched (rounds 0).env (rounds 0).held (pos_part r.batch_size)
            (rounds 0).publish s valid))

-- has the context been cancelled?
abbrev pub is_cancelled : List Signal → Bool
is_cancelled [] = false
is_cancelled (cancelled ∷ signals) = true
is_cancelled (tick _ ∷ signals) = is_cancelled signals

-- A run that has come to this point, with a valid outbox.
pub record Runs (stopped : Bool) (o : Option (Bool × Session)) : Type 0 where
  pub session : Session
  pub reached : o ≡ some (stopped, session)
  pub valid : OutboxValid session.store

-- Run ends and keeps the outbox valid. Whatever the options, the faults and the publisher's answers,
-- with more fuel than the outbox has attempts left, every tick's loop ends; Run has returned if the
-- context has been cancelled, and otherwise it waits for the next tick.
pub run-Runs :
    (opts : RelayOptions) (fuel : ℕ) (signals : List Signal) (s : Session)
    → OutboxValid s.store
    → remaining s.store.outbox_events < fuel
    → Runs (is_cancelled signals) (run fuel (new_relay opts) signals s)
unfolding run
run-Runs opts fuel [] s valid enough = record { session = s; reached = refl; valid = valid }
run-Runs opts fuel (cancelled ∷ signals) s valid enough = record {
  session = s;
  reached = refl;
  valid = valid;
}
run-Runs opts fuel (tick rounds ∷ signals) s valid enough =
    let d : Drains (new_relay opts) rounds (remaining s.store.outbox_events)
        (λ f. drain f (new_relay opts) rounds s) fuel =
      drain-Drains (new_relay opts) ((new_relay-positive opts).0) fuel rounds s valid enough in
    rw d.ends (run-Runs opts fuel signals d.session d.valid (omega (arith, d.fewer, enough)))
