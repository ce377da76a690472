-- ===== src/Relay.antt =====
-- internal/outbox/relay.go: Relay and its loops. The Dispatcher is the store, as in both programs
-- that run a relay. The ticker and the context are the sequence of signals that Run receives.
pub mod Drain
use go_ledger.Base.{
  ℕ, zero, suc, ◌*◌, ℤ, pos, pos_part, ltb_ℤ, leb_ℤ, Bool, true, false, Option, none, some, List,
  [], ◌∷◌, if◌then◌else◌,
}
use go_ledger.Domain.Errors.{Uuid, Result, ok, err}
use go_ledger.Storage.Session.{Env, Session}
use go_ledger.Storage.Outbox.{Publisher, dispatch_batch}

-- time.Millisecond, in nanoseconds
abbrev pub millisecond : ℕ
millisecond = 1_000_000

abbrev pub default_interval : ℤ
default_interval = pos (500 * millisecond)

abbrev pub default_batch_size : ℤ
default_batch_size = pos 100

pub record RelayOptions : Type 0 where
  pub interval : ℤ
  pub batch_size : ℤ

-- The publisher answers for itself in each round, below.
pub record Relay : Type 0 where
  pub interval : ℤ
  pub batch_size : ℤ

abbrev or_default : ℤ → ℤ → ℤ
or_default given default = if leb_ℤ given (pos 0) then default else given

-- NewRelay
unfoldable pub new_relay : RelayOptions → Relay
new_relay opts = record {
  interval = or_default opts.interval default_interval;
  batch_size = or_default opts.batch_size default_batch_size;
}

-- What one call of DispatchBatch meets: the environment, the rows that others hold, and the answers
-- of the publisher.
pub record Round : Type 0 where
  pub env : Env
  pub held : Uuid → Bool
  pub publish : Publisher

abbrev pub dispatch_round : Relay → Round → Session → Result ℕ × Session
dispatch_round r round = dispatch_batch round.env round.held (pos_part r.batch_size) round.publish

-- The end of the body of the inner loop: an error breaks, whether or not it is logged, and so does a
-- batch that is not full. Otherwise the loop goes on.
abbrev pub after_batch :
    Relay
    → Result ℕ
    → Session
    → (Session → Option (Result ℕ × Session))
    → Option (Result ℕ × Session)
after_batch r (err e) s again = some (err e, s)
after_batch r (ok n) s again = elim (ltb_ℤ (pos n) r.batch_size) [
  | true ↦ some (ok n, s)
  | false ↦ again s
]

-- The inner loop of Run, with the result of its last call: `none` if the fuel runs out.
unfoldable pub drain : ℕ → Relay → (ℕ → Round) → Session → Option (Result ℕ × Session)
drain zero r rounds s = none
drain (suc fuel) r rounds s =
    let (result, s') = dispatch_round r (rounds 0) s in
    after_batch r result s' (drain fuel r (λ k. rounds (suc k)))

-- what the select of Run receives: a tick, with the rounds that its loop meets, or the cancellation
pub data Signal : Type 0 where
  tick : (ℕ → Round) → Signal
  cancelled : Signal

abbrev pub and_continue :
    Option (Result ℕ × Session) → (Session → Option (Bool × Session)) → Option (Bool × Session)
and_continue none next = none
and_continue (some (result, s)) next = next s

-- Run, and whether it has returned; it still waits after the last signal.
unfoldable pub run : ℕ → Relay → List Signal → Session → Option (Bool × Session)
unfolding drain
run fuel r [] s = some (false, s)
run fuel r (cancelled ∷ signals) s = some (true, s)
run fuel r (tick rounds ∷ signals) s = and_continue (drain fuel r rounds s) (run fuel r signals)
