-- ===== src/Tests/Rules.antt =====
-- A replay, the errors of HTTP, keys, fingerprints and the retry policy at concrete inputs.
use go_ledger.Base.{ℕ, ◌≡◌, ◌≢◌, refl, some, [], ◌∷◌, Bytes, length, arith, pos, ◌≤ℤ◌}
use go_ledger.Domain.Errors.{ok}
use go_ledger.Storage.Outbox.{replay_event}
use go_ledger.Storage.Outbox.Replay.{Replays, replay_event-Replays}
use go_ledger.Idempotency.{
  max_key_length, IsPrintable, validate_key, validate_key-accepts, IsOneLine, hash_input-injective,
}
use go_ledger.Outbox.Backoff.{second, max_backoff, backoff}
use go_ledger.Outbox.Backoff.Bounds.{promised, backoff-capped, backoff-bounds}
use go_ledger.Base.{All, ◌↔◌, ◌≤◌, ◌<◌}
use go_ledger.Tests.{test_env, outbox_start, outbox_start-Valid}

replay_event-Replays_example :
    Replays test_env 7
      (λ _. some "no broker")
      outbox_start
      outbox_start-Valid
      (replay_event test_env 7 (λ _. some "no broker") outbox_start)
replay_event-Replays_example =
    replay_event-Replays test_env 7 (λ _. some "no broker") outbox_start outbox_start-Valid

abbrev test_key : Bytes
test_key = 107 ∷ 49 ∷ []

validate_key-accepts_example :
    (validate_key test_key ≡ ok tt)
    ↔ ((0 < length test_key) × (length test_key ≤ max_key_length) × All IsPrintable test_key)
validate_key-accepts_example = validate_key-accepts test_key

abbrev the_post : Bytes
the_post = 80 ∷ []

abbrev the_path : Bytes
the_path = 47 ∷ []

abbrev the_body : Bytes
the_body = 123 ∷ 10 ∷ 125 ∷ []

one_line : (b : ℕ) → b ≢ 10 → IsOneLine (b ∷ [])
one_line b other = (other, tt)

post_line : IsOneLine (80 ∷ [])
post_line = one_line 80 (λ same. absurd (omega (arith, same)))

path_line : IsOneLine (47 ∷ [])
path_line = one_line 47 (λ same. absurd (omega (arith, same)))

hash_input-injective_example :
    ((the_post ≡ the_post) × (the_path ≡ the_path) × (the_body ≡ the_body))
hash_input-injective_example =
    hash_input-injective the_post the_path the_body the_post the_path the_body post_line post_line
      path_line path_line refl

backoff-capped_example : backoff (pos 40) ≡ pos (promised (pos 40))
backoff-capped_example = backoff-capped (pos 40)

backoff-bounds_example : (pos second ≤ℤ backoff (pos 3)) × (backoff (pos 3) ≤ℤ pos max_backoff)
backoff-bounds_example = backoff-bounds (pos 3)
