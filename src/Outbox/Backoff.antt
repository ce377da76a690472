-- ===== src/Outbox/Backoff.antt =====
-- The retry policy of internal/outbox/relay.go, in the machine's integers: an int has 64 bits, and
-- a time.Duration is an int64 that counts nanoseconds.
pub mod Bounds
use go_ledger.Base.{ℕ, ◌*◌, ◌^◌, ◌%◌, ltb, ℤ, pos, pos_part, ◌-ℤ◌, ltb_ℤ, of_word, if◌then◌else◌}

abbrev pub second : ℕ
second = 1_000_000_000

abbrev pub max_attempts : ℕ
max_attempts = 10

abbrev pub max_backoff : ℕ
max_backoff = 300 * second

-- if attempts < 1 { attempts = 1 }
abbrev pub at_least_one : ℤ → ℤ
at_least_one attempts = if ltb_ℤ attempts (pos 1) then pos 1 else attempts

-- the pattern of 1 << n in 64 bits, which is 0 from n = 64
abbrev pub shifted_one : ℕ → ℕ
shifted_one n = 2 ^ n % 2 ^ 64

-- The product of the shift with time.Second, in an int64 that wraps around. The number of attempts
-- is at least one here, so its uint is attempts - 1.
unfoldable pub delay : ℤ → ℤ
delay attempts = of_word ((shifted_one (pos_part (attempts -ℤ pos 1)) * second) % 2 ^ 64)

-- if d > MaxBackoff { return MaxBackoff }
abbrev pub capped : ℤ → ℤ
capped d = if ltb_ℤ (pos max_backoff) d then pos max_backoff else d

-- The test on the attempts is before the shift.
unfoldable pub backoff_from : ℤ → ℤ
backoff_from attempts = if ltb_ℤ (pos 20) attempts then pos max_backoff else capped (delay attempts)

unfoldable pub backoff : ℤ → ℤ
unfolding backoff_from
backoff attempts = backoff_from (at_least_one attempts)
