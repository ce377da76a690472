-- ===== src/Outbox/Backoff/Bounds.antt =====
-- The delays that Backoff gives.
use go_ledger.Base.{
  ℕ, zero, suc, ◌+◌, ◌-◌, ◌*◌, ◌^◌, ◌%◌, ◌≤◌, ◌<◌, ℤ, pos, pos_part, ◌-ℤ◌, ◌≤ℤ◌, ltb_ℤ, of_word,
  ◌≡◌, refl, true, ltb, if◌then◌else◌, inl, inr, Bool-cases, arith,
}
use go_ledger.Outbox.Backoff.{second, max_backoff, shifted_one, delay, backoff_from, backoff}

-- The exponential delay with no bound on its size: a second for the first attempt, and for each
-- further attempt twice as long.
unfoldable pub exponential : ℕ → ℕ
exponential zero = second
exponential (suc n) = 2 * exponential n

-- the delay that the comment of Backoff promises
abbrev pub promised : ℤ → ℕ
promised attempts =
    if ltb max_backoff (exponential (pos_part attempts - 1))
    then max_backoff
    else exponential (pos_part attempts - 1)

exponential-pow : (n : ℕ) → exponential n ≡ 2 ^ n * second
unfolding exponential
exponential-pow zero = omega arith
exponential-pow (suc n) = omega (arith, exponential-pow n)

pow_positive : (n : ℕ) → 1 ≤ 2 ^ n
pow_positive zero = omega arith
pow_positive (suc n) = omega (arith, pow_positive n)

pow_grows : (n k : ℕ) → 2 ^ n ≤ 2 ^ (k + n)
pow_grows n zero = let shift : 0 + n ≡ n = omega arith in rw shift (omega arith)
pow_grows n (suc k) =
    let shift : suc k + n ≡ suc (k + n) = omega arith in rw shift (omega (arith, pow_grows n k))

pow_mono : (n m : ℕ) → n ≤ m → 2 ^ n ≤ 2 ^ m
pow_mono n m less = let shift : m ≡ m - n + n = omega arith in rw shift (pow_grows n (m - n))

-- Below twenty shifts neither the shift nor the product wraps around.
few_shifts : (n : ℕ) → n < 20 → of_word ((shifted_one n * second) % 2 ^ 64) ≡ pos (exponential n)
few_shifts n few =
    let small : 2 ^ n ≤ 2 ^ 20 = pow_mono n 20 (omega arith) in
    let exact : (2 ^ n % 2 ^ 64 * second) % 2 ^ 64 ≡ 2 ^ n * second = omega (arith, small) in
    let below : ltb (2 ^ n * second) (2 ^ 63) ≡ true = ground (arith, small) in
    rw (exact, below, exponential-pow n) refl

many_shifts : (n : ℕ) → 20 ≤ n → max_backoff < exponential n
many_shifts n many =
    let large : 2 ^ 20 ≤ 2 ^ n = pow_mono 20 n many in omega (arith, large, exponential-pow n)

exponential-second : (n : ℕ) → second ≤ exponential n
exponential-second n = omega (arith, exponential-pow n, pow_positive n)

shifts : (attempts : ℤ) → pos_part (attempts -ℤ pos 1) ≡ pos_part attempts - 1
unfolding ◌-ℤ◌
shifts attempts = ground arith

-- from one attempt on
backoff_from-promised :
    (attempts : ℤ) → pos 1 ≤ℤ attempts → backoff_from attempts ≡ pos (promised attempts)
unfolding backoff_from delay
backoff_from-promised attempts positive = elim (Bool-cases (ltb_ℤ (pos 20) attempts)) [
  | inl many ↦
      let large : max_backoff < exponential (pos_part attempts - 1) =
        many_shifts (pos_part attempts - 1) (ground arith) in
      ground (arith, large)
  | inr few ↦
      let exact : of_word ((shifted_one (pos_part attempts - 1) * second) % 2 ^ 64)
          ≡ pos (exponential (pos_part attempts - 1)) =
        few_shifts (pos_part attempts - 1) (ground arith) in
      rw (few, shifts attempts, exact) (ground arith)
]

-- Backoff gives the delay that its comment promises: one second for the first attempt, doubled for
-- each further one, and capped at five minutes. This holds of every number of attempts, those below
-- one counting as one: the 64-bit shift and product never wrap around.
pub backoff-capped : (attempts : ℤ) → backoff attempts ≡ pos (promised attempts)
unfolding backoff
backoff-capped attempts = elim (Bool-cases (ltb_ℤ attempts (pos 1))) [
  | inl below ↦
      let first : pos_part attempts - 1 ≡ 0 = ground arith in
      rw (below, first) (backoff_from-promised (pos 1) (omega arith))
  | inr counted ↦ rw counted (backoff_from-promised attempts (ground arith))
]

-- Every delay is at least a second and at most five minutes, whatever the number of attempts.
pub backoff-bounds :
    (attempts : ℤ) → (pos second ≤ℤ backoff attempts) × (backoff attempts ≤ℤ pos max_backoff)
backoff-bounds attempts =
    rw (backoff-capped attempts) (ground (arith, exponential-second (pos_part attempts - 1)))
