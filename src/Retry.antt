-- ===== src/Retry.antt =====
-- async_grpc/retry.h and retry.cc: when a failed call is tried again, and after which delay.
-- A number of failed attempts is a C++ int that counts up from 1 and is taken not to overflow;
-- max_attempts is taken not to be negative. Durations and the floating-point arithmetic on them
-- (common/time.cc, std::pow) are parameters.
pub mod Deeds
pub mod Bounds
pub mod Delays
pub mod Rule
mod Tests
use async_grpc.Base.{
  ℕ, zero, suc, ◌+◌, Bool, true, false, not, Option, none, some, List, [], ◌∷◌, ltb, leb, ◌==◌,
  if◌then◌else◌,
}
use async_grpc.Base.Integers.{ℤ, pos, negsuc}
use async_grpc.Rpc.Types.{Status, is_ok}

-- failed_attempts - 1.
abbrev pred_int : ℕ → ℤ
pred_int zero = negsuc 0
pred_int (suc n) = pos n

-- std::set::count over a set of codes.
unfoldable contains : List ℕ → ℕ → Bool
contains [] c = false
contains (x ∷ xs) c = if x == c then true else contains xs c

-- common::FromSeconds, common::ToSeconds and std::pow.
pub record Arithmetic : Type 1 where
  pub Duration : Type 0
  pub Double : Type 0
  pub pow : Double → ℤ → Double
  pub times : Double → Double → Double
  pub from_seconds : Double → Duration
  pub to_seconds : Duration → Double

-- RetryIndicator, RetryDelayCalculator and RetryStrategy.
abbrev RetryIndicator : Type 0
RetryIndicator = ℕ → Status → Bool

module _ (D : Type 0) where
  abbrev RetryDelayCalculator : Type 0
  RetryDelayCalculator = ℕ → D

  abbrev pub RetryStrategy : Type 0
  RetryStrategy = ℕ → Status → Option D

-- CreateLimitedRetryIndicator.
unfoldable pub create_limited_retry_indicator : ℕ → RetryIndicator
create_limited_retry_indicator max_attempts failed_attempts status =
    ltb failed_attempts max_attempts

-- CreateUnlimitedRetryIndicator.
unfoldable create_unlimited_retry_indicator : RetryIndicator
create_unlimited_retry_indicator failed_attempts status = true

-- CreateUnlimitedRetryIndicator, with codes after which there is no use in trying again.
unfoldable create_recoverable_retry_indicator : List ℕ → RetryIndicator
unfolding contains
create_recoverable_retry_indicator unrecoverable_codes failed_attempts status =
    not (contains unrecoverable_codes status.error_code)

-- CreateBackoffDelayCalculator.
unfoldable create_backoff_delay_calculator :
    (a : Arithmetic) → a.Duration → a.Double → ℕ → a.Duration
create_backoff_delay_calculator a min_delay backoff_factor failed_attempts =
    a.from_seconds
      (a.times (a.pow backoff_factor (pred_int failed_attempts)) (a.to_seconds min_delay))

module _ {D : Type 0} where
  -- CreateRetryStrategy.
  unfoldable pub create_retry_strategy : RetryIndicator → RetryDelayCalculator D → RetryStrategy D
  create_retry_strategy retry_indicator retry_delay_calculator failed_attempts status =
      if not (retry_indicator failed_attempts status)
      then none
      else some (retry_delay_calculator failed_attempts)

  -- CreateConstantDelayCalculator.
  unfoldable pub create_constant_delay_calculator : D → RetryDelayCalculator D
  create_constant_delay_calculator delay failed_attempts = delay

  -- CreateUnlimitedConstantDelayStrategy, without and with unrecoverable codes.
  unfoldable create_unlimited_constant_delay_strategy : D → RetryStrategy D
  unfolding create_retry_strategy create_unlimited_retry_indicator create_constant_delay_calculator
  create_unlimited_constant_delay_strategy delay =
      create_retry_strategy create_unlimited_retry_indicator
        (create_constant_delay_calculator delay)

  unfoldable create_recoverable_constant_delay_strategy : D → List ℕ → RetryStrategy D
  unfolding create_retry_strategy create_recoverable_retry_indicator
      create_constant_delay_calculator
  create_recoverable_constant_delay_strategy delay unrecoverable_codes =
      create_retry_strategy (create_recoverable_retry_indicator unrecoverable_codes)
        (create_constant_delay_calculator delay)

-- CreateLimitedBackoffStrategy.
unfoldable create_limited_backoff_strategy :
    (a : Arithmetic) → a.Duration → a.Double → ℕ → RetryStrategy a.Duration
unfolding create_retry_strategy create_limited_retry_indicator create_backoff_delay_calculator
create_limited_backoff_strategy a min_delay backoff_factor max_attempts =
    create_retry_strategy (create_limited_retry_indicator max_attempts)
      (create_backoff_delay_calculator a min_delay backoff_factor)

-- `if (reset) reset();`.
abbrev reset_if {ℓ} : {S : Type ℓ} → Option (S → S) → S → S
reset_if none s = s
reset_if (some reset) s = reset s

module _ {D : Type 0} where
  -- What the retry strategy says, where there is one.
  abbrev consult : Option (RetryStrategy D) → ℕ → Status → Option D
  consult none failed_attempts status = none
  consult (some retry_strategy) failed_attempts status = retry_strategy failed_attempts status

  -- The loop of RetryWithStrategy. `S` is what the function objects `op` and `reset` may change, and
  -- `sleep` is what std::this_thread::sleep_for does to it. `none` means that the rounds ran out.
  unfoldable retry_loop {ℓ} :
      {S : Type ℓ}
      → ℕ
      → Option (RetryStrategy D)
      → (S → Status × S)
      → (D → S → S)
      → Option (S → S)
      → ℕ
      → S
      → Option (Bool × S)
  retry_loop zero strategy op sleep reset failed_attempts s = none
  retry_loop (suc rounds) strategy op sleep reset failed_attempts s =
      let status = (op s).0 in
      let now = (op s).1 in
      if is_ok status
      then some (true, now)
      else elim (consult strategy (suc failed_attempts) status) [
        | none ↦ some (false, now)
        | some delay ↦
            retry_loop rounds strategy op sleep reset (suc failed_attempts)
              (reset_if reset (sleep delay now))
      ]

  -- RetryWithStrategy.
  unfoldable pub retry_with_strategy {ℓ} :
      {S : Type ℓ}
      → ℕ
      → Option (RetryStrategy D)
      → (S → Status × S)
      → (D → S → S)
      → Option (S → S)
      → S
      → Option (Bool × S)
  unfolding retry_loop
  retry_with_strategy rounds strategy op sleep reset s =
      retry_loop rounds strategy op sleep reset 0 s
