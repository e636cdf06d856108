-- ===== src/Retry/Delays.antt =====
-- How long RetryWithStrategy (async_grpc/retry.cc) waits between its attempts, and after which status
-- codes it does not try again.
use async_grpc.Base.{
  ℕ, zero, suc, ◌+◌, ◌<◌, ◌≤◌, ◌≡◌, ◌⊎◌, refl, ap, inl, inr, Bool, true, false, Option, none, some,
  List, [], ◌∷◌, ◌++◌, map, arith, Bool-cases, if◌then◌else◌,
}
use async_grpc.Rpc.Types.{Status, is_ok}
use async_grpc.Retry.Deeds.{
  Deed, attempted, slept, was_reset, note, note_sleep, note_reset, sleep_and_reset, retry_noted,
}
use async_grpc.Retry.{
  RetryIndicator, RetryDelayCalculator, retry_loop, retry_with_strategy, contains,
  create_recoverable_constant_delay_strategy,
}
use async_grpc.Retry.Bounds.{attempts, last_status}

-- What a deed is, whatever the status of an attempt.
pub data Kind (D : Type 0) : Type 0 where
  attempts_once : Kind D
  sleeps_for : D → Kind D
  resets : Kind D

module _ {D : Type 0} where
  abbrev pub kind : Deed D → Kind D
  kind (attempted status) = attempts_once
  kind (slept delay) = sleeps_for delay
  kind was_reset = resets

  -- The deeds of n failed attempts that are followed by another, the newest first: each attempt, then
  -- the sleep for the calculator's delay, then the reset, if there is one.
  unfoldable pub planned : RetryDelayCalculator D → Bool → ℕ → List (Kind D)
  planned calc reset zero = []
  planned calc reset (suc n) =
      (if reset then resets ∷ [] else [])
      ++ sleeps_for (calc (suc n)) ∷ attempts_once ∷ planned calc reset n

  -- The end: one more attempt.
  abbrev Paced : RetryDelayCalculator D → Bool → Option (Bool × List (Deed D)) → Type 0
  Paced calc reset none = Unit {0}
  Paced calc reset (some (b, deeds)) =
      (n : ℕ) × (attempts deeds ≡ suc n) × (map kind deeds ≡ attempts_once ∷ planned calc reset n)

  module _ (ind : RetryIndicator) (calc : RetryDelayCalculator D)
      (op : List (Deed D) → Status) where
    next : Bool → ℕ → List (Deed D) → List (Deed D)
    next reset failed past = sleep_and_reset (calc (suc failed)) reset (attempted (op past) ∷ past)

  -- A run that has ended, with at most `limit` attempts.
  abbrev pub EndsPaced : RetryDelayCalculator D → Bool → ℕ → Option (Bool × List (Deed D)) → Type 0
  EndsPaced calc reset limit none = ⊥
  EndsPaced calc reset limit (some (b, deeds)) =
      (n : ℕ) × (attempts deeds ≡ suc n)
      × (n < limit)
      × (map kind deeds ≡ attempts_once ∷ planned calc reset n)

  -- How a run ends that gives up only on certain codes.
  abbrev GivesUpOn : List ℕ → Option (Bool × List (Deed D)) → Type 0
  GivesUpOn codes none = ⊥
  GivesUpOn codes (some (true, deeds)) =
      (status : Status) × (last_status deeds ≡ some status) × (is_ok status ≡ true)
  GivesUpOn codes (some (false, deeds)) =
      (status : Status) × (last_status deeds ≡ some status)
      × (is_ok status ≡ false)
      × (contains codes status.error_code ≡ true)

  module _ (delay : D) (codes : List ℕ) (op : List (Deed D) → Status) (reset : Bool)
      (last : ℕ) where
    -- The operation ends, well or for good, at the latest in the call after `last` attempts.
    abbrev pub Settles : Type 0
    Settles =
        (past : List (Deed D))
        → attempts past ≡ last
        → (is_ok (op past) ≡ true) ⊎ (contains codes (op past).error_code ≡ true)

    loop_gives_up :
        (rounds failed : ℕ) (past : List (Deed D))
        → Settles
        → attempts past ≡ failed
        → failed ≤ last
        → last < rounds + failed
        → GivesUpOn codes (
            retry_loop rounds
              (some (create_recoverable_constant_delay_strategy delay codes))
              (note op)
              note_sleep
              (note_reset reset)
              failed
              past)
    unfolding retry_loop create_recoverable_constant_delay_strategy
    loop_gives_up zero failed past s a l m = absurd (omega arith)
    loop_gives_up (suc rounds) failed past s a l m = elim (Bool-cases (is_ok (op past))) [
      | inl good ↦ rw good (op past, refl, good)
      | inr bad ↦ elim (Bool-cases (contains codes (op past).error_code)) [
        | inl over ↦ rw (bad, over) (op past, refl, bad, over)
        | inr again ↦
            rw (bad, again)
              (loop_gives_up rounds (suc failed)
                (sleep_and_reset delay reset (attempted (op past) ∷ past)) s (again-attempts reset)
                (ground (arith, s past)) (omega arith))
      ]
    ]
      where
        again-attempts :
            (b : Bool)
            → attempts (sleep_and_reset delay b (attempted (op past) ∷ past)) ≡ suc failed
        again-attempts true = ap suc a
        again-attempts false = ap suc a

    -- RetryWithStrategy under the constant-delay strategy with unrecoverable codes, if the operation
    -- succeeds or fails for good at the latest after `last` attempts: last + 1 rounds end it, it
    -- returns whether its last call succeeded, and it gives up only on an unrecoverable code.
    recoverable_retry_ends :
        (rounds : ℕ)
        → Settles
        → last < rounds
        → GivesUpOn codes (
            retry_noted rounds
              (some (create_recoverable_constant_delay_strategy delay codes))
              op
              reset)
    unfolding retry_with_strategy
    recoverable_retry_ends rounds s m = loop_gives_up rounds 0 [] s refl (omega arith) (omega arith)
