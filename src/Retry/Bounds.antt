-- ===== src/Retry/Bounds.antt =====
-- How often RetryWithStrategy (async_grpc/retry.cc) calls the operation, when it gives up, and how
-- long it waits.
use async_grpc.Base.{
  ℕ, zero, suc, ◌+◌, ◌<◌, ◌≤◌, ◌≡◌, ◌⊎◌, refl, inl, inr, Bool, true, false, Option, none, some,
  List, [], ◌∷◌, arith, Bool-cases, ltb,
}
use async_grpc.Rpc.Types.{Status, is_ok}
use async_grpc.Retry.Deeds.{
  Deed, attempted, slept, was_reset, note, note_sleep, note_reset, sleep_and_reset, retry_noted,
}
use async_grpc.Retry.{
  RetryDelayCalculator, RetryStrategy, create_retry_strategy, create_limited_retry_indicator,
  retry_loop, retry_with_strategy,
}

module _ {D : Type 0} where
  -- The calls of the operation among the deeds.
  abbrev pub attempts : List (Deed D) → ℕ
  attempts [] = 0
  attempts (attempted status ∷ past) = suc (attempts past)
  attempts (slept delay ∷ past) = attempts past
  attempts (was_reset ∷ past) = attempts past

  -- The status of the last call.
  abbrev pub last_status : List (Deed D) → Option Status
  last_status [] = none
  last_status (attempted status ∷ past) = some status
  last_status (_ ∷ past) = last_status past

  -- How a run with a limit ends: by a success within the limit, or by a failure of the last call
  -- that the limit allows.
  abbrev pub EndsBy : ℕ → Option (Bool × List (Deed D)) → Type 0
  EndsBy limit none = ⊥
  EndsBy limit (some (true, deeds)) =
      (status : Status) × (last_status deeds ≡ some status)
      × (is_ok status ≡ true)
      × (attempts deeds ≤ limit)
  EndsBy limit (some (false, deeds)) =
      (status : Status) × (last_status deeds ≡ some status)
      × (is_ok status ≡ false)
      × (attempts deeds ≡ limit)

  module _ (calc : RetryDelayCalculator D) (op : List (Deed D) → Status) (reset : Bool)
      (max_attempts : ℕ) where
    abbrev pub limited : RetryStrategy D
    limited = create_retry_strategy (create_limited_retry_indicator max_attempts) calc

    abbrev pub IsLimit : ℕ → Type 0
    IsLimit limit =
        ((limit ≡ max_attempts) × (0 < max_attempts)) ⊎ ((limit ≡ 1) × (max_attempts ≡ 0))

    attempts-sleep_and_reset :
        (delay : D) (b : Bool) (past : List (Deed D))
        → attempts (sleep_and_reset delay b past) ≡ attempts past
    attempts-sleep_and_reset delay true past = refl
    attempts-sleep_and_reset delay false past = refl

    loop_ends :
        (rounds failed limit : ℕ) (past : List (Deed D))
        → attempts past ≡ failed
        → failed < limit
        → limit ≤ rounds + failed
        → IsLimit limit
        → EndsBy limit
            (retry_loop rounds (some limited) (note op) note_sleep (note_reset reset) failed past)
    unfolding retry_loop create_retry_strategy create_limited_retry_indicator
    loop_ends zero failed limit past a l m h = absurd (omega arith)
    loop_ends (suc rounds) failed limit past a l m h = elim (Bool-cases (is_ok (op past))) [
      | inl good ↦ rw good (op past, refl, good, omega arith)
      | inr bad ↦ elim (Bool-cases (ltb (suc failed) max_attempts)) [
        | inl again ↦
            rw (bad, again)
              (loop_ends rounds (suc failed) limit
                (sleep_and_reset (calc (suc failed)) reset (attempted (op past) ∷ past))
                (ground (
                  arith,
                  attempts-sleep_and_reset (calc (suc failed)) reset (attempted (op past) ∷ past),
                ))
                (ground arith) (omega arith) h)
        | inr over ↦ rw (bad, over) (op past, refl, bad, ground arith)
      ]
    ]

    -- RetryWithStrategy under a limit on the attempts, with whatever delays: enough rounds end it, it
    -- returns true exactly when its last call of the operation succeeded, a success comes within
    -- `limit` calls and a failure after exactly `limit` calls, where `limit` is max_attempts, or 1 if
    -- that is 0: the first call is always made.
    pub limited_retry_ends :
        (rounds limit : ℕ)
        → IsLimit limit
        → limit ≤ rounds
        → EndsBy limit (retry_noted rounds (some limited) op reset)
    unfolding retry_with_strategy
    limited_retry_ends rounds limit h e =
        loop_ends rounds 0 limit [] refl (ground arith) (omega arith) h
