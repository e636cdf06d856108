-- ===== src/Retry/Deeds.antt =====
-- RetryWithStrategy (async_grpc/retry.cc) with everything that it does noted: the operation answers
-- by what has been done so far.
use async_grpc.Base.{ℕ, Bool, true, false, Option, none, some, List, [], ◌∷◌}
use async_grpc.Rpc.Types.{Status}
use async_grpc.Retry.{RetryStrategy, reset_if, retry_with_strategy}

-- A call of `op` with its status, a sleep, a call of `reset`.
pub data Deed (D : Type 0) : Type 0 where
  attempted : Status → Deed D
  slept : D → Deed D
  was_reset : Deed D

module _ {D : Type 0} where
  -- The deeds are kept newest first.
  abbrev pub note : (List (Deed D) → Status) → List (Deed D) → Status × List (Deed D)
  note op past = (op past, attempted (op past) ∷ past)

  abbrev pub note_sleep : D → List (Deed D) → List (Deed D)
  note_sleep delay past = slept delay ∷ past

  -- Whether a function `reset` was given.
  abbrev pub note_reset : Bool → Option (List (Deed D) → List (Deed D))
  note_reset true = some (λ past. was_reset ∷ past)
  note_reset false = none

  abbrev pub sleep_and_reset : D → Bool → List (Deed D) → List (Deed D)
  sleep_and_reset delay reset past = reset_if (note_reset reset) (note_sleep delay past)

  abbrev pub retry_noted :
      ℕ → Option (RetryStrategy D) → (List (Deed D) → Status) → Bool → Option (Bool × List (Deed D))
  retry_noted rounds strategy op reset =
      retry_with_strategy rounds strategy (note op) note_sleep (note_reset reset) []
