-- ===== src/Retry/Tests.antt =====
-- Retry strategies (async_grpc/retry.cc) on an operation that is unavailable twice.
use async_grpc.Base.{ℕ, ◌+◌, refl, inl, true, some, List, [], ◌∷◌, arith, if◌then◌else◌, ltb}
use async_grpc.Rpc.Types.{Status, status_ok}
use async_grpc.Retry.Deeds.{Deed, retry_noted}
use async_grpc.Retry.{RetryDelayCalculator}
use async_grpc.Retry.Bounds.{attempts, EndsBy, limited, limited_retry_ends}
use async_grpc.Retry.Delays.{Settles}

-- ::grpc::UNAVAILABLE.
abbrev unavailable : Status
unavailable = record { error_code = 14; error_message = "" }

abbrev third_time : List (Deed ℕ) → Status
third_time past = if ltb (attempts past) 2 then unavailable else status_ok

abbrev ten_more : RetryDelayCalculator ℕ
ten_more failed_attempts = 10 + failed_attempts

limited_retry_ends_example :
    EndsBy 5 (retry_noted 5 (some (limited ten_more third_time true 5)) third_time true)
limited_retry_ends_example =
    limited_retry_ends ten_more third_time true 5 5 5 (inl (refl, omega arith)) (omega arith)

third_time-Settles : Settles 10 (5 ∷ []) third_time true 2
third_time-Settles past e = inl (ground arith)
