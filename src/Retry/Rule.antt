-- ===== src/Retry/Rule.antt =====
-- The rule for a use of RetryWithStrategy (async_grpc/retry.cc): an invariant over the failed
-- attempts, for a strategy that gives up at the latest after `limit` of them.
use async_grpc.Base.{
  ℕ, zero, suc, ◌+◌, ◌<◌, ◌≤◌, ◌≡◌, inl, inr, Bool, true, false, Option, none, some, arith,
  Bool-cases, Option-cases,
}
use async_grpc.Rpc.Types.{Status, is_ok}
use async_grpc.Retry.{RetryStrategy, reset_if, consult, retry_loop, retry_with_strategy}

-- The strategy lets no attempt follow the last of `limit` failed ones.
abbrev pub GivesUpAt : {D : Type 0} → Option (RetryStrategy D) → ℕ → Type 0
GivesUpAt strategy limit = (n : ℕ) (status : Status) → limit ≤ n → consult strategy n status ≡ none

-- A run ends, with a result of which the predicate holds.
abbrev pub Ends {ℓ} : {S : Type ℓ} → (Bool → S → Type 0) → Option (Bool × S) → Type 0
Ends Q none = ⊥
Ends Q (some (b, s)) = Q b s

module _ {ℓ} {D : Type 0} {S : Type ℓ} (strategy : Option (RetryStrategy D)) (op : S → Status × S)
    (sleep : D → S → S) (reset : Option (S → S)) (limit : ℕ) (stops : GivesUpAt strategy limit)
    (P : ℕ → S → Type 0) (Q : Bool → S → Type 0)
    (ends : (n : ℕ) (s : S) → P n s → n < limit → Q (is_ok (op s).0) (op s).1)
    (again : (n : ℕ) (s : S) (delay : D)
      → P n s
      → P (suc n) (reset_if reset (sleep delay (op s).1))) where
  loop-Ends :
      (rounds n : ℕ) (s : S)
      → P n s
      → n < limit
      → limit ≤ rounds + n
      → Ends Q (retry_loop rounds strategy op sleep reset n s)
  unfolding retry_loop
  loop-Ends zero n s p l m = absurd (omega arith)
  loop-Ends (suc rounds) n s p l m = elim (Bool-cases (is_ok (op s).0)) [
    | inl good ↦ rw good (ended true good)
    | inr bad ↦ elim (Option-cases (consult strategy (suc n) (op s).0)) [
      | inl over ↦ rw (bad, over) (ended false bad)
      | inr (delay, more) ↦
          rw (bad, more)
            (loop-Ends rounds (suc n) (reset_if reset (sleep delay (op s).1)) (again n s delay p)
              (ground (arith, stops (suc n) (op s).0)) (omega arith))
    ]
  ]
    where
      ended : (b : Bool) → is_ok (op s).0 ≡ b → Q b (op s).1
      ended b e = rw e at (ends n s p l)

  -- RetryWithStrategy, given as many rounds as attempts may be made.
  pub retry_with_strategy-Ends :
      (rounds : ℕ) (s : S)
      → P 0 s
      → 0 < limit
      → limit ≤ rounds
      → Ends Q (retry_with_strategy rounds strategy op sleep reset s)
  unfolding retry_with_strategy
  retry_with_strategy-Ends rounds s p l m = loop-Ends rounds 0 s p l (omega arith)
