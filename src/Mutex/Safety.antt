-- ===== src/Mutex/Safety.antt =====
-- The calls of an object with a common::Mutex (async_grpc/common/mutex.h), in any order of the
-- threads' steps.
use async_grpc.Base.{ℕ, ◌≡◌, refl, inl, inr, Bool, true, false, Option, Outcome, arith}
use async_grpc.Mutex.{
  locking, testing, blocked, relocking, testing_last, running, unlocking, notifying, System, Step,
  calls, locks, passes, blocks, wakes_spuriously, times_out, relocks, passes_late, expires, runs,
  unlocks, notifies, Reach, starts, later, start,
}
use async_grpc.Mutex.Laws.{is_inside, will_notify, some-injective, Inv}
use async_grpc.Mutex.Preserve.{inside-Inv, lock-Inv, unlock-Inv, run-Inv, notify-Inv}

module _ {S M R : Type 0} (condition : M → S → Bool) (body : M → S → Outcome (S × R))
    (timeout : M → Option R) where
  Step-Inv :
      {s s1 : System S M R}
      → Step condition body timeout s s1
      → Inv condition body timeout s
      → Inv condition body timeout s1
  Step-Inv {s} (calls i m at) v =
      inside-Inv condition body timeout s i (locking m) s.history v (rw at refl)
        (rw at (λ h. ground arith)) tt tt
  Step-Inv {s} (locks i m at free) v =
      lock-Inv condition body timeout s i (testing m) v free (rw at refl) tt tt
  Step-Inv {s} (passes i m at c) v =
      inside-Inv condition body timeout s i (running m) s.history v (rw at refl)
        (rw at (λ h. ground arith)) c tt
  Step-Inv {s} (blocks i m at c) v =
      unlock-Inv condition body timeout s i (blocked m) v (rw at refl) refl
        (rw at (λ h. ground arith)) tt (inl c)
  Step-Inv {s} (wakes_spuriously i m at) v =
      inside-Inv condition body timeout s i (locking m) s.history v (rw at refl)
        (rw at (λ h. ground arith)) tt tt
  Step-Inv {s} (times_out i m r at t) v =
      inside-Inv condition body timeout s i (relocking m) s.history v (rw at refl)
        (rw at (λ h. ground arith)) tt tt
  Step-Inv {s} (relocks i m at free) v =
      lock-Inv condition body timeout s i (testing_last m) v free (rw at refl) tt tt
  Step-Inv {s} (passes_late i m at c) v =
      inside-Inv condition body timeout s i (running m) s.history v (rw at refl)
        (rw at (λ h. ground arith)) c tt
  Step-Inv {s} (expires i m r at c t) v =
      inside-Inv condition body timeout s i (unlocking r) _ v (rw at refl)
        (rw at (λ h. ground arith)) tt tt
  Step-Inv {s} (runs i m r x at e) v = run-Inv condition body timeout s i m r x _ v at
  Step-Inv {s} (unlocks i r at) v =
      unlock-Inv condition body timeout s i (notifying r) v (rw at refl) refl (λ h. refl) tt tt
  Step-Inv {s} (notifies i r at) v = notify-Inv condition body timeout s i r v at

  start-Inv : (x : S) → Inv condition body timeout (start condition body timeout x)
  start-Inv x = record { exclusive = λ i h. ground arith; prepared = λ i. tt; warned = λ i. tt }

  Reach-Inv :
      {x : S} {s : System S M R} → Reach condition body timeout x s → Inv condition body timeout s
  Reach-Inv {x} starts = start-Inv x
  Reach-Inv (later reach step) = Step-Inv step (Reach-Inv reach)

  module _ {x : S} {s : System S M R} (reach : Reach condition body timeout x s) where
    -- In every state of such threads, at most one of them is between locking the mutex and unlocking
    -- it, and a thread that is to run its method's body finds the method's condition true, whatever
    -- the others have done since it tested that.
    pub reachable-exclusive :
        ((i j : ℕ) → is_inside (s.threads i) ≡ true → is_inside (s.threads j) ≡ true → i ≡ j)
        × ((i : ℕ) (m : M) → s.threads i ≡ running m → condition m s.shared ≡ true)
    reachable-exclusive =
        let v : Inv condition body timeout s = Reach-Inv reach in
        (
          λ i j hi hj. some-injective (ground (arith, v.exclusive i hi, v.exclusive j hj)),
          λ i m at. rw at at (v.prepared i),
        )

    -- In every state of such threads in which none of them is about to notify, every thread that is
    -- blocked waits for a condition that is false: no wake-up is lost.
    pub reachable-no_lost_wake :
        ((j : ℕ) → will_notify (s.threads j) ≡ false)
        → (i : ℕ) (m : M) → s.threads i ≡ blocked m
        → condition m s.shared ≡ false
    reachable-no_lost_wake quiet i m at = elim (rw at at ((Reach-Inv reach).warned i)) [
      | inl c ↦ c
      | inr n ↦ absurd (ground (arith, quiet n.thread, n.notifies_soon))
    ]
