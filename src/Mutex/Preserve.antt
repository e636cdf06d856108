-- ===== src/Mutex/Preserve.antt =====
-- What a step of a thread does to the invariant of a common::Mutex (async_grpc/common/mutex.h).
use async_grpc.Base.{ℕ, ◌≡◌, ◌≢◌, refl, Bool, true, false, Option, none, some, List, Outcome, arith}
use async_grpc.Mutex.{Phase, idle, running, unlocking, notifying, System, move, wake, notify_all}
use async_grpc.Mutex.Laws.{
  is_inside, will_notify, SomeNotifies, move-each, some-injective, IsPrepared, IsWarned, Inv,
  IsWarned-all, IsWarned-wake, IsPrepared-wake, outside-IsPrepared, inside_wake, moved-IsWarned,
}

module _ {S M R : Type 0} (condition : M → S → Bool) (body : M → S → Outcome (S × R))
    (timeout : M → Option R) where
  -- A thread moves, and keeps the mutex as it is.
  pub inside-Inv :
      (s : System S M R) (i : ℕ) (phase : Phase M R) (history : List R)
      → Inv condition body timeout s
      → is_inside phase ≡ is_inside (s.threads i)
      → (will_notify (s.threads i) ≡ true → will_notify phase ≡ true)
      → IsPrepared condition body timeout s.shared phase
      → IsWarned condition body timeout s.shared (SomeNotifies (move i phase s.threads)) phase
      → Inv condition body timeout
          (record s { threads = move i phase s.threads; history = history })
  inside-Inv s i phase history v same n p w = record {
    exclusive =
        move-each (λ j ph. is_inside ph ≡ true → s.holder ≡ some j) i phase s.threads
          (λ h. v.exclusive i (ground arith)) (λ j ne. v.exclusive j);
    prepared =
        move-each (λ j. IsPrepared condition body timeout s.shared) i phase s.threads p
          (λ j ne. v.prepared j);
    warned = moved-IsWarned condition body timeout s i phase s.threads n w v.warned;
  }

  -- A thread locks the mutex.
  pub lock-Inv :
      (s : System S M R) (i : ℕ) (phase : Phase M R)
      → Inv condition body timeout s
      → s.holder ≡ none
      → will_notify (s.threads i) ≡ false
      → IsPrepared condition body timeout s.shared phase
      → IsWarned condition body timeout s.shared (SomeNotifies (move i phase s.threads)) phase
      → Inv condition body timeout (record s { holder = some i; threads = move i phase s.threads })
  lock-Inv s i phase v free n p w = record {
    exclusive =
        move-each (λ j ph. is_inside ph ≡ true → some i ≡ some j) i phase s.threads (λ h. refl)
          (λ j ne h. absurd (ground (arith, v.exclusive j h)));
    prepared =
        move-each (λ j. IsPrepared condition body timeout s.shared) i phase s.threads p
          (λ j ne. v.prepared j);
    warned =
        moved-IsWarned condition body timeout s i phase s.threads (λ h. ground arith) w v.warned;
  }

  -- The thread that holds the mutex unlocks it.
  pub unlock-Inv :
      (s : System S M R) (i : ℕ) (phase : Phase M R)
      → Inv condition body timeout s
      → is_inside (s.threads i) ≡ true
      → is_inside phase ≡ false
      → (will_notify (s.threads i) ≡ true → will_notify phase ≡ true)
      → IsPrepared condition body timeout s.shared phase
      → IsWarned condition body timeout s.shared (SomeNotifies (move i phase s.threads)) phase
      → Inv condition body timeout (record s { holder = none; threads = move i phase s.threads })
  unlock-Inv s i phase v inside out n p w = record {
    exclusive =
        move-each (λ j ph. is_inside ph ≡ true → none ≡ some j) i phase s.threads
          (λ h. absurd (ground arith))
          (λ j ne h.
            absurd (ne (some-injective (ground (arith, v.exclusive j h, v.exclusive i inside)))));
    prepared =
        move-each (λ j. IsPrepared condition body timeout s.shared) i phase s.threads p
          (λ j ne. v.prepared j);
    warned = moved-IsWarned condition body timeout s i phase s.threads n w v.warned;
  }

  -- The body runs: no other thread is inside, and this one will notify.
  pub run-Inv :
      (s : System S M R) (i : ℕ) (m : M) (r : R) (x : S) (history : List R)
      → Inv condition body timeout s
      → s.threads i ≡ running m
      → Inv condition body timeout
          (record s { shared = x; threads = move i (unlocking r) s.threads; history = history })
  unfolding move
  run-Inv s i m r x history v at = record {
    exclusive =
        move-each (λ j ph. is_inside ph ≡ true → s.holder ≡ some j) i (unlocking r) s.threads
          (λ h. v.exclusive i (rw at refl)) (λ j ne. v.exclusive j);
    prepared =
        move-each (λ j. IsPrepared condition body timeout x) i (unlocking r) s.threads tt
          (λ j ne. unprepared j ne);
    warned =
        move-each
          (λ j. IsWarned condition body timeout x (SomeNotifies (move i (unlocking r) s.threads))) i
          (unlocking r) s.threads tt
          (λ j ne.
            IsWarned-all condition body timeout x (SomeNotifies (move i (unlocking r) s.threads))
              (s.threads j) this_one);
  }
    where
      this_one : SomeNotifies (move i (unlocking r) s.threads)
      this_one = record { thread = i; notifies_soon = ground arith }

      unprepared : (j : ℕ) → j ≢ i → IsPrepared condition body timeout x (s.threads j)
      unprepared j ne =
          outside-IsPrepared condition body timeout x (s.threads j)
            (λ h. ne (some-injective (ground (arith, v.exclusive j h, v.exclusive i (rw at refl)))))

  pub notify-Inv :
      (s : System S M R) (i : ℕ) (r : R)
      → Inv condition body timeout s
      → s.threads i ≡ notifying r
      → Inv condition body timeout (record s { threads = notify_all (move i idle s.threads) })
  unfolding notify_all
  notify-Inv s i r v at = record {
    exclusive = λ j h.
        move-each (λ j ph. is_inside (wake ph) ≡ true → s.holder ≡ some j) i idle s.threads
          (λ g. absurd (ground arith)) (λ k ne g. v.exclusive k (inside_wake (s.threads k) g)) j h;
    prepared = λ j.
        move-each (λ j ph. IsPrepared condition body timeout s.shared (wake ph)) i idle s.threads tt
          (λ k ne. IsPrepared-wake condition body timeout s.shared (s.threads k) (v.prepared k)) j;
    warned = λ j. IsWarned-wake condition body timeout s.shared _ (move i idle s.threads j);
  }
