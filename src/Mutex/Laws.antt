-- ===== src/Mutex/Laws.antt =====
-- What common::Mutex (async_grpc/common/mutex.h) promises: one thread at a time, a body that finds
-- its condition true, and no lost wake-up.
use async_grpc.Base.{
  ℕ, ◌≡◌, ◌≢◌, refl, sym, subst, ◌⊎◌, inl, inr, Bool, true, false, Option, some, Outcome, ◌==◌,
  ==_iff, Bool-cases, if◌then◌else◌, arith,
}
use async_grpc.Mutex.{
  Phase, idle, locking, testing, blocked, relocking, testing_last, running, unlocking, notifying,
  System, move, wake,
}

pub some-injective : {i j : ℕ} → some j ≡ some i → j ≡ i
some-injective e = ground arith

module _ {M R : Type 0} where
  -- The thread is between locking and unlocking.
  abbrev pub is_inside : Phase M R → Bool
  is_inside (testing m) = true
  is_inside (testing_last m) = true
  is_inside (running m) = true
  is_inside (unlocking r) = true
  is_inside phase = false

  -- The thread will notify the others before it does anything else with the mutex.
  abbrev pub will_notify : Phase M R → Bool
  will_notify (unlocking r) = true
  will_notify (notifying r) = true
  will_notify phase = false

  pub record SomeNotifies (threads : ℕ → Phase M R) : Type 0 where
    pub thread : ℕ
    pub notifies_soon : will_notify (threads thread) ≡ true

  -- A property of every thread, where one has moved.
  pub move-each :
      (P : ℕ → Phase M R → Type 0) (i : ℕ) (phase : Phase M R) (threads : ℕ → Phase M R)
      → P i phase
      → ((j : ℕ) → j ≢ i → P j (threads j))
      → (j : ℕ) → P j (move i phase threads j)
  unfolding move
  move-each P i phase threads h k j = by_name (j == i) refl
    where
      by_name : (b : Bool) → (j == i) ≡ b → P j (if b then phase else threads j)
      by_name true e = subst (λ n. P n phase) (sym ((==_iff j i).0 e)) h
      by_name false e = k j (λ same. ground arith)

  SomeNotifies-move :
      (i : ℕ) (phase : Phase M R) (threads : ℕ → Phase M R)
      → (will_notify (threads i) ≡ true → will_notify phase ≡ true)
      → SomeNotifies threads
      → SomeNotifies (move i phase threads)
  unfolding move
  SomeNotifies-move i phase threads n w = record {
    thread = w.thread;
    notifies_soon = elim (Bool-cases (w.thread == i)) [
      | inl same ↦ rw same (n (ground (arith, w.notifies_soon)))
      | inr other ↦ rw other w.notifies_soon
    ];
  }

  pub inside_wake : (phase : Phase M R) → is_inside (wake phase) ≡ true → is_inside phase ≡ true
  inside_wake idle h = h
  inside_wake (locking m) h = h
  inside_wake (testing m) h = h
  inside_wake (blocked m) h = h
  inside_wake (relocking m) h = h
  inside_wake (testing_last m) h = h
  inside_wake (running m) h = h
  inside_wake (unlocking r) h = h
  inside_wake (notifying r) h = h

module _ {S M R : Type 0} (condition : M → S → Bool) (body : M → S → Outcome (S × R))
    (timeout : M → Option R) where
  -- A thread that is to run its body has its condition.
  abbrev pub IsPrepared : S → Phase M R → Type 0
  IsPrepared x (running m) = condition m x ≡ true
  IsPrepared x phase = Unit {0}

  -- A thread that is blocked waits for its condition, or is going to be notified.
  abbrev pub IsWarned : S → Type 0 → Phase M R → Type 0
  IsWarned x Notified (blocked m) = (condition m x ≡ false) ⊎ Notified
  IsWarned x Notified phase = Unit {0}

  pub record Inv (s : System S M R) : Type 0 where
    pub exclusive : (i : ℕ) → is_inside (s.threads i) ≡ true → s.holder ≡ some i
    pub prepared : (i : ℕ) → IsPrepared s.shared (s.threads i)
    pub warned : (i : ℕ) → IsWarned s.shared (SomeNotifies s.threads) (s.threads i)

  IsWarned-map :
      (x : S) (N N1 : Type 0) (phase : Phase M R)
      → (N → N1)
      → IsWarned x N phase
      → IsWarned x N1 phase
  IsWarned-map x N N1 (blocked m) f (inl h) = inl h
  IsWarned-map x N N1 (blocked m) f (inr h) = inr (f h)
  IsWarned-map x N N1 idle f h = tt
  IsWarned-map x N N1 (locking m) f h = tt
  IsWarned-map x N N1 (testing m) f h = tt
  IsWarned-map x N N1 (relocking m) f h = tt
  IsWarned-map x N N1 (testing_last m) f h = tt
  IsWarned-map x N N1 (running m) f h = tt
  IsWarned-map x N N1 (unlocking r) f h = tt
  IsWarned-map x N N1 (notifying r) f h = tt

  pub outside-IsPrepared :
      (x : S) (phase : Phase M R) → ¬ (is_inside phase ≡ true) → IsPrepared x phase
  outside-IsPrepared x idle n = tt
  outside-IsPrepared x (locking m) n = tt
  outside-IsPrepared x (testing m) n = tt
  outside-IsPrepared x (blocked m) n = tt
  outside-IsPrepared x (relocking m) n = tt
  outside-IsPrepared x (testing_last m) n = tt
  outside-IsPrepared x (running m) n = absurd (n refl)
  outside-IsPrepared x (unlocking r) n = tt
  outside-IsPrepared x (notifying r) n = tt

  pub IsWarned-all : (x : S) (N : Type 0) (phase : Phase M R) → N → IsWarned x N phase
  IsWarned-all x N idle n = tt
  IsWarned-all x N (locking m) n = tt
  IsWarned-all x N (testing m) n = tt
  IsWarned-all x N (blocked m) n = inr n
  IsWarned-all x N (relocking m) n = tt
  IsWarned-all x N (testing_last m) n = tt
  IsWarned-all x N (running m) n = tt
  IsWarned-all x N (unlocking r) n = tt
  IsWarned-all x N (notifying r) n = tt

  pub IsWarned-wake : (x : S) (N : Type 0) (phase : Phase M R) → IsWarned x N (wake phase)
  IsWarned-wake x N idle = tt
  IsWarned-wake x N (locking m) = tt
  IsWarned-wake x N (testing m) = tt
  IsWarned-wake x N (blocked m) = tt
  IsWarned-wake x N (relocking m) = tt
  IsWarned-wake x N (testing_last m) = tt
  IsWarned-wake x N (running m) = tt
  IsWarned-wake x N (unlocking r) = tt
  IsWarned-wake x N (notifying r) = tt

  pub IsPrepared-wake : (x : S) (phase : Phase M R) → IsPrepared x phase → IsPrepared x (wake phase)
  IsPrepared-wake x idle h = h
  IsPrepared-wake x (locking m) h = h
  IsPrepared-wake x (testing m) h = h
  IsPrepared-wake x (blocked m) h = tt
  IsPrepared-wake x (relocking m) h = h
  IsPrepared-wake x (testing_last m) h = h
  IsPrepared-wake x (running m) h = h
  IsPrepared-wake x (unlocking r) h = h
  IsPrepared-wake x (notifying r) h = h

  pub moved-IsWarned :
      (s : System S M R) (i : ℕ) (phase : Phase M R) (threads : ℕ → Phase M R)
      → (will_notify (threads i) ≡ true → will_notify phase ≡ true)
      → IsWarned s.shared (SomeNotifies (move i phase threads)) phase
      → ((j : ℕ) → IsWarned s.shared (SomeNotifies threads) (threads j))
      → (j : ℕ) → IsWarned s.shared (SomeNotifies (move i phase threads)) (move i phase threads j)
  moved-IsWarned s i phase threads n w v =
      move-each (λ j. IsWarned s.shared (SomeNotifies (move i phase threads))) i phase threads w
        (λ j ne. IsWarned-map s.shared _ _ (threads j) (SomeNotifies-move i phase threads n) (v j))
