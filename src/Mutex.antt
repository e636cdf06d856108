-- ===== src/Mutex.antt =====
-- common::Mutex and its Locker (async_grpc/common/mutex.h): threads that call methods of an object,
-- each of which locks the object's mutex, waits for a condition, runs its body and unlocks.
pub mod Laws
pub mod Preserve
pub mod Safety
use async_grpc.Base.{
  ℕ, ◌≡◌, Bool, true, false, Option, none, some, List, [], ◌∷◌, ◌++◌, Outcome, ok, ◌==◌,
  if◌then◌else◌,
}

-- Where a thread is in its call. The constructor of Locker locks; condition_.wait tests the
-- predicate, and if it fails unlocks and blocks in one, and locks again when it is woken up; the
-- destructor unlocks, and then notifies.
pub data Phase (M R : Type 0) : Type 0 where
  idle : Phase M R
  locking : M → Phase M R
  testing : M → Phase M R
  blocked : M → Phase M R
  relocking : M → Phase M R
  testing_last : M → Phase M R
  running : M → Phase M R
  unlocking : R → Phase M R
  notifying : R → Phase M R

-- The object with its mutex, by the thread that holds it, and the threads; `history` is what the
-- calls have returned, in the order in which they came to their end inside the lock.
pub record System (S M R : Type 0) : Type 0 where
  pub holder : Option ℕ
  pub shared : S
  pub threads : ℕ → Phase M R
  pub history : List R

module _ {M R : Type 0} where
  unfoldable pub move : ℕ → Phase M R → (ℕ → Phase M R) → ℕ → Phase M R
  move i phase threads j = if j == i then phase else threads j

  -- A thread that is notified leaves condition_.wait once it has the lock again.
  abbrev wake : Phase M R → Phase M R
  wake (blocked m) = locking m
  wake phase = phase

  -- condition_.notify_all().
  unfoldable pub notify_all : (ℕ → Phase M R) → ℕ → Phase M R
  notify_all threads j = wake (threads j)

-- The methods: the condition that each waits for, its body, and what it returns after a timeout, if
-- it waits with one.
module _ {S M R : Type 0} (condition : M → S → Bool) (body : M → S → Outcome (S × R))
    (timeout : M → Option R) where
  pub data Step (s : System S M R) : System S M R → Type 0 where
    calls :
        (i : ℕ) (m : M)
        → s.threads i ≡ idle
        → Step s (record s { threads = move i (locking m) s.threads })
    -- Locker::Locker, and the end of a wait.
    locks :
        (i : ℕ) (m : M)
        → s.threads i ≡ locking m
        → s.holder ≡ none
        → Step s (record s { holder = some i; threads = move i (testing m) s.threads })
    -- Locker::Await and AwaitWithTimeout.
    passes :
        (i : ℕ) (m : M)
        → s.threads i ≡ testing m
        → condition m s.shared ≡ true
        → Step s (record s { threads = move i (running m) s.threads })
    blocks :
        (i : ℕ) (m : M)
        → s.threads i ≡ testing m
        → condition m s.shared ≡ false
        → Step s (record s { holder = none; threads = move i (blocked m) s.threads })
    wakes_spuriously :
        (i : ℕ) (m : M)
        → s.threads i ≡ blocked m
        → Step s (record s { threads = move i (locking m) s.threads })
    -- The end of AwaitWithTimeout: the predicate is tested once more.
    times_out :
        (i : ℕ) (m : M) (r : R)
        → s.threads i ≡ blocked m
        → timeout m ≡ some r
        → Step s (record s { threads = move i (relocking m) s.threads })
    relocks :
        (i : ℕ) (m : M)
        → s.threads i ≡ relocking m
        → s.holder ≡ none
        → Step s (record s { holder = some i; threads = move i (testing_last m) s.threads })
    passes_late :
        (i : ℕ) (m : M)
        → s.threads i ≡ testing_last m
        → condition m s.shared ≡ true
        → Step s (record s { threads = move i (running m) s.threads })
    expires :
        (i : ℕ) (m : M) (r : R)
        → s.threads i ≡ testing_last m
        → condition m s.shared ≡ false
        → timeout m ≡ some r
        → Step s
            (record s { threads = move i (unlocking r) s.threads; history = s.history ++ r ∷ [] })
    -- The rest of the method.
    runs :
        (i : ℕ) (m : M) (r : R) (x : S)
        → s.threads i ≡ running m
        → body m s.shared ≡ ok (x, r)
        → Step s (record s {
          shared = x;
          threads = move i (unlocking r) s.threads;
          history = s.history ++ r ∷ [];
        })
    -- Locker::~Locker.
    unlocks :
        (i : ℕ) (r : R)
        → s.threads i ≡ unlocking r
        → Step s (record s { holder = none; threads = move i (notifying r) s.threads })
    notifies :
        (i : ℕ) (r : R)
        → s.threads i ≡ notifying r
        → Step s (record s { threads = notify_all (move i idle s.threads) })

  abbrev pub start : S → System S M R
  start x = record { holder = none; shared = x; threads = λ i. idle; history = [] }

  pub data Reach (x : S) : System S M R → Type 0 where
    starts : Reach x (start x)
    later : {s s1 : System S M R} → Reach x s → Step s s1 → Reach x s1
