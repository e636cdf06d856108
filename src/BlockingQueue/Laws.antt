-- ===== src/BlockingQueue/Laws.antt =====
-- What common::BlockingQueue (async_grpc/common/blocking_queue.h) promises its producers and
-- consumers, whatever the order in which they come.
use mathlib.Core.List.{append-nil, append_assoc}
use async_grpc.Base.{
  ◌≤◌, ◌≡◌, ◌≢◌, ◌⊎◌, ◌↔◌, refl, true, false, none, some, List, [], ◌∷◌, ◌++◌, length,
  length-append, arith,
}
use async_grpc.BlockingQueue.{BlockingQueue, push, push_with_timeout, pop, pop_with_timeout}

-- A history of calls that have returned, with what entered the queue and what left it, in order.
pub data Run {ℓ} {A : Type ℓ} (q : BlockingQueue A)
    : List A → List A → BlockingQueue A → Type ℓ where
  starts : Run q [] [] q
  pushes :
      {entered left : List A} {q1 q2 : BlockingQueue A} (t : A)
      → Run q entered left q1
      → push t q1 ≡ some q2
      → Run q (entered ++ t ∷ []) left q2
  pushes_in_time :
      {entered left : List A} {q1 q2 : BlockingQueue A} (t : A)
      → Run q entered left q1
      → push_with_timeout t q1 ≡ (true, q2)
      → Run q (entered ++ t ∷ []) left q2
  push_times_out :
      {entered left : List A} {q1 q2 : BlockingQueue A} (t : A)
      → Run q entered left q1
      → push_with_timeout t q1 ≡ (false, q2)
      → Run q entered left q2
  pops :
      {entered left : List A} {q1 q2 : BlockingQueue A} (t : A)
      → Run q entered left q1
      → pop q1 ≡ some (t, q2)
      → Run q entered (left ++ t ∷ []) q2
  pops_in_time :
      {entered left : List A} {q1 q2 : BlockingQueue A} (t : A)
      → Run q entered left q1
      → pop_with_timeout q1 ≡ (some t, q2)
      → Run q entered (left ++ t ∷ []) q2
  pop_times_out :
      {entered left : List A} {q1 q2 : BlockingQueue A}
      → Run q entered left q1
      → pop_with_timeout q1 ≡ (none, q2)
      → Run q entered left q2

-- The bound of a queue that has one.
abbrev pub IsBounded {ℓ} : {A : Type ℓ} → BlockingQueue A → Type 0
IsBounded q = (q.queue_size ≡ 0) ⊎ (length q.deque ≤ q.queue_size)

module _ {ℓ} {A : Type ℓ} where
  record After (q : BlockingQueue A) (entered left : List A) (q' : BlockingQueue A) : Type ℓ where
    fifo : q.deque ++ entered ≡ left ++ q'.deque
    bounded : IsBounded q → IsBounded q'
    same_size : q'.queue_size ≡ q.queue_size

  pushed :
      (q q1 q2 : BlockingQueue A) (entered left : List A) (t : A)
      → After q entered left q1
      → push t q1 ≡ some q2
      → After q (entered ++ t ∷ []) left q2
  unfolding push
  pushed q q1 q2 entered left t a e = ground (
    arith,
    append_assoc q.deque entered (t ∷ []),
    append_assoc left q1.deque (t ∷ []),
    length-append q1.deque (t ∷ []),
  )

  pushed_in_time :
      (q q1 q2 : BlockingQueue A) (entered left : List A) (t : A)
      → After q entered left q1
      → push_with_timeout t q1 ≡ (true, q2)
      → After q (entered ++ t ∷ []) left q2
  unfolding push_with_timeout
  pushed_in_time q q1 q2 entered left t a e = ground (
    arith,
    append_assoc q.deque entered (t ∷ []),
    append_assoc left q1.deque (t ∷ []),
    length-append q1.deque (t ∷ []),
  )

  timed_out :
      (q q1 q2 : BlockingQueue A) (entered left : List A) (t : A)
      → After q entered left q1
      → push_with_timeout t q1 ≡ (false, q2)
      → After q entered left q2
  unfolding push_with_timeout
  timed_out q q1 q2 entered left t a e = ground arith

  popped :
      (q q1 q2 : BlockingQueue A) (d entered left : List A) (t : A)
      → q1.deque ≡ d
      → After q entered left q1
      → pop q1 ≡ some (t, q2)
      → After q entered (left ++ t ∷ []) q2
  unfolding pop
  popped q q1 q2 [] entered left t n a e = ground arith
  popped q q1 q2 (x ∷ d) entered left t n a e = ground (arith, append_assoc left (x ∷ []) d)

  popped_in_time :
      (q q1 q2 : BlockingQueue A) (d entered left : List A) (t : A)
      → q1.deque ≡ d
      → After q entered left q1
      → pop_with_timeout q1 ≡ (some t, q2)
      → After q entered (left ++ t ∷ []) q2
  unfolding pop_with_timeout
  popped_in_time q q1 q2 [] entered left t n a e = ground arith
  popped_in_time q q1 q2 (x ∷ d) entered left t n a e = ground (arith, append_assoc left (x ∷ []) d)

  none_popped :
      (q q1 q2 : BlockingQueue A) (d entered left : List A)
      → q1.deque ≡ d
      → After q entered left q1
      → pop_with_timeout q1 ≡ (none, q2)
      → After q entered left q2
  unfolding pop_with_timeout
  none_popped q q1 q2 [] entered left n a e = ground arith
  none_popped q q1 q2 (x ∷ d) entered left n a e = ground arith

  Run-After :
      {q q' : BlockingQueue A} {entered left : List A}
      → Run q entered left q'
      → After q entered left q'
  Run-After {q} starts = record { fifo = append-nil q.deque; bounded = λ b. b; same_size = refl }
  Run-After {q} (pushes {entered} {left} {q1} {q2} t r e) =
      pushed q q1 q2 entered left t (Run-After r) e
  Run-After {q} (pushes_in_time {entered} {left} {q1} {q2} t r e) =
      pushed_in_time q q1 q2 entered left t (Run-After r) e
  Run-After {q} (push_times_out {entered} {left} {q1} {q2} t r e) =
      timed_out q q1 q2 entered left t (Run-After r) e
  Run-After {q} (pops {entered} {left} {q1} {q2} t r e) =
      popped q q1 q2 q1.deque entered left t refl (Run-After r) e
  Run-After {q} (pops_in_time {entered} {left} {q1} {q2} t r e) =
      popped_in_time q q1 q2 q1.deque entered left t refl (Run-After r) e
  Run-After {q} (pop_times_out {entered} {left} {q1} {q2} r e) =
      none_popped q q1 q2 q1.deque entered left refl (Run-After r) e

  -- Over any history of calls by any number of threads: what was in the queue, followed by what
  -- entered, is what left, followed by what is in the queue.
  pub Run-fifo :
      {q q' : BlockingQueue A} {entered left : List A}
      → Run q entered left q'
      → q.deque ++ entered ≡ left ++ q'.deque
  Run-fifo r = (Run-After r).fifo

  -- Over any such history, a queue that is within its bound stays within it, and the bound stays.
  pub Run-IsBounded :
      {q q' : BlockingQueue A} {entered left : List A}
      → IsBounded q
      → Run q entered left q'
      → IsBounded q' × (q'.queue_size ≡ q.queue_size)
  Run-IsBounded b r = ((Run-After r).bounded b, (Run-After r).same_size)

  -- A producer waits exactly when the queue has a bound and is at it, a consumer exactly when the
  -- queue is empty, and so a producer and a consumer never both wait.
  pub waiting :
      (t : A) (q : BlockingQueue A)
      → ((push t q ≡ none) ↔ ((q.queue_size ≢ 0) × (q.queue_size ≤ length q.deque)))
        × ((pop q ≡ none) ↔ (q.deque ≡ []))
        × ¬ ((push t q ≡ none) × (pop q ≡ none))
  unfolding push pop
  waiting t q = by_deque q.deque refl
    where
      by_deque :
          (d : List A)
          → q.deque ≡ d
          → ((push t q ≡ none) ↔ ((q.queue_size ≢ 0) × (q.queue_size ≤ length q.deque)))
            × ((pop q ≡ none) ↔ (q.deque ≡ []))
            × ¬ ((push t q ≡ none) × (pop q ≡ none))
      by_deque [] e = ground arith
      by_deque (x ∷ d) e = ground arith

  -- The variants with a timeout do what the plain calls do where those need not wait, and report
  -- failure and change nothing where those would wait.
  timeouts_agree :
      (t : A) (q : BlockingQueue A)
      → (push_with_timeout t q ≡ elim (push t q) [ none ↦ (false, q) | some q' ↦ (true, q') ])
        × (pop_with_timeout q ≡ elim (pop q) [ none ↦ (none, q) | some (x, q') ↦ (some x, q') ])
  unfolding push push_with_timeout pop pop_with_timeout
  timeouts_agree t q = by_deque q.deque refl
    where
      by_deque :
          (d : List A)
          → q.deque ≡ d
          → (push_with_timeout t q ≡ elim (push t q) [ none ↦ (false, q) | some q' ↦ (true, q') ])
            × (pop_with_timeout q ≡ elim (pop q) [ none ↦ (none, q) | some (x, q') ↦ (some x, q') ])
      by_deque [] e = ground arith
      by_deque (x ∷ d) e = ground arith
