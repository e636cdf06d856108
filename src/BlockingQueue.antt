-- ===== src/BlockingQueue.antt =====
-- common::BlockingQueue (async_grpc/common/blocking_queue.h). Each method holds the queue's mutex, so
-- it is one step on the queue as it finds it when its wait ends (common::Mutex::Locker, mutex.h):
-- `none` is a call that still waits, and a wait with a timeout ends with its condition's value.
pub mod Laws
pub mod Threads
pub mod ThreadLaws
mod Tests
mod ThreadTests
use async_grpc.Base.{
  ℕ, Bool, true, false, not, ◌||◌, Option, none, some, List, [], ◌∷◌, ◌++◌, ltb, ◌==◌,
  if◌then◌else◌, length, is_empty,
}

-- BlockingQueue::kInfiniteQueueSize.
abbrev pub infinite_queue_size : ℕ
infinite_queue_size = 0

pub record BlockingQueue {ℓ} (A : Type ℓ) : Type ℓ where
  pub queue_size : ℕ
  pub deque : List A

module _ {ℓ} {A : Type ℓ} where
  -- The constructor with a size, and the default constructor.
  unfoldable pub construct : ℕ → BlockingQueue A
  construct queue_size = record { queue_size = queue_size; deque = [] }

  unfoldable construct_infinite : BlockingQueue A
  unfolding construct
  construct_infinite = construct infinite_queue_size

  unfoldable queue_empty_condition : BlockingQueue A → Bool
  queue_empty_condition q = is_empty q.deque

  unfoldable queue_not_full_condition : BlockingQueue A → Bool
  queue_not_full_condition q =
      (q.queue_size == infinite_queue_size) || ltb (length q.deque) q.queue_size

  unfoldable pub push : A → BlockingQueue A → Option (BlockingQueue A)
  unfolding queue_not_full_condition
  push t q =
      if queue_not_full_condition q then some (record q { deque = q.deque ++ t ∷ [] }) else none

  unfoldable push_with_timeout : A → BlockingQueue A → Bool × BlockingQueue A
  unfolding queue_not_full_condition
  push_with_timeout t q =
      if not (queue_not_full_condition q)
      then (false, q)
      else (true, record q { deque = q.deque ++ t ∷ [] })

  -- The front of the deque, and the deque without it.
  abbrev take_front : List A → Option (A × List A)
  take_front [] = none
  take_front (t ∷ rest) = some (t, rest)

  abbrev with_deque : BlockingQueue A → Option (A × List A) → Option (A × BlockingQueue A)
  with_deque q none = none
  with_deque q (some (t, rest)) = some (t, record q { deque = rest })

  unfoldable pop : BlockingQueue A → Option (A × BlockingQueue A)
  unfolding queue_empty_condition
  pop q = if not (queue_empty_condition q) then with_deque q (take_front q.deque) else none

  -- The null pointer that PopWithTimeout returns is `none`.
  abbrev or_null : BlockingQueue A → Option (A × BlockingQueue A) → Option A × BlockingQueue A
  or_null q none = (none, q)
  or_null q (some (t, q')) = (some t, q')

  unfoldable pub pop_with_timeout : BlockingQueue A → Option A × BlockingQueue A
  unfolding queue_empty_condition
  pop_with_timeout q =
      if queue_empty_condition q then (none, q) else or_null q (with_deque q (take_front q.deque))

  unfoldable peek : BlockingQueue A → Option A
  peek q = elim q.deque [ [] ↦ none | t ∷ rest ↦ some t ]

  unfoldable pub size : BlockingQueue A → ℕ
  size q = length q.deque

  unfoldable wait_until_empty : BlockingQueue A → Option (Unit {0})
  unfolding queue_empty_condition
  wait_until_empty q = if queue_empty_condition q then some tt else none
