-- ===== src/BlockingQueue/Threads.antt =====
-- Threads that use one BlockingQueue (async_grpc/common/blocking_queue.h) through its mutex
-- (async_grpc/common/mutex.h).
use async_grpc.Base.{
  ℕ, Bool, true, not, Option, none, some, List, [], ◌∷◌, ◌++◌, Outcome, ok, fault, out_of_range,
  length,
}
use async_grpc.BlockingQueue.{BlockingQueue, queue_not_full_condition, queue_empty_condition, peek}

-- The methods with their arguments, less the times, and what they return.
pub data Call (A : Type 0) : Type 0 where
  call_push : A → Call A
  call_push_with_timeout : A → Call A
  call_pop : Call A
  call_pop_with_timeout : Call A
  call_peek : Call A
  call_size : Call A
  call_wait_until_empty : Call A

pub data Answer (A : Type 0) : Type 0 where
  pushed : A → Answer A
  not_pushed : Answer A
  popped : A → Answer A
  nothing_popped : Answer A
  peeked : Option A → Answer A
  sized : ℕ → Answer A
  emptied : Answer A

module _ {A : Type 0} where
  -- The condition of the method's wait. Peek and Size do not wait.
  unfoldable pub condition : Call A → BlockingQueue A → Bool
  unfolding queue_not_full_condition queue_empty_condition
  condition (call_push t) q = queue_not_full_condition q
  condition (call_push_with_timeout t) q = queue_not_full_condition q
  condition call_pop q = not (queue_empty_condition q)
  condition call_pop_with_timeout q = not (queue_empty_condition q)
  condition call_peek q = true
  condition call_size q = true
  condition call_wait_until_empty q = queue_empty_condition q

  -- deque_.front and deque_.pop_front, which an empty deque does not have.
  abbrev pub pop_front : BlockingQueue A → List A → Outcome (BlockingQueue A × Answer A)
  pop_front q [] = fault out_of_range
  pop_front q (t ∷ rest) = ok (record q { deque = rest }, popped t)

  -- What the method does after its wait.
  unfoldable pub body : Call A → BlockingQueue A → Outcome (BlockingQueue A × Answer A)
  body (call_push t) q = ok (record q { deque = q.deque ++ t ∷ [] }, pushed t)
  body (call_push_with_timeout t) q = ok (record q { deque = q.deque ++ t ∷ [] }, pushed t)
  body call_pop q = pop_front q q.deque
  body call_pop_with_timeout q = pop_front q q.deque
  body call_peek q = ok (q, peeked (peek q))
  body call_size q = ok (q, sized (length q.deque))
  body call_wait_until_empty q = ok (q, emptied)

  -- What it returns after a timeout.
  unfoldable pub timeout : Call A → Option (Answer A)
  timeout (call_push_with_timeout t) = some not_pushed
  timeout call_pop_with_timeout = some nothing_popped
  timeout _ = none

  -- What has entered the queue, and what has left it.
  abbrev pub entered : List (Answer A) → List A
  entered [] = []
  entered (pushed t ∷ h) = t ∷ entered h
  entered (_ ∷ h) = entered h

  abbrev pub left : List (Answer A) → List A
  left [] = []
  left (popped t ∷ h) = t ∷ left h
  left (_ ∷ h) = left h
