-- ===== src/BlockingQueue/Tests.antt =====
-- A queue of two places (async_grpc/common/blocking_queue.h) on a concrete history.
use async_grpc.Base.{ℕ, ◌≡◌, refl, inr, [], ◌∷◌, ◌++◌, arith}
use async_grpc.BlockingQueue.{BlockingQueue, push, push_with_timeout, pop}
use async_grpc.BlockingQueue.Laws.{
  Run, starts, pushes, pushes_in_time, push_times_out, pops, IsBounded, Run-fifo, Run-IsBounded,
}

abbrev two_places : BlockingQueue ℕ
two_places = record { queue_size = 2; deque = [] }

abbrev holding_one : BlockingQueue ℕ
holding_one = record { queue_size = 2; deque = 8 ∷ [] }

-- Two elements enter, a third does not in time, and the first leaves.
a_history : Run two_places (7 ∷ 8 ∷ []) (7 ∷ []) holding_one
unfolding push push_with_timeout pop
a_history = pops 7 (push_times_out 9 (pushes_in_time 8 (pushes 7 starts refl) refl) refl) refl

Run-fifo_example : two_places.deque ++ 7 ∷ 8 ∷ [] ≡ 7 ∷ holding_one.deque
Run-fifo_example = Run-fifo a_history

Run-IsBounded_example : IsBounded holding_one × (holding_one.queue_size ≡ two_places.queue_size)
Run-IsBounded_example = Run-IsBounded (inr (omega arith)) a_history
