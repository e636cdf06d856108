-- ===== src/CompletionQueuePool.antt =====
-- async_grpc/completion_queue_pool.h and completion_queue_pool.cc: the completion queues that the
-- asynchronous clients of a process share. `rand()` is an argument of the call that uses it.
pub mod Laws
mod Tests
use async_grpc.Base.{
  ℕ, zero, suc, ◌%◌, Bool, true, false, not, Option, none, some, List, [], ◌∷◌, Outcome, ok, fault,
  ◌>>=◌, ◌>>◌, check, or_fault, out_of_range, division_by_zero, ltb, ◌==◌, if◌then◌else◌, length,
  get_elem?,
}

-- CompletionQueue: whether its thread has been made, whether the gRPC queue was shut down, and
-- whether the thread was joined.
pub record CompletionQueue : Type 0 where
  pub thread : Bool
  pub shut_down : Bool
  pub joined : Bool

abbrev new_queue : CompletionQueue
new_queue = record { thread = false; shut_down = false; joined = false }

-- CompletionQueue::Start.
unfoldable start_queue : CompletionQueue → Outcome CompletionQueue
start_queue q = do check (not q.thread); ok (record q { thread = true })

-- CompletionQueue::Shutdown.
unfoldable shutdown_queue : CompletionQueue → Outcome CompletionQueue
shutdown_queue q = do check q.thread; ok (record q { shut_down = true; joined = true })

-- CompletionQueuePool, the process's one instance of it.
pub record CompletionQueuePool : Type 0 where
  pub initialized : Bool
  pub number_completion_queues : ℕ
  pub completion_queues : List CompletionQueue

-- kDefaultNumberCompletionQueues.
abbrev default_number_completion_queues : ℕ
default_number_completion_queues = 2

-- The constructor.
unfoldable pub init : CompletionQueuePool
init = record {
  initialized = false;
  number_completion_queues = default_number_completion_queues;
  completion_queues = [];
}

-- CompletionQueuePool::SetNumberCompletionQueues.
unfoldable set_number_completion_queues : ℕ → CompletionQueuePool → Outcome CompletionQueuePool
set_number_completion_queues n pool = do
  check (not pool.initialized)
  check (ltb 0 n)
  ok (record pool { number_completion_queues = n })

-- std::vector::resize.
unfoldable resize : ℕ → List CompletionQueue → List CompletionQueue
resize zero qs = []
resize (suc n) [] = new_queue ∷ resize n []
resize (suc n) (q ∷ qs) = q ∷ resize n qs

-- The loop over the queues that starts each.
unfoldable start_all : List CompletionQueue → Outcome (List CompletionQueue)
unfolding start_queue
start_all [] = ok []
start_all (q ∷ qs) = do q' ← start_queue q; qs' ← start_all qs; ok (q' ∷ qs')

-- The loop over the queues that shuts each down.
unfoldable shutdown_all : List CompletionQueue → Outcome (List CompletionQueue)
unfolding shutdown_queue
shutdown_all [] = ok []
shutdown_all (q ∷ qs) = do q' ← shutdown_queue q; qs' ← shutdown_all qs; ok (q' ∷ qs')

-- CompletionQueuePool::Initialize, under its lock.
unfoldable pub initialize : CompletionQueuePool → Outcome CompletionQueuePool
unfolding resize start_all
initialize pool = if pool.initialized then ok pool else do
  qs ← start_all (resize pool.number_completion_queues pool.completion_queues)
  ok (record pool { completion_queues = qs; initialized = true })

-- CompletionQueuePool::Start.
unfoldable pub start : CompletionQueuePool → Outcome CompletionQueuePool
unfolding initialize
start pool = initialize pool

-- The end of CompletionQueuePool::GetCompletionQueue, which holds no lock: the index of the queue.
unfoldable choose_queue : ℕ → CompletionQueuePool → Outcome ℕ
choose_queue rand pool =
    let size = length pool.completion_queues in
    if size == 0 then fault division_by_zero else do
      q ← or_fault out_of_range (get_elem? pool.completion_queues (rand % size))
      ok (rand % size)

-- CompletionQueuePool::GetCompletionQueue.
unfoldable get_completion_queue : ℕ → CompletionQueuePool → Outcome (ℕ × CompletionQueuePool)
unfolding initialize choose_queue
get_completion_queue rand pool = do
  pool1 ← initialize pool
  qid ← choose_queue rand pool1
  ok (qid, pool1)

-- CompletionQueuePool::Shutdown, under the lock. Clearing the vector destroys the queues; what they
-- were left as is returned beside the pool.
unfoldable pub shutdown : CompletionQueuePool → Outcome (CompletionQueuePool × List CompletionQueue)
unfolding shutdown_all
shutdown pool = do
  qs ← shutdown_all pool.completion_queues
  ok (record pool { completion_queues = []; initialized = false }, qs)
