-- ===== src/CompletionQueuePool/Tests.antt =====
-- The pool of completion queues (async_grpc/completion_queue_pool.cc) from the start of a process.
use async_grpc.Base.{
  ℕ, ◌≡◌, refl, true, false, [], ◌∷◌, fault, division_by_zero, Returns, length, arith,
}
use async_grpc.CompletionQueuePool.{
  CompletionQueuePool, CompletionQueue, init, get_completion_queue, choose_queue, shutdown,
  shutdown_all, shutdown_queue,
}
use async_grpc.CompletionQueuePool.Laws.{
  Inv, Serves, init-Inv, get_completion_queue-Serves, shutdown_between_faults,
}

get_completion_queue-Serves_example :
    Returns
      (λ r.
        Serves r.0 r.1 × Inv r.1 × (length r.1.completion_queues ≡ init.number_completion_queues))
      (get_completion_queue 5 init)
get_completion_queue-Serves_example = get_completion_queue-Serves 5 init init-Inv

abbrev a_running : CompletionQueue
a_running = record { thread = true; shut_down = false; joined = false }

abbrev an_ended : CompletionQueue
an_ended = record { thread = true; shut_down = true; joined = true }

abbrev pool_of_two : CompletionQueuePool
pool_of_two = record {
  initialized = true;
  number_completion_queues = 2;
  completion_queues = a_running ∷ a_running ∷ [];
}

pool_of_two-Inv : Inv pool_of_two
pool_of_two-Inv = ground arith

abbrev three : ℕ
three = 3

abbrev emptied_pool : CompletionQueuePool
emptied_pool = record pool_of_two { initialized = false; completion_queues = [] }

shutdown_between_faults_example : choose_queue 5 emptied_pool ≡ fault division_by_zero
unfolding shutdown shutdown_all shutdown_queue
shutdown_between_faults_example =
    shutdown_between_faults 5 pool_of_two emptied_pool (an_ended ∷ an_ended ∷ []) refl
