-- ===== src/Server/Threads.antt =====
-- The threads of a Server: EventQueueThread (async_grpc/event_queue_thread.h, .cc) and
-- CompletionQueueThread (async_grpc/completion_queue_thread.h, .cc), each with its queue.
use async_grpc.Base.{
  ℕ, Bool, true, false, not, List, [], ◌∷◌, Outcome, ok, fault, ◌>>=◌, ◌>>◌, check,
  null_dereference, not_joinable, if◌then◌else◌, replicate, zero, suc, All, Returns, Returns->>=,
}

-- A unique_ptr to a thread: whether it is set, and whether the thread was joined.
pub record Thread : Type 0 where
  pub thread : Bool
  pub joined : Bool

abbrev pub no_thread : Thread
no_thread = record { thread = false; joined = false }

-- EventQueueThread::Start, and what CompletionQueueThread::Start does with its thread.
unfoldable pub start_thread : Thread → Outcome Thread
start_thread t = do check (not t.thread); ok (record t { thread = true })

-- thread_->join().
unfoldable pub join : Thread → Outcome Thread
join t =
    if not t.thread
    then fault null_dereference
    else if t.joined
    then fault not_joinable
    else ok (record t { joined = true })

-- EventQueueThread::Shutdown is the join. CompletionQueueThread has its gRPC queue shut down first.
pub record CompletionQueueThread : Type 0 where
  pub shut_down : Bool
  pub worker_thread : Thread

abbrev pub new_completion_queue_thread : CompletionQueueThread
new_completion_queue_thread = record { shut_down = false; worker_thread = no_thread }

-- CompletionQueueThread::Start.
unfoldable pub start_completion_queue_thread : CompletionQueueThread → Outcome CompletionQueueThread
unfolding start_thread
start_completion_queue_thread q = do
  t ← start_thread q.worker_thread
  ok (record q { worker_thread = t })

-- CompletionQueueThread::Shutdown.
unfoldable pub shutdown_completion_queue_thread :
    CompletionQueueThread → Outcome CompletionQueueThread
unfolding join
shutdown_completion_queue_thread q = do
  t ← join q.worker_thread
  ok (record q { shut_down = true; worker_thread = t })

-- A loop that calls a method of each element.
unfoldable pub for_each {ℓ} : {A : Type ℓ} → (A → Outcome A) → List A → Outcome (List A)
for_each f [] = ok []
for_each f (a ∷ l) = do a' ← f a; l' ← for_each f l; ok (a' ∷ l')

pub for_each-All {ℓ} :
    {A : Type ℓ} (P Q : A → Type 0) (f : A → Outcome A)
    → ((a : A) → P a → Returns Q (f a))
    → (l : List A) → All P l
    → Returns (All Q) (for_each f l)
unfolding for_each
for_each-All P Q f h [] p = tt
for_each-All P Q f h (a ∷ l) p =
    Returns->>= Q (All Q) (f a) _ (h a p.0) λ a' q.
      Returns->>= (All Q) (All Q) (for_each f l) _ (for_each-All P Q f h l p.1) λ l' r. (q, r)

pub replicate-All {ℓ} : {A : Type ℓ} (P : A → Type 0) (n : ℕ) (a : A) → P a → All P (replicate n a)
replicate-All P zero a p = tt
replicate-All P (suc n) a p = (p, replicate-All P n a p)
