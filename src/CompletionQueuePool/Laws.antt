-- ===== src/CompletionQueuePool/Laws.antt =====
-- The pool of completion queues (async_grpc/completion_queue_pool.cc) keeps its invariant, and a
-- client always gets a queue that runs.
use async_grpc.Base.{
  ℕ, zero, suc, ◌%◌, ◌<◌, ◌≡◌, refl, ◌∙◌, ◌⊎◌, inl, inr, Bool, true, false, some, List, [], ◌∷◌, ok,
  fault, ◌>>=◌, division_by_zero, check_failed, Returns, Returns->>=, Returns-map, length,
  get_elem?, All, arith, if◌then◌else◌,
}
use async_grpc.CompletionQueuePool.{
  CompletionQueue, CompletionQueuePool, init, set_number_completion_queues, resize, start_all,
  shutdown_all, initialize, start, choose_queue, get_completion_queue, shutdown,
}

-- A queue whose thread serves it.
abbrev pub Runs : CompletionQueue → Type 0
Runs q = (q.thread ≡ true) × (q.shut_down ≡ false) × (q.joined ≡ false)

-- A queue that was shut down and whose thread has ended.
abbrev Ended : CompletionQueue → Type 0
Ended q = (q.shut_down ≡ true) × (q.joined ≡ true)

pub record Inv (pool : CompletionQueuePool) : Type 0 where
  pub positive : 0 < pool.number_completion_queues
  pub filled :
      pool.initialized ≡ true → length pool.completion_queues ≡ pool.number_completion_queues
  pub running : All Runs pool.completion_queues
  pub emptied : pool.initialized ≡ false → pool.completion_queues ≡ []

-- What Initialize leaves.
pub record Initialized (pool pool' : CompletionQueuePool) : Type 0 where
  pub inv : Inv pool'
  pub ready : pool'.initialized ≡ true
  pub same_number : pool'.number_completion_queues ≡ pool.number_completion_queues

start_new : (n : ℕ) → Returns (λ qs. All Runs qs × (length qs ≡ n)) (start_all (resize n []))
unfolding start_all resize
start_new zero = (tt, refl)
start_new (suc n) = ground (arith, start_new n)

initialize-Initialized :
    (pool : CompletionQueuePool) → Inv pool → Returns (Initialized pool) (initialize pool)
unfolding initialize
initialize-Initialized pool v = by_flag pool.initialized refl
  where
    by_flag :
        (b : Bool)
        → pool.initialized ≡ b
        → Returns (Initialized pool) (
            if b
            then ok pool
            else (start_all (resize pool.number_completion_queues pool.completion_queues) >>= λ qs.
                ok (record pool { completion_queues = qs; initialized = true })))
    by_flag true e = record { inv = v; ready = e; same_number = refl }
    by_flag false e = simp (v.emptied e) (
        Returns->>= _ (Initialized pool) (start_all (resize pool.number_completion_queues [])) _
          (start_new pool.number_completion_queues)
          λ qs h. record {
            inv = record {
              positive = v.positive;
              filled = λ r. h.1;
              running = h.0;
              emptied = λ r. cc;
            };
            ready = refl;
            same_number = refl;
          })

get_running :
    (qs : List CompletionQueue) (i : ℕ)
    → All Runs qs
    → i < length qs
    → (q : CompletionQueue) × (get_elem? qs i ≡ some q) × Runs q
get_running [] i r h = absurd (omega arith)
get_running (q ∷ qs) zero r h = (q, refl, r.0)
get_running (q ∷ qs) (suc i) r h = get_running qs i r.1 (omega arith)

-- A queue of the pool that runs.
abbrev pub Serves : ℕ → CompletionQueuePool → Type 0
Serves i pool = (q : CompletionQueue) × (get_elem? pool.completion_queues i ≡ some q) × Runs q

choose_queue-Serves :
    (rand : ℕ) (pool : CompletionQueuePool)
    → Inv pool
    → pool.initialized ≡ true
    → Returns (λ i. Serves i pool) (choose_queue rand pool)
unfolding choose_queue
choose_queue-Serves rand pool v e =
    let i = rand % length pool.completion_queues in
    let below : i < length pool.completion_queues = omega (arith, v.filled e, v.positive) in
    let (q, there, runs) = get_running pool.completion_queues i v.running below in ground arith

-- GetCompletionQueue, for any value of rand() and whether or not the pool has been started: it
-- returns, with a queue whose thread runs, and keeps the pool's invariant and size.
pub get_completion_queue-Serves :
    (rand : ℕ) (pool : CompletionQueuePool)
    → Inv pool
    → Returns
        (λ r.
          Serves r.0 r.1 × Inv r.1 × (length r.1.completion_queues ≡ pool.number_completion_queues))
        (get_completion_queue rand pool)
unfolding get_completion_queue
get_completion_queue-Serves rand pool v =
    Returns->>= (Initialized pool) _ (initialize pool) _ (initialize-Initialized pool v) λ pool1 h.
      Returns->>= (λ i. Serves i pool1) _ (choose_queue rand pool1) _
        (choose_queue-Serves rand pool1 h.inv h.ready)
        λ i served. (served, h.inv, h.inv.filled h.ready ∙ h.same_number)

-- The pool at the start of the process has its invariant.
pub init-Inv : Inv init
unfolding init
init-Inv = ground arith

shutdown_all-Ended :
    (qs : List CompletionQueue)
    → All Runs qs
    → Returns (λ ended. All Ended ended × (length ended ≡ length qs)) (shutdown_all qs)
unfolding shutdown_all
shutdown_all-Ended [] r = (tt, refl)
shutdown_all-Ended (q ∷ qs) r = ground (arith, shutdown_all-Ended qs r.1)

-- Shutdown returns, ends every queue of the pool and leaves it as it was before it was started, so
-- that it can be configured and started again.
shutdown-Ended :
    (pool : CompletionQueuePool)
    → Inv pool
    → Returns
        (λ r.
          Inv r.0
          × (r.0.initialized ≡ false)
          × (r.0.number_completion_queues ≡ pool.number_completion_queues)
          × All Ended r.1
          × (length r.1 ≡ length pool.completion_queues))
        (shutdown pool)
unfolding shutdown
shutdown-Ended pool v =
    Returns->>= _ _ (shutdown_all pool.completion_queues) _
      (shutdown_all-Ended pool.completion_queues v.running)
      λ qs h. (
        record { positive = v.positive; filled = λ e. cc; running = tt; emptied = λ e. refl },
        refl,
        refl,
        h.0,
        h.1,
      )

set_number_refused :
    (n : ℕ) (pool : CompletionQueuePool)
    → (pool.initialized ≡ true) ⊎ (n ≡ 0)
    → set_number_completion_queues n pool ≡ fault check_failed
unfolding set_number_completion_queues
set_number_refused n pool h = ground arith

set_number_lem :
    (n : ℕ) (pool : CompletionQueuePool)
    → pool.initialized ≡ false
    → 0 < n
    → set_number_completion_queues n pool ≡ ok (record pool { number_completion_queues = n })
unfolding set_number_completion_queues
set_number_lem n pool e h = ground arith

-- SetNumberCompletionQueues is refused exactly when the pool is initialized or the number is 0, and
-- otherwise keeps the invariant and has the next start make that many queues.
set_number-then-start :
    (n : ℕ) (pool : CompletionQueuePool)
    → Inv pool
    → ((set_number_completion_queues n pool ≡ fault check_failed)
        × ((pool.initialized ≡ true) ⊎ (n ≡ 0)))
      ⊎ ((pool.initialized ≡ false)
          × (0 < n)
          × Returns
              (λ r. Inv r × (length r.completion_queues ≡ n))
              (set_number_completion_queues n pool >>= start))
unfolding start
set_number-then-start n pool v = by_flag pool.initialized n refl refl
  where
    fit : pool.initialized ≡ false → 0 < n → Inv (record pool { number_completion_queues = n })
    fit e h = record {
      positive = h;
      filled = λ r. absurd (ground arith);
      running = v.running;
      emptied = v.emptied;
    }

    by_flag :
        (b : Bool) (m : ℕ)
        → pool.initialized ≡ b
        → n ≡ m
        → ((set_number_completion_queues n pool ≡ fault check_failed)
            × ((pool.initialized ≡ true) ⊎ (n ≡ 0)))
          ⊎ ((pool.initialized ≡ false)
              × (0 < n)
              × Returns
                  (λ r. Inv r × (length r.completion_queues ≡ n))
                  (set_number_completion_queues n pool >>= start))
    by_flag true m e f = inl (set_number_refused n pool (inl e), inl e)
    by_flag false zero e f = inl (set_number_refused n pool (inr f), inr f)
    by_flag false (suc m) e f = inr (
      e,
      omega arith,
      rw (set_number_lem n pool e (omega arith)) (
          Returns-map (Initialized (record pool { number_completion_queues = n })) _ _
            (initialize-Initialized (record pool { number_completion_queues = n })
              (fit e (omega arith)))
            (λ r h. (h.inv, h.inv.filled h.ready ∙ h.same_number))),
    )

-- GetCompletionQueue holds no lock while it picks a queue: a Shutdown that another thread completes
-- between its call of Initialize and that makes it divide by zero, whatever rand() returns.
pub shutdown_between_faults :
    (rand : ℕ) (pool pool' : CompletionQueuePool) (ended : List CompletionQueue)
    → shutdown pool ≡ ok (pool', ended)
    → choose_queue rand pool' ≡ fault division_by_zero
unfolding shutdown choose_queue
shutdown_between_faults rand pool pool' ended e = ground arith
