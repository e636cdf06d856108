-- ===== src/Server/Shutdown.antt =====
-- A Server (async_grpc/server.cc) that is built, started and shut down.
use async_grpc.Base.{
  Option, ℕ, ◌<◌, ◌≡◌, refl, true, false, none, some, List, [], ◌∷◌, map, ok, fault, ◌>>=◌,
  null_dereference, Returns, Returns->>=, All, arith, Option-cases, Outcome-cases, subst, inl, inr,
  if◌then◌else◌,
}
use async_grpc.Rpc.Types.{Name}
use async_grpc.EventQueueSelector.{Selector}
use async_grpc.Service.Defs.{Service, init, start_serving, stop_serving}
use async_grpc.Service.Invariant.{HasQueues, Sound}
use async_grpc.Service.Adding.{start_serving-Sound}
use async_grpc.Service.Reach.{init-Sound}
use async_grpc.Server.Maps.{find, insert, emplace}
use async_grpc.Server.Builder.{Options, Builder, ServiceInfo}
use async_grpc.Server.Threads.{
  Thread, no_thread, start_thread, join, CompletionQueueThread, new_completion_queue_thread,
  start_completion_queue_thread, shutdown_completion_queue_thread, for_each, for_each-All,
  replicate-All,
}
use async_grpc.Server.Lifecycle.{
  Server, indices, new_server, add_service, add_services, build, start_services, start,
  stop_service, shutdown,
}

abbrev IsNew : Thread → Type 0
IsNew t = (t.thread ≡ false) × (t.joined ≡ false)

abbrev IsLive : Thread → Type 0
IsLive t = (t.thread ≡ true) × (t.joined ≡ false)

-- A thread that has ended, and the threads of a server.
abbrev IsJoined : Thread → Type 0
IsJoined t = (t.thread ≡ true) × (t.joined ≡ true)

abbrev IsEnded : CompletionQueueThread → Type 0
IsEnded q = (q.shut_down ≡ true) × IsJoined q.worker_thread

abbrev SoundService : Name × Service → Type 0
SoundService e = Sound none e.1

-- A service that accepts no more calls, and whose invariant holds.
abbrev IsStopped : Name × Service → Type 0
IsStopped e = (e.1.shutting_down ≡ true) × Sound none e.1

-- A server that was built and not started.
pub record IsBuilt {D : Type 0} (s : Server D) : Type 0 where
  queues : HasQueues s.selector
  sound : All SoundService s.services
  new_events : All IsNew s.event_queue_threads
  new_completions : All (λ q. IsNew q.worker_thread) s.completion_queue_threads

record IsRunning {D : Type 0} (s : Server D) : Type 0 where
  is_set : s.server ≡ true
  sound : All SoundService s.services
  live_events : All IsLive s.event_queue_threads
  live_completions : All (λ q. IsLive q.worker_thread) s.completion_queue_threads

pub record IsShutDown {D : Type 0} (s : Server D) : Type 0 where
  is_shutting_down : s.shutting_down ≡ true
  stopped : All IsStopped s.services
  joined_events : All IsJoined s.event_queue_threads
  ended_completions : All IsEnded s.completion_queue_threads

insert-All :
    (name : Name) (service : Service) (m : List (Name × Service))
    → Sound none service
    → All SoundService m
    → All SoundService (insert name service m)
unfolding insert
insert-All name service [] v h = (v, tt)
insert-All name service ((n, s) ∷ m) v h = ground (arith, insert-All name service m v h.1)

with_selector :
    (service : Service) (selector : Selector)
    → Sound none service
    → HasQueues selector
    → Sound none (record service { event_queue_selector = selector })
with_selector service selector v q = record {
  distinct = v.distinct;
  fresh = v.fresh;
  fit = v.fit;
  queues = q;
}

start_services-Sound :
    (queues : List ℕ) (context : Option ℕ) (m : List (Name × Service)) (selector : Selector)
    → All SoundService m
    → HasQueues selector
    → Returns (λ r. All SoundService r.0) (start_services queues context m selector)
unfolding start_services
start_services-Sound queues context [] selector h q = tt
start_services-Sound queues context ((name, service) ∷ m) selector h q =
    Returns->>= (Sound none) _
      (start_serving queues context (record service { event_queue_selector = selector })) _
      (start_serving-Sound queues context (record service { event_queue_selector = selector })
        (with_selector service selector h.0 q))
      λ service1 v.
        Returns->>= (λ r. All SoundService r.0) _
          (start_services queues context m service1.event_queue_selector) _
          (start_services-Sound queues context m service1.event_queue_selector h.1 v.queues)
          λ r w. (v, w)

stop_service-IsStopped :
    (m : List (Name × Service)) → All SoundService m → All IsStopped (map stop_service m)
unfolding stop_serving
stop_service-IsStopped [] h = tt
stop_service-IsStopped ((name, service) ∷ m) h = (
  (refl, record { distinct = h.0.distinct; fresh = h.0.fresh; fit = h.0.fit; queues = h.0.queues }),
  stop_service-IsStopped m h.1,
)

start_thread-IsLive : (t : Thread) → IsNew t → Returns IsLive (start_thread t)
unfolding start_thread
start_thread-IsLive t h = ground arith

start_completion_queue_thread-IsLive :
    (q : CompletionQueueThread)
    → IsNew q.worker_thread
    → Returns (λ r. IsLive r.worker_thread) (start_completion_queue_thread q)
unfolding start_completion_queue_thread
start_completion_queue_thread-IsLive q h = ground arith

join-IsJoined : (t : Thread) → IsLive t → Returns IsJoined (join t)
unfolding join
join-IsJoined t h = ground arith

shutdown-IsEnded :
    (q : CompletionQueueThread)
    → IsLive q.worker_thread
    → Returns IsEnded (shutdown_completion_queue_thread q)
unfolding shutdown_completion_queue_thread
shutdown-IsEnded q h = ground arith

module _ {D : Type 0} where
  start-IsRunning : (s : Server D) → IsBuilt s → Returns IsRunning (start s)
  unfolding start
  start-IsRunning s v =
      Returns->>= (λ r. All SoundService r.0) _
        (start_services (indices 0 s.completion_queue_threads) s.execution_context s.services
          s.selector)
        _
        (start_services-Sound (indices 0 s.completion_queue_threads) s.execution_context s.services
          s.selector v.sound v.queues)
        λ r sound.
          Returns->>= (All IsLive) _ (for_each start_thread s.event_queue_threads) _
            (for_each-All IsNew IsLive start_thread start_thread-IsLive s.event_queue_threads
              v.new_events)
            λ events live.
              Returns->>= (All (λ q. IsLive q.worker_thread)) _
                (for_each start_completion_queue_thread s.completion_queue_threads) _
                (for_each-All (λ q. IsNew q.worker_thread) (λ q. IsLive q.worker_thread)
                  start_completion_queue_thread start_completion_queue_thread-IsLive
                  s.completion_queue_threads v.new_completions)
                λ completions lives. record {
                  is_set = refl;
                  sound = sound;
                  live_events = live;
                  live_completions = lives;
                }

  shutdown-IsShutDown : (s : Server D) → IsRunning s → Returns IsShutDown (shutdown s)
  unfolding shutdown
  shutdown-IsShutDown s v =
      Returns->>= (λ u. Unit {0}) _ (if s.server then ok tt else fault null_dereference) _
        (ground (arith, v.is_set))
        λ u n.
          Returns->>= (All IsEnded) _
            (for_each shutdown_completion_queue_thread s.completion_queue_threads) _
            (for_each-All (λ q. IsLive q.worker_thread) IsEnded shutdown_completion_queue_thread
              shutdown-IsEnded s.completion_queue_threads v.live_completions)
            λ completions ended.
              Returns->>= (All IsJoined) _ (for_each join s.event_queue_threads) _
                (for_each-All IsLive IsJoined join join-IsJoined s.event_queue_threads
                  v.live_events)
                λ events joined. record {
                  is_shutting_down = refl;
                  stopped = stop_service-IsStopped s.services v.sound;
                  joined_events = joined;
                  ended_completions = ended;
                }

  add_service-IsBuilt :
      (name : Name) (infos : ServiceInfo) (s t : Server D)
      → IsBuilt s
      → add_service name infos s ≡ ok t
      → IsBuilt t
  unfolding add_service emplace
  add_service-IsBuilt name infos s t v e = elim (Option-cases (find name s.services)) [
    | inr (a, there) ↦ absurd (ground arith)
    | inl free ↦
        let more =
          insert-All name (init infos s.selector) s.services (init-Sound infos s.selector v.queues)
            v.sound in
        ground (arith, v.queues, v.new_events, v.new_completions)
  ]

  add_services-IsBuilt :
      (m : List (Name × ServiceInfo)) (s t : Server D)
      → IsBuilt s
      → add_services m s ≡ ok t
      → IsBuilt t
  unfolding add_services
  add_services-IsBuilt [] s t v e = subst IsBuilt (ground arith) v
  add_services-IsBuilt ((name, infos) ∷ m) s t v e =
      elim (Outcome-cases (add_service name infos s)) [
        | inr (f, q) ↦ absurd (ground arith)
        | inl (s1, q) ↦
            add_services-IsBuilt m s1 t (add_service-IsBuilt name infos s s1 v q) (rw q at e)
      ]

  new_server-Returns :
      (options : Options D) (n g : ℕ)
      → options.num_event_threads ≡ some n
      → options.num_grpc_threads ≡ some g
      → 0 < n
      → Returns IsBuilt (new_server options)
  unfolding new_server
  new_server-Returns options n g e k l =
      rw (e, k)
        (record {
          queues = record { some_thread = l; enough = omega arith };
          sound = tt;
          new_events = replicate-All IsNew n no_thread (refl, refl);
          new_completions =
              replicate-All (λ x. IsNew x.worker_thread) g new_completion_queue_thread (refl, refl);
        })

  new_server-unset :
      (options : Options D) (n : ℕ) (s : Server D)
      → options.num_event_threads ≡ some n
      → options.num_grpc_threads ≡ none
      → ¬ (new_server options ≡ ok s)
  unfolding new_server
  new_server-unset options n s e k q = ground arith

  new_server-IsBuilt :
      (options : Options D) (n : ℕ) (s : Server D)
      → options.num_event_threads ≡ some n
      → 0 < n
      → new_server options ≡ ok s
      → IsBuilt s
  new_server-IsBuilt options n s e l q = elim (Option-cases options.num_grpc_threads) [
    | inl k ↦ absurd (new_server-unset options n s e k q)
    | inr (g, k) ↦ rw q at (new_server-Returns options n g e k l)
  ]

  -- A server that Build returns, with one event thread at least, can be started and then shut down:
  -- neither faults, and afterwards every completion queue is shut down, every thread has been
  -- joined, and every service accepts no more calls and keeps its invariant.
  pub start-then-shutdown :
      (b : Builder D) (n : ℕ) (s : Server D)
      → b.options.num_event_threads ≡ some n
      → 0 < n
      → build b ≡ ok s
      → Returns IsShutDown (start s >>= shutdown)
  unfolding build
  start-then-shutdown b n s e l q = elim (Outcome-cases (new_server b.options)) [
    | inr (f, r) ↦ absurd (ground arith)
    | inl (s1, r) ↦
        let built : IsBuilt s =
          add_services-IsBuilt b.rpc_handlers s1 s (new_server-IsBuilt b.options n s1 e l r)
            (rw r at q) in
        Returns->>= IsRunning IsShutDown (start s) shutdown (start-IsRunning s built)
          shutdown-IsShutDown
  ]
