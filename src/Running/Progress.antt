-- ===== src/Running/Progress.antt =====
-- The event threads of a running server (async_grpc/server.cc, RunEventQueue) do not get stuck.
use mathlib.Core.List.{append-nil}
use async_grpc.Base.{
  false, ℕ, ◌+◌, ◌-◌, ◌≤◌, ◌≡◌, ◌≢◌, refl, subst, inl, inr, true, Option, none, some, List, ◌∷◌,
  ◌++◌, ok, Outcome-cases, Option-cases, Bool-cases, from_Ensures, arith, replicate,
}
use async_grpc.Base.Assoc.{lookup, update, lookup-erase, Distinct-update}
use async_grpc.Rpc.Types.{Name, Event, Rpc, RpcHandlerInfo}
use async_grpc.EventQueueSelector.{Selector}
use async_grpc.Service.Defs.{
  Service, handle_event, handle_completion, handle_internal, pop_write_needed,
}
use async_grpc.Service.Invariant.{HasQueues, Sound, put}
use async_grpc.Service.Handlers.{lookup-put}
use async_grpc.Service.Effects.{Served, drop, handle_event-Served, lookup-Leaves}
use async_grpc.Service.Growth.{Connects, new_connection-refused}
use async_grpc.Running.{
  Running, UniqueEventPtr, EventBase, completion_queue_rpc_event, internal_rpc_event, new_event,
  event_of, rpc_of, remaining, handle, push_events, pop_event, Turn, Runs,
}
use async_grpc.Running.Fronts.{Completes, handle_completion_lem, handle_internal_lem}
use async_grpc.Running.Connecting.{
  Unmoved, complete-Unmoved, no_write_needed, accepted-Connects, connected-lookup,
}
use async_grpc.Running.Held.{Held}
use async_grpc.Running.Steps.{own_queue}
use async_grpc.Running.Safety.{front_of, running-Sound, running-Tidy, running-handle}

module _ (p : ℕ) (s : Service) {r : Rpc} (there : lookup p s.active_rpcs ≡ some r)
    (sound : Sound none s) where
  dropped_none : (r0 r1 : Rpc) → lookup p (drop p (put p r0 s)).active_rpcs ≡ some r1 → ⊥
  dropped_none r0 r1 e = ground (
    arith,
    lookup-erase p p (update p r0 s.active_rpcs)
        (Distinct-update p r0 s.active_rpcs sound.distinct),
  )

  monotone_pushes :
      (r0 r1 : Rpc) (t : Service)
      → Served p r0 (put p r0 s) t
      → lookup p t.active_rpcs ≡ some r1
      → r0.write_needed_events ≤ r1.write_needed_events
  monotone_pushes r0 r1 t (inl g) e =
      let at : lookup p t.active_rpcs ≡ some g.rpc =
        lookup-Leaves p (put p r0 s) (lookup-put p s r0 there) t g in
      let same : g.rpc ≡ r1 = ground arith in
      subst (λ x. r0.write_needed_events ≤ x.write_needed_events) same g.keeps.pushed
  monotone_pushes r0 r1 t (inr g) e =
      absurd (dropped_none r0 r1 (subst (λ x. lookup p x.active_rpcs ≡ some r1) g.is_dropped e))

  completion_pushes :
      (event : Event) (events : List Event) (r1 : Rpc) (t : Service)
      → Held s.shutting_down r (event ∷ events)
      → Completes event p r s t
      → lookup p t.active_rpcs ≡ some r1
      → r.write_needed_events ≤ r1.write_needed_events
  completion_pushes event events r1 t h c at = by_event event h c
    where
      served :
          (event : Event) (c : Completes event p r s t)
          → event ≢ Event.new_connection
          → r.write_needed_events ≤ r1.write_needed_events
      served event c ne =
          let same : Unmoved r c.back = complete-Unmoved event r c.back c.is_back in
          let g : c.back.write_needed_events ≤ r1.write_needed_events =
            monotone_pushes c.back r1 t
              (from_Ensures (Served p c.back (put p c.back s)) c.handled (
                handle_event-Served p (put p c.back s) (lookup-put p s c.back there) event c.flag.ok
                  ne))
              at in
          omega (arith, same.same_pushed, g)

      connected :
          (c : Completes Event.new_connection p r s t)
          → Held s.shutting_down r (Event.new_connection ∷ events)
          → r.write_needed_events ≤ r1.write_needed_events
      connected c h = elim (Bool-cases s.shutting_down) [
        | inl down ↦
            let refused : handle_event Event.new_connection p c.flag.ok (put p c.back s)
                ≡ ok (drop p (put p c.back s)) =
              new_connection-refused p (put p c.back s) (lookup-put p s c.back there) c.flag.ok
                down in
            let is_t : t ≡ drop p (put p c.back s) = ground (arith, refused, c.handled) in
            absurd (dropped_none c.back r1 (subst (λ x. lookup p x.active_rpcs ≡ some r1) is_t at))
        | inr up ↦
            let same : Unmoved r c.back =
              complete-Unmoved Event.new_connection r c.back c.is_back in
            let g : Connects p c.back (put p c.back s) t =
              accepted-Connects p s there t c events up h in
            let found : lookup p t.active_rpcs ≡ some g.leaves.rpc =
              connected-lookup p s there sound c.back t g in
            let is_r1 : g.leaves.rpc ≡ r1 = ground arith in
            subst (λ x. r.write_needed_events ≤ x.write_needed_events) is_r1
              (omega (arith, same.same_pushed, g.leaves.keeps.pushed))
      ]

      by_event :
          (event : Event)
          → Held s.shutting_down r (event ∷ events)
          → Completes event p r s t
          → r.write_needed_events ≤ r1.write_needed_events
      by_event Event.new_connection h c = connected c h
      by_event Event.read h c = served Event.read c (λ x. cc)
      by_event Event.write_needed h c = absurd (no_write_needed r c.back c.is_back)
      by_event Event.write h c = served Event.write c (λ x. cc)
      by_event Event.finish h c = served Event.finish c (λ x. cc)
      by_event Event.done h c = served Event.done c (λ x. cc)

  -- A handled event only adds to the object's count.
  handle_pushes :
      (x : EventBase) (events : List Event) (r1 : Rpc) (t : Service)
      → rpc_of x ≡ p
      → Held s.shutting_down r (event_of x ∷ events)
      → handle x s ≡ ok t
      → lookup p t.active_rpcs ≡ some r1
      → remaining x r ≤ r1.write_needed_events
  unfolding handle
  handle_pushes (internal_rpc_event q) events r1 t is_p h e at =
      monotone_pushes (pop_write_needed r) r1 t
        (from_Ensures (Served p (pop_write_needed r) (put p (pop_write_needed r) s))
          (rw⁻¹ (handle_internal_lem p s there) (subst (λ j. handle_internal j s ≡ ok t) is_p e))
          (handle_event-Served p (put p (pop_write_needed r) s)
            (lookup-put p s (pop_write_needed r) there) Event.write_needed true (λ x. cc)))
        at
  handle_pushes (completion_queue_rpc_event event q) events r1 t is_p h e at =
      completion_pushes event events r1 t h
        (handle_completion_lem event p s t there
          (subst (λ j. handle_completion event j s ≡ ok t) is_p e))
        at

-- The server moves on from the front of a queue.
pub record Advances (w : Running) (k : ℕ) (x : UniqueEventPtr) (rest : List UniqueEventPtr)
    : Type 0 where
  pub next : Running
  pub turn : Turn w next
  pub pushed : ℕ
  pub queue : next.event_queues k ≡ rest ++ replicate pushed (new_event (rpc_of x.event))
  pub counted :
      (r r1 : Rpc)
      → lookup (rpc_of x.event) w.service.active_rpcs ≡ some r
      → lookup (rpc_of x.event) next.service.active_rpcs ≡ some r1
      → r1.write_needed_events ≡ remaining x.event r + pushed

-- How many events of its own the object has got.
abbrev gained : Option Rpc → ℕ → ℕ
gained none n = 0
gained (some r1) n = r1.write_needed_events - n

gained-some :
    (p n : ℕ) (t : Service) (r1 : Rpc)
    → lookup p t.active_rpcs ≡ some r1
    → n ≤ r1.write_needed_events
    → r1.write_needed_events ≡ n + gained (lookup p t.active_rpcs) n
gained-some p n t r1 e le = rw e (omega (arith, le))

module _ {infos : List (Name × RpcHandlerInfo)} {selector : Selector} {queues : List ℕ}
    (q : HasQueues selector) {w : Running} (run : Runs infos selector queues w)
    (up : w.service.shutting_down ≡ false) where
  -- In every state of a running server before StopServing, an event thread whose queue is not empty
  -- can take its turn: the event at the front is handled, and the queue then holds the rest, behind
  -- which stand WRITE_NEEDED events of its object, as many as the object's count tells that the
  -- handler has pushed if the object is still in flight.
  pub running-Advances :
      (k : ℕ) (x : UniqueEventPtr) (rest : List UniqueEventPtr)
      → w.event_queues k ≡ x ∷ rest
      → Advances w k x rest
  unfolding push_events pop_event
  running-Advances k x rest at = elim (Outcome-cases (handle x.event w.service)) [
    | inr (f, e) ↦ absurd (rw e at (running-handle q run up k x rest at))
    | inl (t, e) ↦ elim (Option-cases (lookup (rpc_of x.event) w.service.active_rpcs)) [
      | inl lost ↦ record {
        next = record { service = t; event_queues = pop_event k rest w.event_queues };
        turn = Turn.ignores k x rest at lost e;
        pushed = 0;
        queue = ground (arith, append-nil rest);
        counted = λ r r1 here after. absurd (ground (arith, lost, here));
      }
      | inr (r, there) ↦ handled t e r there
    ]
  ]
    where
      sound : Sound none w.service
      sound = running-Sound q run up

      handled :
          (t : Service)
          → handle x.event w.service ≡ ok t
          → (r : Rpc) → lookup (rpc_of x.event) w.service.active_rpcs ≡ some r
          → Advances w k x rest
      handled t e r there =
          let own : r.event_queue ≡ k =
            own_queue (rpc_of x.event) w.service there sound (running-Tidy q run up) k x rest at
              refl in
          let n : ℕ = gained (lookup (rpc_of x.event) t.active_rpcs) (remaining x.event r) in
          let tells : (r1 : Rpc)
              → lookup (rpc_of x.event) t.active_rpcs ≡ some r1
              → r1.write_needed_events ≡ remaining x.event r + n =
            λ r1 found. gained-some (rpc_of x.event) (remaining x.event r) t r1 found (
              handle_pushes (rpc_of x.event) w.service there sound x.event _ r1 t refl
                (front_of (rpc_of x.event) w.service w.event_queues k x rest there sound
                  (running-Tidy q run up) at refl)
                e found) in
          record {
            next = record {
              service = t;
              event_queues =
                  push_events r.event_queue (replicate n (new_event (rpc_of x.event)))
                    (pop_event k rest w.event_queues);
            };
            turn = Turn.handles k n x rest at there e tells;
            pushed = n;
            queue = ground arith;
            counted = λ r2 r1 here found.
                let same : r ≡ r2 = ground (arith, there, here) in rw⁻¹ same (tells r1 found);
          }
