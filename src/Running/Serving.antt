-- ===== src/Running/Serving.antt =====
-- Handling an event of an object in flight (async_grpc/rpc.cc, service.cc) keeps the event queues
-- tidy.
use async_grpc.Base.{
  ℕ, ◌+◌, ◌-◌, ◌≡◌, refl, subst, ◌≢◌, inl, inr, true, false, none, some, List, ◌∷◌, ◌++◌, ok,
  from_Ensures, Bool-cases, arith,
}
use async_grpc.Base.Assoc.{lookup, update-update, erase-update}
use async_grpc.Rpc.Types.{Event, Rpc}
use async_grpc.Rpc.Invariant.{Inv}
use async_grpc.Rpc.Preserve.{Back, complete-Back}
use async_grpc.Service.Defs.{
  Service, handle_event, handle_completion, handle_internal, pop_write_needed,
}
use async_grpc.Service.Invariant.{Sound, put}
use async_grpc.Service.Handlers.{lookup-put}
use async_grpc.Service.Effects.{Served, drop, handle_event-Served}
use async_grpc.Service.Growth.{Connects, new_connection-refused}
use async_grpc.Service.Reach.{from_Returns}
use async_grpc.Running.{
  UniqueEventPtr, EventBase, completion_queue_rpc_event, internal_rpc_event, event_of, rpc_of,
  remaining, handle,
}
use async_grpc.Running.Events.{pushes, AllStale, Touched}
use async_grpc.Running.Held.{Held, Held-pushes, Held-complete, Held-wake}
use async_grpc.Running.Returning.{below}
use async_grpc.Running.Tidy.{Tidy, Tidy-put, Tidy-drop, Tidy-add}
use async_grpc.Running.Connecting.{
  Unmoved, complete-Unmoved, no_write_needed, accepted-Connects, connected-lookup,
}
use async_grpc.Running.Fronts.{
  front-Delivers, Completes, handle_completion_lem, handle_internal_lem, idle-AllStale,
  refused-AllStale, pushes-AllStale,
}

module _ (p : ℕ) (s : Service) {r : Rpc} (there : lookup p s.active_rpcs ≡ some r)
    {queues : ℕ → List UniqueEventPtr} (sound : Sound none s) (v : Tidy s queues) where
  -- An object that is served, and pushes events.
  Served-Tidy :
      (r0 : Rpc) (events : List Event) (queues1 : ℕ → List UniqueEventPtr) (n : ℕ) (t : Service)
      → r0.event_queue ≡ r.event_queue
      → Inv r0
      → Held s.shutting_down r0 events
      → Touched p r.event_queue (events ++ pushes n) queues queues1
      → Served p r0 (put p r0 s) t
      → ((r1 : Rpc)
          → lookup p t.active_rpcs ≡ some r1
          → r1.write_needed_events ≡ r0.write_needed_events + n)
      → Tidy t queues1
  Served-Tidy r0 events queues1 n t same i h touched (inl g) counted =
      let is_put : t ≡ put p g.rpc s = rw (g.is_put, update-update p r0 g.rpc s.active_rpcs) refl in
      rw is_put (
        Tidy-put p s there v (below p s there sound) touched g.rpc
          (rw (g.keeps.same_queue, same) refl)
          (Held-pushes s.shutting_down r0 g.rpc events n h g.keeps
            (counted g.rpc (rw is_put (lookup-put p s g.rpc there)))))
  Served-Tidy r0 events queues1 n t same i h touched (inr g) counted =
      let is_dropped : t ≡ drop p s = rw (g.is_dropped, erase-update p r0 s.active_rpcs) refl in
      rw is_dropped (
        Tidy-drop p s there v (below p s there sound) touched sound.distinct
          (pushes-AllStale events n (idle-AllStale s.shutting_down r0 events i g.idle h)))

  -- A WRITE_NEEDED event of the object is handled.
  wake-Tidy :
      (events : List Event) (queues1 : ℕ → List UniqueEventPtr) (n : ℕ) (t : Service)
      → Held s.shutting_down r (Event.write_needed ∷ events)
      → Touched p r.event_queue (events ++ pushes n) queues queues1
      → handle_internal p s ≡ ok t
      → ((r1 : Rpc)
          → lookup p t.active_rpcs ≡ some r1
          → r1.write_needed_events ≡ r.write_needed_events - 1 + n)
      → Tidy t queues1
  wake-Tidy events queues1 n t h touched e counted =
      let r0 : Rpc = pop_write_needed r in
      let i : Inv r = (sound.fit p r (λ x. cc) there).inv in
      Served-Tidy r0 events queues1 n t refl
        (record {
          follows = i.follows;
          awaited = i.awaited;
          unstarted = i.unstarted;
          served = i.served;
          quiet = i.quiet;
          closing = i.closing;
          whole = i.whole;
        })
        (Held-wake s.shutting_down r events h) touched
        (from_Ensures (Served p r0 (put p r0 s)) (rw⁻¹ (handle_internal_lem p s there) e) (
          handle_event-Served p (put p r0 s) (lookup-put p s r0 there) Event.write_needed true
            (λ x. cc)))
        counted

  -- An event of a completion queue, other than a connection, is handled.
  complete-Tidy :
      (event : Event) (events : List Event) (queues1 : ℕ → List UniqueEventPtr) (n : ℕ)
      (t : Service)
      → event ≢ Event.new_connection
      → event ≢ Event.write_needed
      → Held s.shutting_down r (event ∷ events)
      → Touched p r.event_queue (events ++ pushes n) queues queues1
      → handle_completion event p s ≡ ok t
      → ((r1 : Rpc)
          → lookup p t.active_rpcs ≡ some r1
          → r1.write_needed_events ≡ r.write_needed_events + n)
      → Tidy t queues1
  complete-Tidy event events queues1 n t ne nw h touched e counted =
      let i : Inv r = (sound.fit p r (λ x. cc) there).inv in
      let c : Completes event p r s t = handle_completion_lem event p s t there e in
      let b : Back event r c.back =
        from_Returns (Back event r) c.is_back
          (complete-Back event r ne i (front-Delivers event s.shutting_down r events nw h)) in
      let same : Unmoved r c.back = complete-Unmoved event r c.back c.is_back in
      Served-Tidy c.back events queues1 n t same.same_queue b.inv
        (Held-complete event s.shutting_down r c.back events h c.is_back) touched
        (from_Ensures (Served p c.back (put p c.back s)) c.handled
          (handle_event-Served p (put p c.back s) (lookup-put p s c.back there) event c.flag.ok ne))
        (λ r1 at. rw same.same_pushed (counted r1 at))

  -- A connection that is refused, and one that is accepted.
  refused-Tidy :
      (events : List Event) (queues1 : ℕ → List UniqueEventPtr) (n : ℕ) (t : Service)
      → s.shutting_down ≡ true
      → Held s.shutting_down r (Event.new_connection ∷ events)
      → Touched p r.event_queue (events ++ pushes n) queues queues1
      → Completes Event.new_connection p r s t
      → Tidy t queues1
  refused-Tidy events queues1 n t down h touched c =
      let there1 : lookup p (put p c.back s).active_rpcs ≡ some c.back =
        lookup-put p s c.back there in
      let refused : handle_event Event.new_connection p c.flag.ok (put p c.back s)
          ≡ ok (drop p (put p c.back s)) =
        new_connection-refused p (put p c.back s) there1 c.flag.ok down in
      let is_t : t ≡ drop p (put p c.back s) = ground (arith, refused, c.handled) in
      let is_dropped : t ≡ drop p s = rw (is_t, erase-update p c.back s.active_rpcs) refl in
      let stale : AllStale events =
        refused-AllStale r events (sound.fit p r (λ x. cc) there).inv
          (subst (λ d. Held d r (Event.new_connection ∷ events)) down h) in
      rw is_dropped (
        Tidy-drop p s there v (below p s there sound) touched sound.distinct
          (pushes-AllStale events n stale))

  accepted-Tidy :
      (events : List Event) (queues1 : ℕ → List UniqueEventPtr) (n : ℕ) (t : Service)
      → s.shutting_down ≡ false
      → Held s.shutting_down r (Event.new_connection ∷ events)
      → Touched p r.event_queue (events ++ pushes n) queues queues1
      → Completes Event.new_connection p r s t
      → ((r1 : Rpc)
          → lookup p t.active_rpcs ≡ some r1
          → r1.write_needed_events ≡ r.write_needed_events + n)
      → Tidy t queues1
  accepted-Tidy events queues1 n t up h touched c counted =
      let same : Unmoved r c.back = complete-Unmoved Event.new_connection r c.back c.is_back in
      let g : Connects p c.back (put p c.back s) t = accepted-Connects p s there t c events up h in
      let is_between : g.between ≡ put p g.leaves.rpc s =
        rw (g.leaves.is_put, update-update p c.back g.leaves.rpc s.active_rpcs) refl in
      let at_t : lookup p t.active_rpcs ≡ some g.leaves.rpc =
        connected-lookup p s there sound c.back t g in
      Tidy-add g.between t queues1 g.adds (
        rw is_between (
          Tidy-put p s there v (below p s there sound) touched g.leaves.rpc
            (rw (g.leaves.keeps.same_queue, same.same_queue) refl)
            (Held-pushes s.shutting_down c.back g.leaves.rpc events n
              (Held-complete Event.new_connection s.shutting_down r c.back events h c.is_back)
              g.leaves.keeps (rw same.same_pushed (counted g.leaves.rpc at_t)))))

  -- The front of the object's queue is one of its events, and is handled.
  pub handle-Tidy :
      (x : EventBase) (events : List Event) (queues1 : ℕ → List UniqueEventPtr) (n : ℕ)
      (t : Service)
      → rpc_of x ≡ p
      → Held s.shutting_down r (event_of x ∷ events)
      → Touched p r.event_queue (events ++ pushes n) queues queues1
      → handle x s ≡ ok t
      → ((r1 : Rpc) → lookup p t.active_rpcs ≡ some r1 → r1.write_needed_events ≡ remaining x r + n)
      → Tidy t queues1
  unfolding handle
  handle-Tidy (internal_rpc_event q) events queues1 n t at h touched e counted =
      wake-Tidy events queues1 n t h touched (subst (λ j. handle_internal j s ≡ ok t) at e) counted
  handle-Tidy (completion_queue_rpc_event event q) events queues1 n t at h touched e counted =
      by_event event h (subst (λ j. handle_completion event j s ≡ ok t) at e)
    where
      by_event :
          (event : Event)
          → Held s.shutting_down r (event ∷ events)
          → handle_completion event p s ≡ ok t
          → Tidy t queues1
      by_event Event.new_connection h e =
          let c : Completes Event.new_connection p r s t =
            handle_completion_lem Event.new_connection p s t there e in
          elim (Bool-cases s.shutting_down) [
            | inl down ↦ refused-Tidy events queues1 n t down h touched c
            | inr up ↦ accepted-Tidy events queues1 n t up h touched c counted
          ]
      by_event Event.read h e =
          complete-Tidy Event.read events queues1 n t (λ x. cc) (λ x. cc) h touched e counted
      by_event Event.write_needed h e =
          absurd
            (no_write_needed r _ (handle_completion_lem Event.write_needed p s t there e).is_back)
      by_event Event.write h e =
          complete-Tidy Event.write events queues1 n t (λ x. cc) (λ x. cc) h touched e counted
      by_event Event.finish h e =
          complete-Tidy Event.finish events queues1 n t (λ x. cc) (λ x. cc) h touched e counted
      by_event Event.done h e =
          complete-Tidy Event.done events queues1 n t (λ x. cc) (λ x. cc) h touched e counted
