-- ===== src/Running/Returning.antt =====
-- One round of Server::RunCompletionQueue (async_grpc/server.cc), with PushToEventQueue, keeps the
-- event queues tidy.
use async_grpc.Base.{
  false, ℕ, ◌<◌, ◌≡◌, refl, Bool, none, some, List, [], ◌∷◌, ok, >>=-eq_ok, arith,
}
use async_grpc.Base.Assoc.{lookup}
use async_grpc.Rpc.Types.{Event, Rpc}
use async_grpc.Rpc.Lifecycle.{store_ok}
use async_grpc.Service.Defs.{Service, call_method}
use async_grpc.Service.Invariant.{Sound, put, deref_lem, call_method_lem}
use async_grpc.Service.Handlers.{lookup-put}
use async_grpc.Service.Reach.{call_method-eq_ok, from_Returns}
use async_grpc.Server.CompletionLoop.{Stored, store_ok-Stored}
use async_grpc.Running.{
  Running, UniqueEventPtr, member_event, push_events, run_completion, events_of, MayReturn,
}
use async_grpc.Running.Events.{Touched-return}
use async_grpc.Running.Held.{Held-return}
use async_grpc.Running.Tidy.{Tidy, Tidy-put}

-- An object in flight is below the next address.
pub below :
    (p : ℕ) (s : Service) {r : Rpc}
    → lookup p s.active_rpcs ≡ some r
    → Sound none s
    → p < s.next_address
below p s there v = ground (arith, v.fresh p)

abbrev returned_to : ℕ → Event → Rpc → Running → Running
returned_to p event r1 w = record {
  service = put p r1 w.service;
  event_queues = push_events r1.event_queue (member_event event p ∷ []) w.event_queues;
}

module _ (p : ℕ) (w : Running) {r : Rpc} (there : lookup p w.service.active_rpcs ≡ some r) where
  run_completion_lem :
      (event : Event) (success : Bool) (r1 : Rpc)
      → store_ok event success r ≡ ok r1
      → run_completion event success p w ≡ ok (returned_to p event r1 w)
  unfolding run_completion
  run_completion_lem event success r1 m =
      rw (call_method_lem p w.service there (store_ok event success) r1 m)
        (rw (deref_lem p (put p r1 w.service) (lookup-put p w.service r1 there)) refl)

  pub run_completion-eq_ok :
      (event : Event) (success : Bool) (w1 : Running)
      → run_completion event success p w ≡ ok w1
      → (r1 : Rpc) × (store_ok event success r ≡ ok r1) × (w1 ≡ returned_to p event r1 w)
  unfolding run_completion
  run_completion-eq_ok event success w1 e =
      let (s1, called, next) = >>=-eq_ok (call_method p (store_ok event success) w.service) _ e in
      let (r1, stored, at) =
        call_method-eq_ok p w.service s1 r (store_ok event success) there called in
      (r1, stored, ground (arith, run_completion_lem event success r1 stored, e))

module _ (p : ℕ) (s : Service) {r : Rpc} (there : lookup p s.active_rpcs ≡ some r)
    {queues : ℕ → List UniqueEventPtr} (sound : Sound none s) (v : Tidy s queues) where
  -- One round of a completion queue thread.
  pub return-Tidy :
      (event : Event) (success : Bool) (w1 : Running)
      → MayReturn event success s r (events_of p (queues r.event_queue))
      → s.shutting_down ≡ false
      → run_completion event success p (record { service = s; event_queues = queues }) ≡ ok w1
      → Tidy w1.service w1.event_queues
  return-Tidy event success w1 m up e =
      let (r1, stored, is_w1) =
        run_completion-eq_ok p (record { service = s; event_queues = queues }) there event success
          w1 e in
      let same : r1.event_queue ≡ r.event_queue =
        (from_Returns (Stored success r) stored
          (store_ok-Stored event success r (λ h. ground (arith, m.outstanding, h)))).same_queue in
      rw is_w1 (
        Tidy-put p s there v (below p s there sound)
          (rw same (Touched-return p r.event_queue queues (member_event event p) refl)) r1 same
          (Held-return event success s r r1 _ m up (v.held p r there) stored))
