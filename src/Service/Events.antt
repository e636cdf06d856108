-- ===== src/Service/Events.antt =====
-- The events that reach a Service: Rpc::CompletionQueueRpcEvent::Handle and
-- Rpc::InternalRpcEvent::Handle (async_grpc/rpc.cc).
use async_grpc.Base.{
  ℕ, ◌≡◌, refl, ◌≢◌, ◌⊎◌, inl, inr, true, none, some, Returns, Returns->>=, Option-cases, ◌>>=◌,
}
use async_grpc.Base.Assoc.{lookup}
use async_grpc.Rpc.Types.{Rpc, Event}
use async_grpc.Rpc.Events.{get_rpc_event}
use async_grpc.Rpc.Lifecycle.{complete}
use async_grpc.Rpc.Preserve.{Back, Delivers, complete-Back}
use async_grpc.Rpc.Serve.{Arrived, complete-Connecting}
use async_grpc.Service.Defs.{
  Service, deref, call_method, handle_event, handle_completion, handle_internal, pop_write_needed,
}
use async_grpc.Service.Invariant.{Fit, Sound, put, put-Sound_served, call_method-Returns, deref_lem}
use async_grpc.Service.Handlers.{lookup-put, Ready, handle_event-Sound}

-- The service goes on accepting calls, or no new call failed to be set up.
abbrev pub Accepts : Event → Service → Rpc → Type 0
Accepts Event.new_connection s r = (s.shutting_down ≡ true) ⊎ (r.new_connection_event.ok ≡ true)
Accepts event s r = Unit {0}

module _ (p : ℕ) (s : Service) {r : Rpc} (there : lookup p s.active_rpcs ≡ some r)
    (v : Sound none s) where
  -- The event's flag is cleared, and then HandleEvent runs.
  dispatch :
      (event : Event) (P : Rpc → Type 0)
      → Returns P (complete event r)
      → ((r1 : Rpc)
          → P r1
          → (r1.this ≡ p)
            × Returns (λ e. Ready event e.ok (put p r1 s) r1) (get_rpc_event event r1))
      → Returns (Sound none) (handle_completion event p s)
  unfolding handle_completion
  dispatch event P h k =
      Returns->>= (λ s1. (r1 : Rpc) × P r1 × (s1 ≡ put p r1 s)) (Sound none)
        (call_method p (complete event) s) _
        (call_method-Returns p s there P _ (complete event) h (λ r1 g. (r1, g, refl)))
        λ s1 w. rw (w.2) (run w.0 w.1)
    where
      run :
          (r1 : Rpc)
          → P r1
          → Returns (Sound none) (
              deref p (put p r1 s) >>= λ r2.
              get_rpc_event event r2 >>= λ e. handle_event event p e.ok (put p r1 s))
      run r1 g = rw (deref_lem p (put p r1 s) (lookup-put p s r1 there)) (
          Returns->>= _ (Sound none) (get_rpc_event event r1) _ (k r1 g).1 (λ e ready.
            handle_event-Sound event e.ok p (put p r1 s) (lookup-put p s r1 there)
              (put-Sound_served p s there none r1 (inl refl) v) (k r1 g).0 ready))

  returned :
      (event : Event)
      → event ≢ Event.new_connection
      → Delivers event r
      → ((r1 : Rpc)
          → Back event r r1
          → Returns (λ e. Ready event e.ok (put p r1 s) r1) (get_rpc_event event r1))
      → Returns (Sound none) (handle_completion event p s)
  returned event other d k =
      let f : Fit p r = v.fit p r (λ h. cc) there in
      dispatch event (Back event r) (complete-Back event r other f.inv d)
        (λ r1 b. (rw (b.same, f.placed) refl, k r1 b))

  -- An event that gRPC hands back is handled without a fault, and leaves the service sound.
  pub handle_completion-Sound :
      (event : Event)
      → Delivers event r
      → Accepts event s r
      → Returns (Sound none) (handle_completion event p s)
  unfolding get_rpc_event
  handle_completion-Sound Event.new_connection d a =
      let f : Fit p r = v.fit p r (λ h. cc) there in
      dispatch Event.new_connection (Arrived r) (complete-Connecting r f.inv d)
        (λ r1 b. (rw (b.same, f.placed) refl, (b.connecting, rw (b.same_ok) a)))
  handle_completion-Sound Event.read d a =
      returned Event.read (λ e. cc) d
        λ r1 b. (
          record { inv = b.inv; awake = b.awake (λ e. cc) fit.awake; connected = b.connected },
          b.ended,
        )
    where
      fit : Fit p r
      fit = v.fit p r (λ h. cc) there
  handle_completion-Sound Event.write_needed d a = cc
  handle_completion-Sound Event.write d a = returned Event.write (λ e. cc) d λ r1 b. b.inv
  handle_completion-Sound Event.finish d a =
      returned Event.finish (λ e. cc) d
        λ r1 b. record { inv = b.inv; awake = b.awake (λ e. cc) fit.awake; connected = b.connected }
    where
      fit : Fit p r
      fit = v.fit p r (λ h. cc) there
  handle_completion-Sound Event.done d a =
      returned Event.done (λ e. cc) d λ r1 b. (b.inv, b.awake (λ e. cc) fit.awake)
    where
      fit : Fit p r
      fit = v.fit p r (λ h. cc) there

-- A WRITE_NEEDED event is handled without a fault, whether or not its object is still there.
pub handle_internal-Sound :
    (p : ℕ) (s : Service) → Sound none s → Returns (Sound none) (handle_internal p s)
unfolding handle_internal
handle_internal-Sound p s v = elim (Option-cases (lookup p s.active_rpcs)) [
  | inl e ↦ rw (e, handle_internal) v
  | inr (r, e) ↦ rw (e, handle_internal) (woken r e)
]
  where
    woken :
        (r : Rpc)
        → lookup p s.active_rpcs ≡ some r
        → Returns
            (Sound none)
            (handle_event Event.write_needed p true (put p (pop_write_needed r) s))
    woken r e =
        let f : Fit p r = v.fit p r (λ h. cc) e in
        handle_event-Sound Event.write_needed true p (put p (pop_write_needed r) s)
          (lookup-put p s (pop_write_needed r) e)
          (put-Sound_served p s e none (pop_write_needed r) (inl refl) v) f.placed
          (record {
            follows = f.inv.follows;
            awaited = f.inv.awaited;
            unstarted = f.inv.unstarted;
            served = f.inv.served;
            quiet = f.inv.quiet;
            closing = f.inv.closing;
            whole = f.inv.whole;
          })
