-- ===== src/Service/Handlers.antt =====
-- Service::HandleEvent (async_grpc/service.cc) keeps a service sound, and does not fault.
use async_grpc.Base.{
  ℕ, ◌≡◌, refl, ◌⊎◌, inr, Bool, true, false, none, some, Outcome, ok, Returns, Returns->>=,
  Returns-map, arith, if◌then◌else◌, ◌>>=◌,
}
use async_grpc.Base.Assoc.{lookup, lookup-update}
use async_grpc.Rpc.Types.{Rpc, Event, Callback}
use async_grpc.Rpc.Invariant.{Inv, IsAwake}
use async_grpc.Rpc.Calls.{
  on_request, on_reads_done, on_finish, on_connection, request_streaming_read_if_needed,
}
use async_grpc.Rpc.Sending.{handle_send_queue}
use async_grpc.Rpc.Preserve.{Good, handle_send_queue-Inv}
use async_grpc.Rpc.Serve.{
  Serving, Called, Connecting, call_handler-Serving, request_streaming_read_if_needed-Serving,
  on_connection-Serving,
}
use async_grpc.ActiveRpcs
use async_grpc.Service.Defs.{
  Service, call_method, weak_ptr_factory, remove, remove_if_not_pending, connect,
  handle_new_connection, handle_read, handle_write, handle_finish, handle_done, handle_event,
  await_next,
}
use async_grpc.Service.Invariant.{
  Fit, Sound, put, put-Sound, put-Sound_served, served-Sound, call_method-Returns, remove-Sound,
  remove_if_not_pending-Sound,
}
use async_grpc.Service.Adding.{await_next-Sound}

pub lookup-put :
    (p : ℕ) (s : Service) {r : Rpc} (r1 : Rpc)
    → lookup p s.active_rpcs ≡ some r
    → lookup p (put p r1 s).active_rpcs ≡ some r1
lookup-put p s {r} r1 there = ground (arith, lookup-update p p r1 r s.active_rpcs there)

-- The factory of an object in flight finds it.
pub weak_ptr_lem :
    (p : ℕ) (s : Service) {r : Rpc}
    → lookup p s.active_rpcs ≡ some r
    → r.this ≡ p
    → weak_ptr_factory s r.this ≡ ok r.this
unfolding ActiveRpcs.get_weak_ptr
weak_ptr_lem p s there same = rw (same, there, ActiveRpcs.get_weak_ptr) refl

-- A method that leaves the object fit, and then RemoveIfNotPending.
serve_and_remove :
    (p : ℕ) (s : Service) {r : Rpc} (there : lookup p s.active_rpcs ≡ some r)
    (method : Rpc → Outcome Rpc)
    → Sound (some p) s
    → r.this ≡ p
    → Returns (Good r) (method r)
    → Returns (Sound none) (call_method p method s >>= remove_if_not_pending p)
serve_and_remove p s {r} there method v same h =
    Returns->>= (λ s1. Sound none s1 × ((r1 : Rpc) × (lookup p s1.active_rpcs ≡ some r1)))
      (Sound none) (call_method p method s) _
      (call_method-Returns p s there (Good r) _ method h (λ r1 g. (
        put-Sound p s there (some p) r1 (inr refl)
            (record { placed = rw (g.same, same); inv = g.inv; awake = g.awake }) v,
        (r1, lookup-put p s r1 there),
      )))
      (λ s1 w. remove_if_not_pending-Sound p s1 w.1.1 w.0)

module _ (p : ℕ) (s : Service) {r : Rpc} (there : lookup p s.active_rpcs ≡ some r)
    (v : Sound (some p) s) (same : r.this ≡ p) where
  handle_write-Sound : (success : Bool) → Inv r → Returns (Sound none) (handle_write p success s)
  unfolding handle_write
  handle_write-Sound success i =
      serve_and_remove p s there handle_send_queue v same (handle_send_queue-Inv r i)

  handle_finish-Sound :
      (success : Bool) → Serving r → Returns (Sound none) (handle_finish p success s)
  unfolding handle_finish on_finish
  handle_finish-Sound success i =
      serve_and_remove p s there (on_finish (weak_ptr_factory s)) v same (
        Returns-map (Called r) (Good r) _
          (call_handler-Serving (weak_ptr_factory s) Callback.on_finish r
            (weak_ptr_lem p s there same) i)
          (λ r1 c. c.good))

  handle_read-Sound :
      (success : Bool)
      → Serving r
      → r.read_event.pending ≡ false
      → Returns (Sound none) (handle_read p success s)
  unfolding handle_read on_reads_done on_request
  handle_read-Sound false i n =
      serve_and_remove p s there (on_reads_done (weak_ptr_factory s)) v same (
        Returns-map (Called r) (Good r) _
          (call_handler-Serving (weak_ptr_factory s) Callback.on_reads_done r
            (weak_ptr_lem p s there same) i)
          (λ r1 c. c.good))
  handle_read-Sound true i n =
      Returns->>=
        (λ s1. Sound (some p) s1 × ((r1 : Rpc) × (lookup p s1.active_rpcs ≡ some r1) × Called r r1))
        (Sound none) (call_method p (on_request (weak_ptr_factory s)) s) _
        (call_method-Returns p s there (Called r) _ (on_request (weak_ptr_factory s))
          (call_handler-Serving (weak_ptr_factory s) (Callback.on_request r.request) r
            (weak_ptr_lem p s there same) i)
          (λ r1 c. (
            put-Sound_served p s there (some p) r1 (inr refl) v,
            (r1, lookup-put p s r1 there, c),
          )))
        (λ s1 w. read_again s1 w.0 w.1.0 w.1.1 w.1.2)
    where
      read_again :
          (s1 : Service)
          → Sound (some p) s1
          → (r1 : Rpc) → lookup p s1.active_rpcs ≡ some r1
          → Called r r1
          → Returns
              (Sound none)
              (call_method p (request_streaming_read_if_needed (weak_ptr_factory s1)) s1)
      read_again s1 v1 r1 there1 c =
          let same1 : r1.this ≡ p = rw (c.good.same, same) refl in
          call_method-Returns p s1 there1 (Good r1) (Sound none) _
            (request_streaming_read_if_needed-Serving (weak_ptr_factory s1) r1
              (weak_ptr_lem p s1 there1 same1) c.serving (ground arith))
            (λ r2 g.
              put-Sound p s1 there1 (some p) r2 (inr refl)
                (record { placed = rw (g.same, same1) refl; inv = g.inv; awake = g.awake }) v1)

  handle_done-Sound : (success : Bool) → Fit p r → Returns (Sound none) (handle_done p success s)
  unfolding handle_done
  handle_done-Sound success f = remove_if_not_pending-Sound p s there (served-Sound p s there f v)

  connect_and_await : Connecting r → Returns (Sound none) (connect true p s >>= await_next p)
  unfolding connect
  connect_and_await k =
      Returns->>= (λ s1. Sound none s1 × ((r1 : Rpc) × (lookup p s1.active_rpcs ≡ some r1)))
        (Sound none) (connect true p s) _
        (call_method-Returns p s there (Good r) _ (on_connection (weak_ptr_factory s))
          (on_connection-Serving (weak_ptr_factory s) r (weak_ptr_lem p s there same) k)
          (λ r1 g. (
            put-Sound p s there (some p) r1 (inr refl)
                (record { placed = rw (g.same, same) refl; inv = g.inv; awake = g.awake }) v,
            (r1, lookup-put p s r1 there),
          )))
        (λ s1 w. await_next-Sound p s1 w.1.1 w.0)

  handle_new_connection-Sound :
      (success : Bool)
      → Connecting r
      → (s.shutting_down ≡ true) ⊎ (success ≡ true)
      → Returns (Sound none) (handle_new_connection p success s)
  unfolding handle_new_connection
  handle_new_connection-Sound success k h = by_flag s.shutting_down success h
    where
      by_flag :
          (down done : Bool)
          → (down ≡ true) ⊎ (done ≡ true)
          → Returns
              (Sound none)
              (if down then ok (remove p s) else (connect done p s >>= await_next p))
      by_flag true done g = remove-Sound p s there (some p) (inr refl) v
      by_flag false true g = connect_and_await k
      by_flag false false g = absurd (ground arith)

-- What HandleEvent is handed: the object as the event's return has left it.
abbrev pub Ready : Event → Bool → Service → Rpc → Type 0
Ready Event.new_connection success s r =
    Connecting r × ((s.shutting_down ≡ true) ⊎ (success ≡ true))
Ready Event.read success s r = Serving r × (r.read_event.pending ≡ false)
Ready Event.write_needed success s r = Inv r
Ready Event.write success s r = Inv r
Ready Event.finish success s r = Serving r
Ready Event.done success s r = Inv r × IsAwake r

-- Service::HandleEvent.
pub handle_event-Sound :
    (event : Event) (success : Bool) (p : ℕ) (s : Service) {r : Rpc}
    → lookup p s.active_rpcs ≡ some r
    → Sound (some p) s
    → r.this ≡ p
    → Ready event success s r
    → Returns (Sound none) (handle_event event p success s)
unfolding handle_event
handle_event-Sound Event.new_connection success p s there v same h =
    handle_new_connection-Sound p s there v same success h.0 h.1
handle_event-Sound Event.read success p s there v same h =
    handle_read-Sound p s there v same success h.0 h.1
handle_event-Sound Event.write_needed success p s there v same h =
    handle_write-Sound p s there v same success h
handle_event-Sound Event.write success p s there v same h =
    handle_write-Sound p s there v same success h
handle_event-Sound Event.finish success p s there v same h =
    handle_finish-Sound p s there v same success h
handle_event-Sound Event.done success p s there v same h =
    handle_done-Sound p s there v same success (record { placed = same; inv = h.0; awake = h.1 })
