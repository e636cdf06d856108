-- ===== src/Service/Effects.antt =====
-- What serving one object does to a Service (async_grpc/service.cc), as far as event queues go.
use async_grpc.Base.{
  ℕ, ◌≡◌, refl, ◌≢◌, ◌⊎◌, inl, inr, Bool, true, false, ◌||◌, some, Outcome, Ensures, Ensures->>=,
  Ensures-map, Outcome-cases, arith, ◌>>=◌, if◌then◌else◌,
}
use async_grpc.Base.Assoc.{lookup, erase, update-update, update-same, erase-update}
use async_grpc.Rpc.Types.{Rpc, Event, Callback}
use async_grpc.Rpc.Calls.{on_request, on_reads_done, on_finish, request_streaming_read_if_needed}
use async_grpc.Rpc.Sending.{handle_send_queue}
use async_grpc.Rpc.Kept.{call_handler-kept, request_streaming_read-kept}
use async_grpc.Rpc.Keeps.{
  Keeps, Keeps-refl, Keeps-trans, Keeps-IsKept, Sends, handle_send_queue-Sends,
}
use async_grpc.Service.Defs.{
  Service, call_method, weak_ptr_factory, remove_if_not_pending, handle_event, handle_read,
  handle_write, handle_finish, handle_done,
}
use async_grpc.Service.Invariant.{put}
use async_grpc.Service.Handlers.{lookup-put}

abbrev pub drop : ℕ → Service → Service
drop p s = record s { active_rpcs = erase p s.active_rpcs }

-- The object is served and stays.
pub record Leaves (p : ℕ) (r : Rpc) (s t : Service) : Type 0 where
  pub rpc : Rpc
  pub keeps : Keeps r rpc
  pub is_put : t ≡ put p rpc s

-- Nothing of the object is outstanding, and it is taken out.
pub record Gone (p : ℕ) (r : Rpc) (s t : Service) : Type 0 where
  pub idle :
      (r.done_event.pending ≡ false)
      × (r.read_event.pending ≡ false)
      × (r.write_event.pending ≡ false)
      × (r.finish_event.pending ≡ false)
  pub is_dropped : t ≡ drop p s

abbrev pub Served : ℕ → Rpc → Service → Service → Type 0
Served p r s t = Leaves p r s t ⊎ Gone p r s t

module _ (p : ℕ) (s : Service) {r : Rpc} (there : lookup p s.active_rpcs ≡ some r) where
  pub call_method-Leaves :
      (method : Rpc → Outcome Rpc)
      → Ensures (Keeps r) (method r)
      → Ensures (Leaves p r s) (call_method p method s)
  unfolding call_method
  call_method-Leaves method h = elim (Outcome-cases (method r)) [
    | inl (r1, m) ↦
        rw (there, call_method) (rw m (record { rpc = r1; keeps = rw m at h; is_put = refl }))
    | inr (k, m) ↦ rw (there, call_method) (rw m tt)
  ]

  if-Served :
      (b : Bool)
      → (r.done_event.pending
          || (r.read_event.pending || (r.write_event.pending || r.finish_event.pending)))
        ≡ b
      → Served p r s (if b then s else drop p s)
  if-Served true e = inl (record {
    rpc = r;
    keeps = Keeps-refl r;
    is_put = rw (update-same p r s.active_rpcs there) refl;
  })
  if-Served false e = inr (record { idle = ground arith; is_dropped = refl })

  remove_if_not_pending-Served : Ensures (Served p r s) (remove_if_not_pending p s)
  unfolding remove_if_not_pending
  remove_if_not_pending-Served = rw (there, remove_if_not_pending) (if-Served _ refl)

-- Serving goes on after a method that leaves the object.
then_Leaves :
    (p : ℕ) (r : Rpc) (s s1 t : Service) (w : Leaves p r s s1)
    → Leaves p w.rpc s1 t
    → Leaves p r s t
then_Leaves p r s s1 t w g = record {
  rpc = g.rpc;
  keeps = Keeps-trans r w.rpc g.rpc w.keeps g.keeps;
  is_put = rw (g.is_put, w.is_put, update-update p w.rpc g.rpc s.active_rpcs) refl;
}

then_Served :
    (p : ℕ) (r : Rpc) (s s1 t : Service) (w : Leaves p r s s1)
    → Served p w.rpc s1 t
    → Served p r s t
then_Served p r s s1 t w (inl g) = inl (then_Leaves p r s s1 t w g)
then_Served p r s s1 t w (inr g) = inr (record {
  idle = ground (arith, w.keeps, g.idle);
  is_dropped = rw (g.is_dropped, w.is_put, erase-update p w.rpc s.active_rpcs) refl;
})

module _ (p : ℕ) (s : Service) {r : Rpc} (there : lookup p s.active_rpcs ≡ some r) where
  pub lookup-Leaves : (s1 : Service) (w : Leaves p r s s1) → lookup p s1.active_rpcs ≡ some w.rpc
  lookup-Leaves s1 w = rw w.is_put (lookup-put p s w.rpc there)

  serve_and_remove :
      (method : Rpc → Outcome Rpc)
      → Ensures (Keeps r) (method r)
      → Ensures (Served p r s) (call_method p method s >>= remove_if_not_pending p)
  serve_and_remove method h =
      Ensures->>= (Leaves p r s) (Served p r s) (call_method p method s) _
        (call_method-Leaves p s there method h)
        λ s1 w.
          Ensures-map (Served p w.rpc s1) (Served p r s) (remove_if_not_pending p s1)
            (remove_if_not_pending-Served p s1 (lookup-Leaves s1 w)) (λ t. then_Served p r s s1 t w)

  -- The kinds of event that leave the other objects alone.
  pub handle_event-Served :
      (event : Event) (success : Bool)
      → event ≢ Event.new_connection
      → Ensures (Served p r s) (handle_event event p success s)
  unfolding handle_event handle_read handle_write handle_finish handle_done on_request on_finish
      on_reads_done
  handle_event-Served Event.new_connection success n = absurd (n refl)
  handle_event-Served Event.read true n =
      Ensures->>= (Leaves p r s) (Served p r s) _ _
        (call_method-Leaves p s there (on_request (weak_ptr_factory s)) (
          call_handler-kept (Keeps r) (Keeps-IsKept r) (weak_ptr_factory s)
            (Callback.on_request r.request) r (Keeps-refl r)))
        λ s1 w.
          Ensures-map (Leaves p w.rpc s1) (Served p r s) _
            (call_method-Leaves p s1 (lookup-Leaves s1 w)
              (request_streaming_read_if_needed (weak_ptr_factory s1))
              (request_streaming_read-kept (Keeps w.rpc) (Keeps-IsKept w.rpc) (weak_ptr_factory s1)
                w.rpc (Keeps-refl w.rpc)))
            (λ t g. inl (then_Leaves p r s s1 t w g))
  handle_event-Served Event.read false n = serve_and_remove (on_reads_done (weak_ptr_factory s)) (
      call_handler-kept (Keeps r) (Keeps-IsKept r) (weak_ptr_factory s) Callback.on_reads_done r
        (Keeps-refl r))
  handle_event-Served Event.write_needed success n =
      serve_and_remove handle_send_queue
        (Ensures-map (Sends r) (Keeps r) _ (handle_send_queue-Sends r) (λ r1 g. g.keeps))
  handle_event-Served Event.write success n =
      serve_and_remove handle_send_queue
        (Ensures-map (Sends r) (Keeps r) _ (handle_send_queue-Sends r) (λ r1 g. g.keeps))
  handle_event-Served Event.finish success n = serve_and_remove (on_finish (weak_ptr_factory s)) (
      call_handler-kept (Keeps r) (Keeps-IsKept r) (weak_ptr_factory s) Callback.on_finish r
        (Keeps-refl r))
  handle_event-Served Event.done success n = remove_if_not_pending-Served p s there
