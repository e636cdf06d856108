-- ===== src/Service/Serving.antt =====
-- What the handlers of a Service (async_grpc/service.cc) leave alone, and that a connection puts
-- forward the object for the next call.
use async_grpc.Base.{
  ℕ, ◌≡◌, refl, inl, inr, ◌∷◌, Bool, true, false, some, ok, Ensures, Ensures->>=, Ensures-map,
  Ensures-bind, from_Ensures, Outcome-cases, Option-cases, arith, ◌>>=◌, if◌then◌else◌,
}
use async_grpc.Base.Assoc.{lookup}
use async_grpc.Rpc.Types.{Rpc, RpcHandlerInfo, Event, Entry}
use async_grpc.Rpc.Events.{get_rpc_event}
use async_grpc.Rpc.Lifecycle.{complete}
use async_grpc.Rpc.Calls.{
  on_connection, on_request, on_reads_done, on_finish, request_streaming_read_if_needed,
}
use async_grpc.Rpc.Sending.{handle_send_queue}
use async_grpc.Rpc.Waiting.{IsFor, IsWaiting, on_connection-IsFor}
use async_grpc.Service.Defs.{
  Service, deref, remove, call_method, await_next, weak_ptr_factory, connect, handle_new_connection,
  handle_read, handle_write, handle_finish, handle_done, handle_event, handle_completion,
  handle_internal, pop_write_needed,
}
use async_grpc.Service.Invariant.{put, deref_lem}
use async_grpc.Service.Handlers.{lookup-put}
use async_grpc.Service.Frame.{
  Frame, Frame-refl, Frame-trans, Frame-weaken, Frame->>=, put-Frame, call_method-Frame,
  remove-Frame, remove_if_not_pending-Frame, Offered, await_next-Offered,
}

await_next-Frame : (p : ℕ) (s : Service) → Ensures (Frame (some p) s) (await_next p s)
unfolding await_next
await_next-Frame p s = elim (Option-cases (lookup p s.active_rpcs)) [
  | inl e ↦ rw (e, await_next) tt
  | inr (r, e) ↦
      Ensures-map (Offered r.method_index r.server_completion_queue r.rpc_handler_info s)
        (Frame (some p) s) (await_next p s)
        (await_next-Offered r.method_index r.server_completion_queue r.rpc_handler_info p s r e
          (record { method = refl; completion_queue = refl; handler_info = refl }))
        (λ t o. Frame-weaken p s t o.frame)
]

connect-Frame :
    (p : ℕ) (success : Bool) (s : Service) → Ensures (Frame (some p) s) (connect success p s)
unfolding connect
connect-Frame p false s = remove-Frame p s
connect-Frame p true s = call_method-Frame p (on_connection (weak_ptr_factory s)) s

-- Service::HandleEvent touches no other object.
handle_event-Frame :
    (event : Event) (p : ℕ) (success : Bool) (s : Service)
    → Ensures (Frame (some p) s) (handle_event event p success s)
unfolding handle_event handle_new_connection handle_read handle_write handle_finish handle_done
handle_event-Frame Event.new_connection p success s = by_flag s.shutting_down
  where
    by_flag :
        (down : Bool)
        → Ensures
            (Frame (some p) s)
            (if down then ok (remove p s) else (connect success p s >>= await_next p))
    by_flag true = remove-Frame p s
    by_flag false =
        Frame->>= (some p) s (connect success p s) (await_next p) (connect-Frame p success s)
          (await_next-Frame p)
handle_event-Frame Event.read p true s =
    Frame->>= (some p) s _ _ (call_method-Frame p (on_request (weak_ptr_factory s)) s)
      (λ s1. call_method-Frame p (request_streaming_read_if_needed (weak_ptr_factory s1)) s1)
handle_event-Frame Event.read p false s =
    Frame->>= (some p) s _ _ (call_method-Frame p (on_reads_done (weak_ptr_factory s)) s)
      (remove_if_not_pending-Frame p)
handle_event-Frame Event.write_needed p success s =
    Frame->>= (some p) s _ _ (call_method-Frame p handle_send_queue s)
      (remove_if_not_pending-Frame p)
handle_event-Frame Event.write p success s =
    Frame->>= (some p) s _ _ (call_method-Frame p handle_send_queue s)
      (remove_if_not_pending-Frame p)
handle_event-Frame Event.finish p success s =
    Frame->>= (some p) s _ _ (call_method-Frame p (on_finish (weak_ptr_factory s)) s)
      (remove_if_not_pending-Frame p)
handle_event-Frame Event.done p success s = remove_if_not_pending-Frame p s

pub handle_completion-Frame :
    (event : Event) (p : ℕ) (s : Service) → Ensures (Frame (some p) s) (handle_completion event p s)
unfolding handle_completion
handle_completion-Frame event p s =
    Frame->>= (some p) s _ _ (call_method-Frame p (complete event) s) λ s1.
      Ensures-bind (Frame (some p) s1) (deref p s1) _ λ r.
        Ensures-bind (Frame (some p) s1) (get_rpc_event event r) _
          λ e. handle_event-Frame event p e.ok s1

pub handle_internal-Frame : (p : ℕ) (s : Service) → Ensures (Frame (some p) s) (handle_internal p s)
unfolding handle_internal
handle_internal-Frame p s = elim (Option-cases (lookup p s.active_rpcs)) [
  | inl e ↦ rw (e, handle_internal) (Frame-refl (some p) s)
  | inr (r, e) ↦
      rw (e, handle_internal)
        (Ensures-map (Frame (some p) (put p (pop_write_needed r) s)) (Frame (some p) s)
          (handle_event Event.write_needed p true (put p (pop_write_needed r) s))
          (handle_event-Frame Event.write_needed p true (put p (pop_write_needed r) s))
          (λ t f. Frame-trans (some p) s _ t (put-Frame p s (pop_write_needed r) e) f))
]

module _ (i c : ℕ) (info : RpcHandlerInfo) where
  -- Some object of the service waits for a call of the method.
  pub record HasWaiting (s : Service) : Type 0 where
    pub address : ℕ
    pub rpc : Rpc
    pub there : lookup address s.active_rpcs ≡ some rpc
    pub waiting : IsWaiting i c info rpc

  pub Offered-HasWaiting : (s t : Service) → Offered i c info s t → HasWaiting t
  Offered-HasWaiting s t o = record {
    address = o.address;
    rpc = o.rpc;
    there = o.there;
    waiting = o.waiting;
  }

  connect_and_await-HasWaiting :
      (p : ℕ) (s : Service) (r : Rpc)
      → lookup p s.active_rpcs ≡ some r
      → IsFor i c info r
      → Ensures HasWaiting (connect true p s >>= await_next p)
  unfolding connect call_method
  connect_and_await-HasWaiting p s r there f =
      elim (Outcome-cases (on_connection (weak_ptr_factory s) r)) [
        | inr (k, m) ↦ rw (there, connect) (rw m tt)
        | inl (r1, m) ↦
            rw (there, connect)
              (rw m (
                Ensures-map (Offered i c info (put p r1 s)) HasWaiting (await_next p (put p r1 s))
                  (await_next-Offered i c info p (put p r1 s) r1 (lookup-put p s r1 there) (
                    from_Ensures (IsFor i c info) m
                      (on_connection-IsFor i c info (weak_ptr_factory s) r f)))
                  (Offered-HasWaiting (put p r1 s))))
      ]

  new_connection-HasWaiting :
      (p : ℕ) (success : Bool) (s : Service) (r : Rpc)
      → lookup p s.active_rpcs ≡ some r
      → IsFor i c info r
      → s.shutting_down ≡ false
      → success ≡ true
      → Ensures HasWaiting (handle_event Event.new_connection p success s)
  unfolding handle_event handle_new_connection
  new_connection-HasWaiting p success s r there f up good = by_flag s.shutting_down success up good
    where
      by_flag :
          (down done : Bool)
          → down ≡ false
          → done ≡ true
          → Ensures HasWaiting
              (if down then ok (remove p s) else (connect done p s >>= await_next p))
      by_flag true done d e = absurd (ground arith)
      by_flag false false d e = absurd (ground arith)
      by_flag false true d e = connect_and_await-HasWaiting p s r there f

  dispatched :
      (p : ℕ) (s : Service) (r : Rpc)
      → lookup p s.active_rpcs ≡ some r
      → IsFor i c info r
      → s.shutting_down ≡ false
      → r.new_connection_event.ok ≡ true
      → Ensures HasWaiting (
          deref p s >>= λ r2.
          get_rpc_event Event.new_connection r2 >>= λ e. handle_event Event.new_connection p e.ok s)
  unfolding get_rpc_event
  dispatched p s r there f up good =
      rw (deref_lem p s there)
        (new_connection-HasWaiting p r.new_connection_event.ok s r there f up good)

  -- A connection that is set up while the server is up puts forward a new object.
  pub connection-HasWaiting :
      (p : ℕ) (s : Service) (r : Rpc)
      → lookup p s.active_rpcs ≡ some r
      → IsFor i c info r
      → s.shutting_down ≡ false
      → r.new_connection_event.ok ≡ true
      → Ensures HasWaiting (handle_completion Event.new_connection p s)
  unfolding handle_completion
  connection-HasWaiting p s r there f up good =
      Ensures->>= (λ s1. s1 ≡ put p back s) HasWaiting
        (call_method p (complete Event.new_connection) s) _ called
        λ s1 e. rw e (
          dispatched p (put p back s) back (lookup-put p s back there)
            (record {
              method = f.method;
              completion_queue = f.completion_queue;
              handler_info = f.handler_info;
            })
            up good)
    where
      back : Rpc
      back = record r {
        new_connection_event = record (r.new_connection_event) { pending = false };
        log = Entry.completed Event.new_connection ∷ r.log;
      }

      called : Ensures (λ s1. s1 ≡ put p back s) (call_method p (complete Event.new_connection) s)
      called = rw (there, call_method) refl
