-- ===== src/Service/Waiting.antt =====
-- The objects of a Service (async_grpc/service.cc) that wait for a call, from step to step.
use async_grpc.Base.{
  ℕ, ◌≡◌, refl, subst, inl, inr, Bool, true, false, none, some, List, ok, Ensures, from_Ensures,
  Bool-cases, ==_iff, get_elem?, arith, ◌==◌,
}
use async_grpc.Base.Assoc.{lookup, lookup-update, Distinct}
use async_grpc.Rpc.Types.{Name, Rpc, RpcHandlerInfo, Event}
use async_grpc.Rpc.Lifecycle.{store_ok}
use async_grpc.Rpc.Invariant.{Inv}
use async_grpc.Rpc.Preserve.{Delivers}
use async_grpc.Rpc.Waiting.{IsWaiting}
use async_grpc.EventQueueSelector.{Selector}
use async_grpc.Service.Defs.{
  Service, init, start_serving, stop_serving, handle_completion, handle_internal, pop_write_needed,
}
use async_grpc.Service.Invariant.{HasQueues, Sound, put}
use async_grpc.Service.Handlers.{lookup-put}
use async_grpc.Service.Events.{Accepts}
use async_grpc.Service.Reach.{
  fill, Reach, serving, later, Step, stores, fills, completes, wakes, acts, stops, Reach-Sound,
  call_method-eq_ok, act,
}
use async_grpc.Service.Frame.{Frame, call_method-Frame, put-Frame}
use async_grpc.Service.Starting.{HasAll, AllStarted, start_methods-AllStarted}
use async_grpc.Service.Serving.{
  HasWaiting, connection-HasWaiting, handle_completion-Frame, handle_internal-Frame,
}

-- A WRITE_NEEDED event of an object that waits for its call, left over from a writer, is ignored.
handle_internal-waiting :
    (p : ℕ) (s t : Service) (r : Rpc)
    → lookup p s.active_rpcs ≡ some r
    → Inv r
    → r.new_connection_event.pending ≡ true
    → handle_internal p s ≡ ok t
    → lookup p t.active_rpcs ≡ some (pop_write_needed r)
unfolding handle_internal
handle_internal-waiting p s t r there v n e = ground (
  arith,
  v.awaited n,
  v.quiet,
  lookup-update p p (pop_write_needed r) r s.active_rpcs there,
  lookup-update p p (pop_write_needed r) (pop_write_needed r)
      (put p (pop_write_needed r) s).active_rpcs,
)

store_ok-IsWaiting :
    (i c : ℕ) (info : RpcHandlerInfo) (event : Event) (success : Bool) (r : Rpc)
    → IsWaiting i c info r
    → Ensures (IsWaiting i c info) (store_ok event success r)
unfolding store_ok
store_ok-IsWaiting i c info Event.new_connection success r w = ground arith
store_ok-IsWaiting i c info Event.read success r w = ground arith
store_ok-IsWaiting i c info Event.write_needed success r w = tt
store_ok-IsWaiting i c info Event.write success r w = ground arith
store_ok-IsWaiting i c info Event.finish success r w = ground arith
store_ok-IsWaiting i c info Event.done success r w = ground arith

-- Of an object that waits, gRPC can hand back only NEW_CONNECTION.
only_new_connection :
    (event : Event) (r : Rpc)
    → Inv r
    → r.new_connection_event.pending ≡ true
    → Delivers event r
    → event ≡ Event.new_connection
only_new_connection Event.new_connection r v n d = refl
only_new_connection Event.read r v n d = absurd (ground (arith, v.awaited n, v.unstarted))
only_new_connection Event.write_needed r v n d = absurd (ground arith)
only_new_connection Event.write r v n d = absurd (ground (arith, v.awaited n, v.unstarted))
only_new_connection Event.finish r v n d = absurd (ground (arith, v.awaited n, v.unstarted))
only_new_connection Event.done r v n d = absurd (ground (arith, v.awaited n))

module _ (i c : ℕ) (info : RpcHandlerInfo) where
  put-HasWaiting :
      (p : ℕ) (s : Service) (r r1 : Rpc)
      → lookup p s.active_rpcs ≡ some r
      → IsWaiting i c info r1
      → HasWaiting i c info (put p r1 s)
  put-HasWaiting p s r r1 there w = record {
    address = p;
    rpc = r1;
    there = lookup-put p s r1 there;
    waiting = w;
  }

  -- An operation that touches one object, given what it does if that is the one that waits.
  Frame-HasWaiting :
      (p : ℕ) (s t : Service)
      → Frame (some p) s t
      → Distinct s.active_rpcs
      → HasWaiting i c info s
      → ((r : Rpc) → lookup p s.active_rpcs ≡ some r → IsWaiting i c info r → HasWaiting i c info t)
      → HasWaiting i c info t
  Frame-HasWaiting p s t f d w own = elim (Bool-cases (p == w.address)) [
    | inl same ↦
        let at_p : p ≡ w.address = (==_iff p w.address).0 same in
        own w.rpc (rw at_p w.there) w.waiting
    | inr other ↦ record {
      address = w.address;
      rpc = w.rpc;
      there = f.others d w.address w.rpc (λ h. ground arith) w.there;
      waiting = w.waiting;
    }
  ]

  Step-HasWaiting :
      {s t : Service}
      → Step s t
      → Sound none s
      → t.shutting_down ≡ false
      → HasWaiting i c info s
      → HasWaiting i c info t
  unfolding act stop_serving
  Step-HasWaiting {s} {t} (stores event success p there e) v up w =
      Frame-HasWaiting p s t (from_Ensures (Frame (some p) s) e (call_method-Frame p _ s))
        v.distinct w
        λ r at x.
          let (r1, m, is_put) = call_method-eq_ok p s t r (store_ok event success) at e in
          rw is_put (
            put-HasWaiting p s r r1 at
              (from_Ensures (IsWaiting i c info) m (store_ok-IsWaiting i c info event success r x)))
  Step-HasWaiting {s} (fills {r} m p there) v up w =
      Frame-HasWaiting p s (put p (fill m r) s) (put-Frame p s (fill m r) there) v.distinct w
        (λ r2 at x. put-HasWaiting p s r (fill m r) there (ground arith))
  Step-HasWaiting {s} {t} (completes {r = r} event p there d a e) v up w =
      let frame : Frame (some p) s t =
        from_Ensures (Frame (some p) s) e (handle_completion-Frame event p s) in
      Frame-HasWaiting p s t frame v.distinct w λ r2 at x.
        let same : r2 ≡ r = ground arith in
        let is_new : event ≡ Event.new_connection =
          only_new_connection event r (v.fit p r (λ h. cc) there).inv (rw same at x.requested) d in
        let accepted : Accepts Event.new_connection s r = subst (λ ev. Accepts ev s r) is_new a in
        from_Ensures (HasWaiting i c info) (subst (λ ev. handle_completion ev p s ≡ ok t) is_new e)
          (connection-HasWaiting i c info p s r there (rw same at x.purpose)
            (ground (arith, frame.flag)) (ground (arith, frame.flag)))
  Step-HasWaiting {s} {t} (wakes p e) v up w =
      Frame-HasWaiting p s t (from_Ensures (Frame (some p) s) e (handle_internal-Frame p s))
        v.distinct w
        λ r at x. record {
          address = p;
          rpc = pop_write_needed r;
          there = handle_internal-waiting p s t r at (v.fit p r (λ h. cc) at).inv x.requested e;
          waiting = ground arith;
        }
  Step-HasWaiting {s} {t} (acts {r = r} a p there k e) v up w =
      Frame-HasWaiting p s t (from_Ensures (Frame (some p) s) e (call_method-Frame p _ s))
        v.distinct w
        (λ r2 at x. absurd (ground (arith, (v.fit p r2 (λ h. cc) at).inv.awaited x.requested)))
  Step-HasWaiting {s} stops v up w = absurd (ground arith)

-- A step that leaves the service up has found it up.
Step-up : {s t : Service} → Step s t → t.shutting_down ≡ false → s.shutting_down ≡ false
unfolding act stop_serving
Step-up {s} (stores event success p there e) up =
    ground (arith, (from_Ensures (Frame (some p) s) e (call_method-Frame p _ s)).flag)
Step-up (fills m p there) up = up
Step-up {s} (completes event p there d a e) up =
    ground (arith, (from_Ensures (Frame (some p) s) e (handle_completion-Frame event p s)).flag)
Step-up {s} (wakes p e) up =
    ground (arith, (from_Ensures (Frame (some p) s) e (handle_internal-Frame p s)).flag)
Step-up {s} (acts a p there k e) up =
    ground (arith, (from_Ensures (Frame (some p) s) e (call_method-Frame p _ s)).flag)
Step-up stops up = absurd (ground arith)

-- In every reachable state, while the service is not shutting down, for each of its methods and
-- each of the completion queues that StartServing was given there is an object in flight, made for
-- that method with its handler's info and for that queue, whose request for a call is outstanding.
pub reachable-HasWaiting :
    {infos : List (Name × RpcHandlerInfo)} {selector : Selector} {queues : List ℕ} {s : Service}
    (h : HasQueues selector) (reached : Reach infos selector queues s) (i j c : ℕ) (name : Name)
    (info : RpcHandlerInfo)
    → s.shutting_down ≡ false
    → get_elem? infos i ≡ some (name, info)
    → get_elem? queues j ≡ some c
    → HasWaiting i c info s
unfolding start_serving init HasAll
reachable-HasWaiting {infos} {selector} {queues} {s} h (serving context e) i j c name info up there
      queue =
    let all : HasAll 0 infos queues s =
      (from_Ensures (AllStarted 0 infos queues (init infos selector)) e
          (start_methods-AllStarted 0 infos queues context (init infos selector))).all
        tt in
    subst (λ x. HasWaiting x c info s) (omega arith) (all i j c name info there queue)
reachable-HasWaiting h (later r st) i j c name info up there queue =
    Step-HasWaiting i c info st (Reach-Sound h r) up
      (reachable-HasWaiting h r i j c name info (Step-up st up) there queue)
