-- ===== src/Running/Fronts.antt =====
-- The event at the front of an event queue (async_grpc/rpc.cc, CompletionQueueRpcEvent::Handle and
-- InternalRpcEvent::Handle).
use async_grpc.Base.{
  ℕ, ◌≡◌, refl, ◌≢◌, Bool, true, subst, >>=-eq_ok, false, some, List, [], ◌∷◌, ◌++◌, ok, arith,
  zero, suc,
}
use async_grpc.Base.Assoc.{lookup}
use async_grpc.Rpc.Types.{Event, Rpc, CompletionQueueRpcEvent}
use async_grpc.Rpc.Events.{get_rpc_event}
use async_grpc.Rpc.Invariant.{Inv}
use async_grpc.Rpc.Lifecycle.{complete}
use async_grpc.Rpc.Preserve.{Delivers}
use async_grpc.Service.Defs.{
  Service, deref, call_method, handle_event, handle_completion, handle_internal, pop_write_needed,
}
use async_grpc.Service.Invariant.{put, deref_lem}
use async_grpc.Service.Handlers.{lookup-put}
use async_grpc.Service.Events.{Accepts}
use async_grpc.Service.Reach.{call_method-eq_ok}
use async_grpc.Running.{count}
use async_grpc.Running.Events.{is_ordered, pushes, AllStale, none_left}
use async_grpc.Running.Held.{Held}

-- gRPC's rules hold of an event that has come through the queue.
pub front-Delivers :
    (event : Event) (down : Bool) (r : Rpc) (rest : List Event)
    → event ≢ Event.write_needed
    → Held down r (event ∷ rest)
    → Delivers event r
unfolding count is_ordered
front-Delivers Event.new_connection down r rest n h = ground arith
front-Delivers Event.read down r rest n h = ground arith
front-Delivers Event.write_needed down r rest n h = absurd (n refl)
front-Delivers Event.write down r rest n h = ground arith
front-Delivers Event.finish down r rest n h = ground arith
front-Delivers Event.done down r rest n h = ground arith

pub front-Accepts :
    (event : Event) (s : Service) (r : Rpc) (rest : List Event)
    → Held s.shutting_down r (event ∷ rest)
    → Accepts event s r
unfolding count
front-Accepts Event.new_connection s r rest h = ground arith
front-Accepts Event.read s r rest h = tt
front-Accepts Event.write_needed s r rest h = tt
front-Accepts Event.write s r rest h = tt
front-Accepts Event.finish s r rest h = tt
front-Accepts Event.done s r rest h = tt

-- The parts of a completed event's handling.
pub record Completes (event : Event) (p : ℕ) (r : Rpc) (s t : Service) : Type 0 where
  pub back : Rpc
  pub is_back : complete event r ≡ ok back
  pub flag : CompletionQueueRpcEvent
  pub is_flag : get_rpc_event event back ≡ ok flag
  pub handled : handle_event event p flag.ok (put p back s) ≡ ok t

pub handle_completion_lem :
    (event : Event) (p : ℕ) (s t : Service) {r : Rpc}
    → lookup p s.active_rpcs ≡ some r
    → handle_completion event p s ≡ ok t
    → Completes event p r s t
unfolding handle_completion
handle_completion_lem event p s t {r} there e =
    let (s1, called, next) = >>=-eq_ok (call_method p (complete event) s) _ e in
    let (back, is_back, at) = call_method-eq_ok p s s1 r (complete event) there called in
    let (r2, found, got) = >>=-eq_ok (deref p s1) _ next in
    let (flag, is_flag, handled) = >>=-eq_ok (get_rpc_event event r2) _ got in
    let there1 : lookup p s1.active_rpcs ≡ some back = rw at (lookup-put p s back there) in
    let same : r2 ≡ back = ground (arith, deref_lem p s1 there1, found) in
    record {
      back = back;
      is_back = is_back;
      flag = flag;
      is_flag = subst (λ x. get_rpc_event event x ≡ ok flag) same is_flag;
      handled = subst (λ x. handle_event event p flag.ok x ≡ ok t) at handled;
    }

pub handle_internal_lem :
    (p : ℕ) (s : Service) {r : Rpc}
    → lookup p s.active_rpcs ≡ some r
    → handle_internal p s ≡ handle_event Event.write_needed p true (put p (pop_write_needed r) s)
unfolding handle_internal
handle_internal_lem p s there = rw (there, handle_internal) refl

-- What is left of an object without outstanding operations.
pub idle-AllStale :
    (down : Bool) (r : Rpc) (queued : List Event)
    → Inv r
    → (r.done_event.pending ≡ false)
      × (r.read_event.pending ≡ false)
      × (r.write_event.pending ≡ false)
      × (r.finish_event.pending ≡ false)
    → Held down r queued
    → AllStale queued
idle-AllStale down r queued v idle h = none_left queued λ e n. by_event e n
  where
    by_event : (e : Event) → e ≢ Event.write_needed → count e queued ≡ 0
    by_event Event.new_connection n = ground (arith, v.awaited, h.new_connections)
    by_event Event.read n = ground (arith, h.reads)
    by_event Event.write_needed n = absurd (n refl)
    by_event Event.write n = ground (arith, h.writes)
    by_event Event.finish n = ground (arith, h.finishes)
    by_event Event.done n = ground (arith, h.dones)

-- What stands behind a connection that is refused.
pub refused-AllStale :
    (r : Rpc) (queued : List Event)
    → Inv r
    → Held true r (Event.new_connection ∷ queued)
    → AllStale queued
unfolding count
refused-AllStale r queued v h = none_left queued λ e n. by_event e n
  where
    by_event : (e : Event) → e ≢ Event.write_needed → count e queued ≡ 0
    by_event Event.new_connection n = ground (arith, h.new_connections)
    by_event Event.read n = ground (arith, v.awaited, v.unstarted, h.reads, h.new_connections)
    by_event Event.write_needed n = absurd (n refl)
    by_event Event.write n = ground (arith, v.awaited, v.unstarted, h.writes, h.new_connections)
    by_event Event.finish n = ground (arith, v.awaited, v.unstarted, h.finishes, h.new_connections)
    by_event Event.done n = ground (arith, v.awaited, h.refused, h.new_connections)

pub pushes-AllStale :
    (queued : List Event) (n : ℕ) → AllStale queued → AllStale (queued ++ pushes n)
pushes-AllStale [] zero a = tt
pushes-AllStale [] (suc n) a = (refl, pushes-AllStale [] n tt)
pushes-AllStale (e ∷ queued) n a = (a.0, pushes-AllStale queued n a.1)
