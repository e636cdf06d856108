-- ===== src/Running/Connecting.antt =====
-- What the return of an event leaves of an object, and a connection that is accepted
-- (async_grpc/rpc.cc, service.cc).
use async_grpc.Base.{
  ℕ, ◌<◌, ◌≡◌, refl, ◌≢◌, true, false, none, some, List, ◌∷◌, ok, from_Ensures, arith,
}
use async_grpc.Base.Assoc.{lookup, update-update}
use async_grpc.Rpc.Types.{Event, Rpc}
use async_grpc.Rpc.Events.{get_rpc_event}
use async_grpc.Rpc.Lifecycle.{complete}
use async_grpc.Service.Defs.{Service}
use async_grpc.Service.Invariant.{Sound, put}
use async_grpc.Service.Handlers.{lookup-put}
use async_grpc.Service.Growth.{Connects, new_connection-Connects}
use async_grpc.Running.{count}
use async_grpc.Running.Held.{Held}
use async_grpc.Running.Returning.{below}
use async_grpc.Running.Fronts.{Completes}
use async_grpc.Running.Returning.{below}

-- A completed event moves no object, and pushes nothing.
pub record Unmoved (r r1 : Rpc) : Type 0 where
  pub same_queue : r1.event_queue ≡ r.event_queue
  pub same_context : r1.execution_context ≡ r.execution_context
  pub same_pushed : r1.write_needed_events ≡ r.write_needed_events
  pub same_ok : r1.new_connection_event.ok ≡ r.new_connection_event.ok

pub complete-Unmoved : (event : Event) (r r1 : Rpc) → complete event r ≡ ok r1 → Unmoved r r1
unfolding complete
complete-Unmoved Event.new_connection r r1 e = ground arith
complete-Unmoved Event.read r r1 e = ground arith
complete-Unmoved Event.write_needed r r1 e = cc
complete-Unmoved Event.write r r1 e = ground arith
complete-Unmoved Event.finish r r1 e = ground arith
complete-Unmoved Event.done r r1 e = ground arith

pub no_write_needed : (r r1 : Rpc) → complete Event.write_needed r ≢ ok r1
unfolding complete
no_write_needed r r1 e = cc

module _ (p : ℕ) (s : Service) {r : Rpc} (there : lookup p s.active_rpcs ≡ some r) where
  pub accepted-Connects :
      (t : Service) (c : Completes Event.new_connection p r s t) (events : List Event)
      → s.shutting_down ≡ false
      → Held s.shutting_down r (Event.new_connection ∷ events)
      → Connects p c.back (put p c.back s) t
  unfolding count get_rpc_event
  accepted-Connects t c events up h =
      let same : Unmoved r c.back = complete-Unmoved Event.new_connection r c.back c.is_back in
      let good : c.flag.ok ≡ true = ground (arith, c.is_flag, same.same_ok, h.accepted) in
      from_Ensures (Connects p c.back (put p c.back s)) c.handled
        (new_connection-Connects p (put p c.back s) (lookup-put p s c.back there) c.flag.ok up good)

  -- The object is still found, beside the new one.
  pub connected-lookup :
      Sound none s
      → (back : Rpc) (t : Service) (g : Connects p back (put p back s) t)
      → lookup p t.active_rpcs ≡ some g.leaves.rpc
  unfolding lookup
  connected-lookup sound back t g =
      let is_between : g.between ≡ put p g.leaves.rpc s =
        rw (g.leaves.is_put, update-update p back g.leaves.rpc s.active_rpcs) refl in
      let at_between : lookup p g.between.active_rpcs ≡ some g.leaves.rpc =
        rw is_between (lookup-put p s g.leaves.rpc there) in
      let older : p < g.between.next_address = rw is_between (below p s there sound) in
      ground (arith, g.adds.is_added, at_between, older)
