-- ===== src/Service/Growth.antt =====
-- The objects that a Service (async_grpc/service.cc) puts forward: one for the next call with each
-- connection, and those of StartServing.
use async_grpc.Base.{
  Option, ℕ, suc, ◌≡◌, refl, inl, inr, Bool, true, false, some, List, [], ◌∷◌, Outcome, ok, Ensures,
  Ensures->>=, Ensures-map, Ensures-bind, Outcome-cases, Option-cases, arith, ◌>>=◌, if◌then◌else◌,
}
use async_grpc.Base.Assoc.{lookup, update}
use async_grpc.Rpc.Types.{Name, Rpc, RpcHandlerInfo, Event}
use async_grpc.Rpc.Construct.{
  construct, clone, set_event_queue, request_next_method_invocation, streaming_interface,
}
use async_grpc.Rpc.Calls.{on_connection}
use async_grpc.Rpc.Kept.{on_connection-kept}
use async_grpc.Rpc.Keeps.{Keeps, Keeps-refl, Keeps-IsKept}
use async_grpc.ActiveRpcs
use async_grpc.EventQueueSelector.{Selector, select_next}
use async_grpc.Service.Defs.{
  Service, call_method, weak_ptr_factory, remove, await_next, add_and_request, connect, start_rpc,
  start_method, start_methods, handle_event, handle_new_connection,
}
use async_grpc.Service.Invariant.{remove_lem}
use async_grpc.Service.Effects.{drop, Leaves, call_method-Leaves, lookup-Leaves}

-- A new object stands under the next address, and has pushed nothing.
pub record Adds (context : Option ℕ) (s t : Service) : Type 0 where
  pub rpc : Rpc
  pub is_added : t.active_rpcs ≡ (s.next_address, rpc) ∷ s.active_rpcs
  pub next : t.next_address ≡ suc s.next_address
  pub flag : t.shutting_down ≡ s.shutting_down
  pub unpushed : rpc.write_needed_events ≡ 0
  pub same_context : rpc.execution_context ≡ context

request_next-unpushed :
    (r : Rpc)
    → r.write_needed_events ≡ 0
    → Ensures
        (λ r1. (r1.write_needed_events ≡ 0) × (r1.execution_context ≡ r.execution_context))
        (request_next_method_invocation r)
unfolding request_next_method_invocation
request_next-unpushed r e = elim (Outcome-cases (streaming_interface r.rpc_type r.interfaces)) [
  | inl (j, m) ↦ ground arith
  | inr (k, m) ↦ ground arith
]

add_and_request-Adds :
    (rpc : Rpc) (s : Service)
    → rpc.this ≡ s.next_address
    → rpc.write_needed_events ≡ 0
    → Ensures (Adds rpc.execution_context s) (add_and_request rpc s)
unfolding add_and_request call_method lookup update
add_and_request-Adds rpc s at e =
    let there : lookup rpc.this ((rpc.this, rpc) ∷ s.active_rpcs) ≡ some rpc = ground arith in
    elim (Option-cases (lookup rpc.this s.active_rpcs)) [
      | inr (r, e1) ↦ rw (e1, ActiveRpcs.add) tt
      | inl e1 ↦ elim (Outcome-cases (request_next_method_invocation rpc)) [
        | inl (r1, m) ↦
            rw (e1, ActiveRpcs.add)
              (rw (there, m)
                (record {
                  rpc = r1;
                  is_added = ground arith;
                  next = refl;
                  flag = refl;
                  unpushed = (rw m at (request_next-unpushed rpc e)).0;
                  same_context = (rw m at (request_next-unpushed rpc e)).1;
                }))
        | inr (k, m) ↦ rw (e1, ActiveRpcs.add) (rw (there, m) tt)
      ]
    ]

reselect_Adds :
    (selector : Selector) (context : Option ℕ) (s : Service) (m : Outcome Service)
    → Ensures (Adds context (record s { event_queue_selector = selector })) m
    → Ensures (Adds context s) m
reselect_Adds selector context s m h =
    Ensures-map (Adds context (record s { event_queue_selector = selector })) (Adds context s) m h
      λ t o. record {
        rpc = o.rpc;
        is_added = o.is_added;
        next = o.next;
        flag = o.flag;
        unpushed = o.unpushed;
        same_context = o.same_context;
      }

pub start_rpc-Adds :
    (i c : ℕ) (context : Option ℕ) (info : RpcHandlerInfo) (s : Service)
    → Ensures (Adds context s) (start_rpc i c context info s)
unfolding start_rpc construct
start_rpc-Adds i c context info s =
    Ensures-bind (Adds context s) (select_next s.event_queue_selector) _ λ selected.
      reselect_Adds selected.1 context s _ (
        add_and_request-Adds (construct s.next_address i c selected.0 context info)
          (record s { event_queue_selector = selected.1 }) refl refl)

await_next-Adds :
    (p : ℕ) (s : Service) {r : Rpc}
    → lookup p s.active_rpcs ≡ some r
    → Ensures (Adds r.execution_context s) (await_next p s)
unfolding await_next clone construct set_event_queue
await_next-Adds p s {r} there =
    rw (there, await_next)
      (Ensures-bind (Adds r.execution_context s) (select_next s.event_queue_selector) _ λ selected.
        reselect_Adds selected.1 r.execution_context s _ (
          add_and_request-Adds (set_event_queue selected.0 (clone s.next_address r))
            (record s { event_queue_selector = selected.1 }) refl refl))

-- The object is connected, and stays, and another one is put forward.
pub record Connects (p : ℕ) (r : Rpc) (s t : Service) : Type 0 where
  pub between : Service
  pub leaves : Leaves p r s between
  pub adds : Adds leaves.rpc.execution_context between t

module _ (p : ℕ) (s : Service) {r : Rpc} (there : lookup p s.active_rpcs ≡ some r) where
  connect_and_await : Ensures (Connects p r s) (connect true p s >>= await_next p)
  unfolding connect
  connect_and_await =
      Ensures->>= (Leaves p r s) (Connects p r s) (connect true p s) (await_next p)
        (call_method-Leaves p s there (on_connection (weak_ptr_factory s))
          (on_connection-kept (Keeps r) (Keeps-IsKept r) (weak_ptr_factory s) r (Keeps-refl r)))
        λ s1 w.
          Ensures-map (Adds w.rpc.execution_context s1) (Connects p r s) (await_next p s1)
            (await_next-Adds p s1 (lookup-Leaves p s there s1 w))
            (λ t a. record { between = s1; leaves = w; adds = a })

  -- A new connection while the service is up, and one that is refused.
  pub new_connection-Connects :
      (success : Bool)
      → s.shutting_down ≡ false
      → success ≡ true
      → Ensures (Connects p r s) (handle_event Event.new_connection p success s)
  unfolding handle_event handle_new_connection
  new_connection-Connects success up good = by_flag s.shutting_down success up good
    where
      by_flag :
          (down done : Bool)
          → down ≡ false
          → done ≡ true
          → Ensures
              (Connects p r s)
              (if down then ok (remove p s) else (connect done p s >>= await_next p))
      by_flag true done d e = absurd (ground arith)
      by_flag false false d e = absurd (ground arith)
      by_flag false true d e = connect_and_await

  pub new_connection-refused :
      (success : Bool)
      → s.shutting_down ≡ true
      → handle_event Event.new_connection p success s ≡ ok (drop p s)
  unfolding handle_event handle_new_connection
  new_connection-refused success down = by_flag s.shutting_down down
    where
      by_flag :
          (flag : Bool)
          → flag ≡ true
          → (if flag then ok (remove p s) else (connect success p s >>= await_next p))
            ≡ ok (drop p s)
      by_flag true d = rw (remove_lem p s there) refl
      by_flag false d = absurd (ground arith)

-- Nothing has been pushed for any object in flight.
abbrev pub Unpushed : Service → Type 0
Unpushed s = (p : ℕ) (r : Rpc) → lookup p s.active_rpcs ≡ some r → r.write_needed_events ≡ 0

Adds-Unpushed : (context : Option ℕ) (s t : Service) → Adds context s t → Unpushed s → Unpushed t
unfolding lookup
Adds-Unpushed context s t a u p r e = ground (arith, a.is_added, a.unpushed, u p r)

start_method-Unpushed :
    (i : ℕ) (info : RpcHandlerInfo) (cs : List ℕ) (context : Option ℕ) (s : Service)
    → Unpushed s
    → Ensures Unpushed (start_method i info cs context s)
unfolding start_method
start_method-Unpushed i info [] context s u = u
start_method-Unpushed i info (c ∷ cs) context s u =
    Ensures->>= (Adds context s) Unpushed (start_rpc i c context info s) _
      (start_rpc-Adds i c context info s)
      (λ s1 a. start_method-Unpushed i info cs context s1 (Adds-Unpushed context s s1 a u))

pub start_methods-Unpushed :
    (i : ℕ) (infos : List (Name × RpcHandlerInfo)) (cs : List ℕ) (context : Option ℕ) (s : Service)
    → Unpushed s
    → Ensures Unpushed (start_methods i infos cs context s)
unfolding start_methods
start_methods-Unpushed i [] cs context s u = u
start_methods-Unpushed i ((name, info) ∷ infos) cs context s u =
    Ensures->>= Unpushed Unpushed (start_method i info cs context s) _
      (start_method-Unpushed i info cs context s u)
      (λ s1 u1. start_methods-Unpushed (suc i) infos cs context s1 u1)
