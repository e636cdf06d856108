-- ===== src/Service/Adding.antt =====
-- New objects in a Service (async_grpc/service.cc): StartServing, and the end of HandleNewConnection.
use async_grpc.Base.{
  Option, ℕ, suc, ◌<◌, ◌≡◌, refl, inr, none, some, List, [], ◌∷◌, Returns, Returns->>=, arith,
}
use async_grpc.Base.Assoc.{lookup, Absent-lookup}
use async_grpc.Rpc.Types.{Name, Rpc, RpcHandlerInfo}
use async_grpc.Rpc.Construct.{construct, request_next_method_invocation}
use async_grpc.Rpc.Preserve.{Good, request_next-Good}
use async_grpc.ActiveRpcs
use async_grpc.EventQueueSelector.{Selector, select_next}
use async_grpc.Service.Defs.{
  Service, add_and_request, await_next, start_rpc, start_method, start_methods, start_serving,
}
use async_grpc.Service.Invariant.{HasQueues, Sound, put-Sound, call_method-Returns}

select_next-HasQueues :
    (s : Selector)
    → HasQueues s
    → Returns (λ r. HasQueues r.1 × (r.0 < s.num_event_threads)) (select_next s)
unfolding select_next
select_next-HasQueues s h = ground arith

module _ (i c q : ℕ) (context : Option ℕ) (info : RpcHandlerInfo) (s : Service) where
  added : Service
  added = record s {
    active_rpcs = (s.next_address, construct s.next_address i c q context info) ∷ s.active_rpcs;
    next_address = suc s.next_address;
  }

  added-there :
      lookup s.next_address added.active_rpcs ≡ some (construct s.next_address i c q context info)
  unfolding lookup added
  added-there = ground arith

  added-Sound : Sound none s → Sound (some s.next_address) added
  unfolding lookup added
  added-Sound v = record {
    distinct = (
      Absent-lookup s.next_address s.active_rpcs (v.fresh s.next_address (omega arith)),
      v.distinct,
    );
    fresh = λ p le. ground (arith, v.fresh p);
    fit = λ p r ne e. v.fit p r (λ h. cc) (ground arith);
    queues = v.queues;
  }

  add_and_request-Sound :
      Sound none s
      → Returns (Sound none) (add_and_request (construct s.next_address i c q context info) s)
  unfolding add_and_request construct added
  add_and_request-Sound v =
      rw (v.fresh s.next_address (omega arith), ActiveRpcs.add)
        (call_method-Returns s.next_address added added-there
          (Good (construct s.next_address i c q context info)) (Sound none)
          request_next_method_invocation
          (request_next-Good info.rpc_type s.next_address i c q context info refl)
          (λ r1 g.
            put-Sound s.next_address added added-there (some s.next_address) r1 (inr refl)
              (record { placed = g.same; inv = g.inv; awake = g.awake }) (added-Sound v)))

-- One round of StartServing.
start_rpc-Sound :
    (i c : ℕ) (context : Option ℕ) (info : RpcHandlerInfo) (s : Service)
    → Sound none s
    → Returns (Sound none) (start_rpc i c context info s)
unfolding start_rpc
start_rpc-Sound i c context info s v =
    Returns->>= _ (Sound none) (select_next s.event_queue_selector) _
      (select_next-HasQueues s.event_queue_selector v.queues)
      λ selected h.
        add_and_request-Sound i c selected.0 context info
          (record s { event_queue_selector = selected.1 })
          (record { distinct = v.distinct; fresh = v.fresh; fit = v.fit; queues = h.0 })

start_method-Sound :
    (i : ℕ) (info : RpcHandlerInfo) (cs : List ℕ) (context : Option ℕ) (s : Service)
    → Sound none s
    → Returns (Sound none) (start_method i info cs context s)
unfolding start_method
start_method-Sound i info [] context s v = v
start_method-Sound i info (c ∷ cs) context s v =
    Returns->>= (Sound none) (Sound none) (start_rpc i c context info s) _
      (start_rpc-Sound i c context info s v) (λ s1 v1. start_method-Sound i info cs context s1 v1)

start_methods-Sound :
    (i : ℕ) (infos : List (Name × RpcHandlerInfo)) (cs : List ℕ) (context : Option ℕ) (s : Service)
    → Sound none s
    → Returns (Sound none) (start_methods i infos cs context s)
unfolding start_methods
start_methods-Sound i [] cs context s v = v
start_methods-Sound i ((name, info) ∷ infos) cs context s v =
    Returns->>= (Sound none) (Sound none) (start_method i info cs context s) _
      (start_method-Sound i info cs context s v)
      (λ s1 v1. start_methods-Sound (suc i) infos cs context s1 v1)

-- Service::StartServing on a sound service returns, and leaves it sound.
pub start_serving-Sound :
    (cs : List ℕ) (context : Option ℕ) (s : Service)
    → Sound none s
    → Returns (Sound none) (start_serving cs context s)
unfolding start_serving
start_serving-Sound cs context s v = start_methods-Sound 0 s.rpc_handler_infos cs context s v

-- The object for the next call is put forward.
pub await_next-Sound :
    (p : ℕ) (s : Service) {r : Rpc}
    → lookup p s.active_rpcs ≡ some r
    → Sound none s
    → Returns (Sound none) (await_next p s)
unfolding await_next
await_next-Sound p s {r} there v =
    rw (there, await_next)
      (Returns->>= _ (Sound none) (select_next s.event_queue_selector) _
        (select_next-HasQueues s.event_queue_selector v.queues)
        λ selected h.
          add_and_request-Sound r.method_index r.server_completion_queue selected.0
            r.execution_context r.rpc_handler_info (record s { event_queue_selector = selected.1 })
            (record { distinct = v.distinct; fresh = v.fresh; fit = v.fit; queues = h.0 }))
