-- ===== src/Service/Sharing.antt =====
-- The handlers of a service (async_grpc/service.cc, rpc_handler.h) on the ExecutionContext that
-- StartServing was given.
use async_grpc.Base.{ℕ, sym, ◌∙◌, ◌≡◌, true, Option, none, some, List, ok, from_Ensures}
use async_grpc.Base.Assoc.{lookup, update}
use async_grpc.Rpc.Types.{Name, Rpc, RpcHandlerInfo}
use async_grpc.EventQueueSelector.{Selector}
use async_grpc.RpcHandler.Context.{
  Locks, make_handler, set_execution_context, set_rpc, get_context, release, Got, get_context-Got,
  get_context-excludes,
}
use async_grpc.Service.Defs.{Service, init, start_serving}
use async_grpc.Service.Invariant.{HasQueues}
use async_grpc.Service.Reach.{Reach, Reach-Sound}
use async_grpc.Service.Contexts.{HasContext, start_methods-HasContext, Step-HasContext}

module _ {infos : List (Name × RpcHandlerInfo)} {selector : Selector} {queues : List ℕ} where
  -- The context that StartServing was given.
  abbrev pub context_of : {s : Service} → Reach infos selector queues s → Option ℕ
  context_of (Reach.serving context e) = context
  context_of (Reach.later r st) = context_of r

  Reach-HasContext :
      {s : Service}
      → HasQueues selector
      → (reached : Reach infos selector queues s) → HasContext (context_of reached) s
  unfolding start_serving init lookup
  Reach-HasContext q (Reach.serving context e) =
      from_Ensures (HasContext context) e
        (start_methods-HasContext context 0 infos queues (init infos selector) (λ p r n. cc))
  Reach-HasContext q (Reach.later r st) =
      Step-HasContext (context_of r) st (Reach-Sound q r) (Reach-HasContext q r)

  -- In every reachable state, of two objects in flight, put forward by StartServing or cloned since: if
  -- GetContext of the handler that is made for the one gives a context, it is the one that
  -- StartServing was given; until it is released, GetContext of the handler that is made for the
  -- other waits, and then it gets it.
  pub reachable-shares_context :
      {s : Service} (h : HasQueues selector) (reached : Reach infos selector queues s) (p q : ℕ)
      (first second : Rpc)
      → lookup p s.active_rpcs ≡ some first
      → lookup q s.active_rpcs ≡ some second
      → (c : ℕ) (locks locks1 : Locks)
      → get_context (make_handler p first.execution_context) locks ≡ ok (some (c, locks1))
      → (context_of reached ≡ some c)
        × (get_context (make_handler q second.execution_context) locks1 ≡ ok none)
        × (get_context (make_handler q second.execution_context) (release c locks1)
            ≡ ok (some (c, update c true (release c locks1))))
  unfolding make_handler set_execution_context set_rpc
  reachable-shares_context h reached p q first second at_p at_q c locks locks1 e =
      let of_p : first.execution_context ≡ context_of reached =
        Reach-HasContext h reached p first at_p in
      let of_q : second.execution_context ≡ context_of reached =
        Reach-HasContext h reached q second at_q in
      let got : Got (make_handler p first.execution_context) c locks locks1 =
        get_context-Got (make_handler p first.execution_context) c locks locks1 e in
      let (waits, next) =
        get_context-excludes (make_handler q second.execution_context)
          (make_handler p first.execution_context) c locks locks1 (of_q ∙ sym of_p) e in
      (sym of_p ∙ got.the_context, waits, next)
