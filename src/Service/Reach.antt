-- ===== src/Service/Reach.antt =====
-- A Service (async_grpc/service.cc) in its environment: gRPC, the event threads and the holders of
-- RpcHandler::Writer (async_grpc/rpc_handler.h), which take turns in any order.
use async_grpc.Base.{
  Option, ℕ, ◌≡◌, refl, inl, inr, Bool, true, none, some, List, [], ◌∷◌, Outcome, ok, Returns,
  Outcome-cases, arith,
}
use async_grpc.Base.Assoc.{lookup}
use async_grpc.Rpc.Types.{Name, Rpc, RpcHandlerInfo, Event, Message, Action}
use async_grpc.Rpc.Calls.{perform_actions}
use async_grpc.Rpc.Actions.{perform_actions_lem}
use async_grpc.Rpc.Invariant.{Inv, IsAwake, is_connected}
use async_grpc.Rpc.Lifecycle.{store_ok}
use async_grpc.Rpc.Preserve.{Good, Delivers, after_actions-Inv}
use async_grpc.ActiveRpcs
use async_grpc.EventQueueSelector.{Selector}
use async_grpc.Service.Defs.{
  Service, init, start_serving, stop_serving, call_method, weak_ptr_factory, handle_completion,
  handle_internal,
}
use async_grpc.Service.Invariant.{Fit, HasQueues, Sound, put, put-Sound, call_method-Returns}
use async_grpc.Service.Adding.{start_serving-Sound}
use async_grpc.Service.Handlers.{weak_ptr_lem}
use async_grpc.Service.Events.{Accepts, handle_completion-Sound, handle_internal-Sound}

-- RpcHandler::Writer::Write, WritesDone and Finish, once the weak_ptr has been locked, and
-- RpcHandler::Send and Finish outside a callback: one call of Rpc::Write or Rpc::Finish.
unfoldable pub act : Action → ℕ → Service → Outcome Service
unfolding call_method perform_actions ActiveRpcs.get_weak_ptr
act a p s = call_method p (perform_actions (weak_ptr_factory s) (a ∷ [])) s

-- gRPC fills the buffer of a request.
abbrev pub fill : Message → Rpc → Rpc
fill m r = record r { request = m }

pub data Step (s : Service) : Service → Type 0 where
  -- Server::RunCompletionQueue stores how an operation ended.
  stores :
      {t : Service} {r : Rpc} (event : Event) (success : Bool) (p : ℕ)
      → lookup p s.active_rpcs ≡ some r
      → call_method p (store_ok event success) s ≡ ok t
      → Step s t
  fills :
      {r : Rpc} (m : Message) (p : ℕ)
      → lookup p s.active_rpcs ≡ some r
      → Step s (put p (fill m r) s)
  -- An event thread handles an event of a completion queue.
  completes :
      {t : Service} {r : Rpc} (event : Event) (p : ℕ)
      → lookup p s.active_rpcs ≡ some r
      → Delivers event r
      → Accepts event s r
      → handle_completion event p s ≡ ok t
      → Step s t
  -- An event thread handles a WRITE_NEEDED event.
  wakes : {t : Service} (p : ℕ) → handle_internal p s ≡ ok t → Step s t
  -- A handler's object or writer is used, after the connection.
  acts :
      {t : Service} {r : Rpc} (a : Action) (p : ℕ)
      → lookup p s.active_rpcs ≡ some r
      → is_connected r.log ≡ true
      → act a p s ≡ ok t
      → Step s t
  stops : Step s (stop_serving s)

pub data Reach (infos : List (Name × RpcHandlerInfo)) (selector : Selector) (queues : List ℕ)
    : Service → Type 0 where
  serving :
      {s : Service} (execution_context : Option ℕ)
      → start_serving queues execution_context (init infos selector) ≡ ok s
      → Reach infos selector queues s
  later : {s t : Service} → Reach infos selector queues s → Step s t → Reach infos selector queues t

pub from_Returns {ℓ} :
    {A : Type ℓ} (P : A → Type 0) {m : Outcome A} {a : A} → m ≡ ok a → Returns P m → P a
from_Returns P e h = rw e at h

pub store_ok-Good :
    (event : Event) (success : Bool) (r r1 : Rpc)
    → Inv r
    → IsAwake r
    → store_ok event success r ≡ ok r1
    → Good r r1
unfolding store_ok
store_ok-Good Event.new_connection success r r1 v a e = ground arith
store_ok-Good Event.read success r r1 v a e = ground arith
store_ok-Good Event.write_needed success r r1 v a e = cc
store_ok-Good Event.write success r r1 v a e = ground arith
store_ok-Good Event.finish success r r1 v a e = ground arith
store_ok-Good Event.done success r r1 v a e = ground arith

pub call_method-eq_ok :
    (p : ℕ) (s t : Service) (r : Rpc) (method : Rpc → Outcome Rpc)
    → lookup p s.active_rpcs ≡ some r
    → call_method p method s ≡ ok t
    → (r1 : Rpc) × (method r ≡ ok r1) × (t ≡ put p r1 s)
unfolding call_method
call_method-eq_ok p s t r method there e = elim (Outcome-cases (method r)) [
  | inl (r1, m) ↦ (r1, m, ground arith)
  | inr (f, m) ↦ absurd (ground arith)
]

pub refit :
    (p : ℕ) (s : Service) {r : Rpc} (r1 : Rpc)
    → lookup p s.active_rpcs ≡ some r
    → Sound none s
    → Good r r1
    → Sound none (put p r1 s)
refit p s {r} r1 there v g =
    let f : Fit p r = v.fit p r (λ h. cc) there in
    put-Sound p s there none r1 (inl refl)
      (record { placed = rw (g.same, f.placed) refl; inv = g.inv; awake = g.awake }) v

fill-Good : (m : Message) (r : Rpc) → Inv r → IsAwake r → Good r (fill m r)
fill-Good m r v a = ground arith

-- A use of a handler's object or writer while the object is in flight does not fault.
pub act-Sound :
    (a : Action) (p : ℕ) (s : Service) {r : Rpc}
    → lookup p s.active_rpcs ≡ some r
    → is_connected r.log ≡ true
    → Sound none s
    → Returns (Sound none) (act a p s)
unfolding act
act-Sound a p s {r} there c v =
    let f : Fit p r = v.fit p r (λ h. cc) there in
    call_method-Returns p s there (Good r) (Sound none) _
      (rw (perform_actions_lem (weak_ptr_factory s) (a ∷ []) r (weak_ptr_lem p s there f.placed))
        (after_actions-Inv (a ∷ []) r f.inv f.awake c))
      (λ r1 g. refit p s r1 there v g)

stop_serving-Sound : (s : Service) → Sound none s → Sound none (stop_serving s)
unfolding stop_serving
stop_serving-Sound s v = record {
  distinct = v.distinct;
  fresh = v.fresh;
  fit = v.fit;
  queues = v.queues;
}

-- Every step of the environment keeps a service sound.
Step-Sound : {s t : Service} → Step s t → Sound none s → Sound none t
Step-Sound {s} {t} (stores {r = r} event success p there e) v =
    let (r1, m, at) = call_method-eq_ok p s t r (store_ok event success) there e in
    let f : Fit p r = v.fit p r (λ h. cc) there in
    rw at (refit p s r1 there v (store_ok-Good event success r r1 f.inv f.awake m))
Step-Sound {s} (fills {r} m p there) v =
    let f : Fit p r = v.fit p r (λ h. cc) there in
    refit p s (fill m r) there v (fill-Good m r f.inv f.awake)
Step-Sound {s} (completes event p there d a e) v =
    from_Returns (Sound none) e (handle_completion-Sound p s there v event d a)
Step-Sound {s} (wakes p e) v = from_Returns (Sound none) e (handle_internal-Sound p s v)
Step-Sound {s} (acts a p there c e) v = from_Returns (Sound none) e (act-Sound a p s there c v)
Step-Sound {s} stops v = stop_serving-Sound s v

pub init-Sound :
    (infos : List (Name × RpcHandlerInfo)) (selector : Selector)
    → HasQueues selector
    → Sound none (init infos selector)
unfolding init lookup
init-Sound infos selector q = record {
  distinct = tt;
  fresh = λ p le. refl;
  fit = λ p r ne e. cc;
  queues = q;
}

-- Every service that StartServing and any such steps lead to is sound.
pub Reach-Sound :
    {infos : List (Name × RpcHandlerInfo)} {selector : Selector} {queues : List ℕ} {s : Service}
    → HasQueues selector
    → Reach infos selector queues s
    → Sound none s
Reach-Sound {infos} {selector} {queues} q (serving context e) =
    from_Returns (Sound none) e
      (start_serving-Sound queues context (init infos selector) (init-Sound infos selector q))
Reach-Sound q (later r st) = Step-Sound st (Reach-Sound q r)
