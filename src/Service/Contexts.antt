-- ===== src/Service/Contexts.antt =====
-- The ExecutionContext on its way from Server::Start to the handlers (async_grpc/service.cc, rpc.cc):
-- StartServing, the constructor of Rpc, and Clone.
use async_grpc.Base.{
  ℕ, suc, sym, Outcome, ◌∙◌, ◌≢◌, ◌⊎◌, Option-cases, ◌≡◌, refl, inl, inr, Bool, true, Option, none,
  some, List, [], ◌∷◌, ok, Ensures, Ensures->>=, from_Ensures, subst, Bool-cases, arith,
}
use async_grpc.Base.Assoc.{Distinct, Distinct-update, lookup, lookup-update, lookup-erase}
use async_grpc.Rpc.Types.{Name, Rpc, RpcHandlerInfo, Event}
use async_grpc.Rpc.Lifecycle.{store_ok}
use async_grpc.Rpc.Calls.{perform_actions}
use async_grpc.Rpc.Actions.{perform_actions-eq_ok}
use async_grpc.Service.Defs.{
  Service, start_rpc, start_method, start_methods, stop_serving, handle_event, handle_internal,
  pop_write_needed, weak_ptr_factory,
}
use async_grpc.Service.Invariant.{Sound, put}
use async_grpc.Service.Events.{Accepts}
use async_grpc.Rpc.Events.{get_rpc_event}
use async_grpc.Service.Handlers.{lookup-put}
use async_grpc.Service.Reach.{Step, act, fill, call_method-eq_ok}
use async_grpc.Service.Effects.{Served, drop, handle_event-Served}
use async_grpc.Service.Growth.{
  start_rpc-Adds, Adds, Connects, new_connection-Connects, new_connection-refused,
}
use async_grpc.Running.Fronts.{Completes, handle_completion_lem, handle_internal_lem}
use async_grpc.Running.Connecting.{Unmoved, complete-Unmoved}

-- Every object in flight has the context.
abbrev pub HasContext : Option ℕ → Service → Type 0
HasContext x s = (p : ℕ) (r : Rpc) → lookup p s.active_rpcs ≡ some r → r.execution_context ≡ x

module _ (x : Option ℕ) where
  put-HasContext :
      (p : ℕ) (s : Service) (r r1 : Rpc)
      → lookup p s.active_rpcs ≡ some r
      → r1.execution_context ≡ r.execution_context
      → HasContext x s
      → HasContext x (put p r1 s)
  put-HasContext p s r r1 there same h q r2 e =
      ground (arith, lookup-update p q r1 r s.active_rpcs there, h p r there, h q r2)

  drop-HasContext :
      (p : ℕ) (s : Service) → Distinct s.active_rpcs → HasContext x s → HasContext x (drop p s)
  drop-HasContext p s d h q r e = ground (arith, lookup-erase p q s.active_rpcs d, h q r)

  Adds-HasContext : {s t : Service} → Adds x s t → HasContext x s → HasContext x t
  unfolding lookup
  Adds-HasContext {s} a h q r e = ground (arith, a.is_added, a.same_context, h q r)

  start_method-HasContext :
      (i : ℕ) (info : RpcHandlerInfo) (cs : List ℕ) (s : Service)
      → HasContext x s
      → Ensures (HasContext x) (start_method i info cs x s)
  unfolding start_method
  start_method-HasContext i info [] s h = h
  start_method-HasContext i info (c ∷ cs) s h =
      Ensures->>= (Adds x s) (HasContext x) (start_rpc i c x info s) _ (start_rpc-Adds i c x info s)
        λ s1 a. start_method-HasContext i info cs s1 (Adds-HasContext a h)

  pub start_methods-HasContext :
      (i : ℕ) (infos : List (Name × RpcHandlerInfo)) (cs : List ℕ) (s : Service)
      → HasContext x s
      → Ensures (HasContext x) (start_methods i infos cs x s)
  unfolding start_methods
  start_methods-HasContext i [] cs s h = h
  start_methods-HasContext i ((name, info) ∷ infos) cs s h =
      Ensures->>= (HasContext x) (HasContext x) (start_method i info cs x s) _
        (start_method-HasContext i info cs s h)
        (λ s1 h1. start_methods-HasContext (suc i) infos cs s1 h1)

  Served-HasContext :
      (p : ℕ) (r : Rpc) (s t : Service)
      → lookup p s.active_rpcs ≡ some r
      → Distinct s.active_rpcs
      → Served p r s t
      → HasContext x s
      → HasContext x t
  Served-HasContext p r s t there v (inl g) h =
      rw g.is_put (put-HasContext p s r g.rpc there g.keeps.same_context h)
  Served-HasContext p r s t there v (inr g) h = rw g.is_dropped (drop-HasContext p s v h)

  Connects-HasContext :
      (p : ℕ) (r : Rpc) (s t : Service)
      → lookup p s.active_rpcs ≡ some r
      → Connects p r s t
      → HasContext x s
      → HasContext x t
  Connects-HasContext p r s t there g h =
      Adds-HasContext
        (subst (λ y. Adds y g.between t) (g.leaves.keeps.same_context ∙ h p r there) g.adds)
        (rw g.leaves.is_put (put-HasContext p s r g.leaves.rpc there g.leaves.keeps.same_context h))

  module _ (p : ℕ) (s : Service) {r : Rpc} (there : lookup p s.active_rpcs ≡ some r)
      (d : Distinct s.active_rpcs) (h : HasContext x s) (t : Service) where
    other_event-HasContext :
        (event : Event) (success : Bool)
        → event ≢ Event.new_connection
        → handle_event event p success s ≡ ok t
        → HasContext x t
    other_event-HasContext event success n e =
        Served-HasContext p r s t there d
          (from_Ensures (Served p r s) e (handle_event-Served p s there event success n)) h

    connection-HasContext :
        (success : Bool)
        → (s.shutting_down ≡ true) ⊎ (success ≡ true)
        → handle_event Event.new_connection p success s ≡ ok t
        → HasContext x t
    connection-HasContext success a e = elim (Bool-cases s.shutting_down) [
      | inl down ↦
          let is_dropped : drop p s ≡ t =
            ground (arith, new_connection-refused p s there success down, e) in
          subst (HasContext x) is_dropped (drop-HasContext p s d h)
      | inr up ↦
          Connects-HasContext p r s t there
            (from_Ensures (Connects p r s) e
              (new_connection-Connects p s there success up (ground arith)))
            h
    ]

  module _ (p : ℕ) (s t : Service) {r : Rpc} (there : lookup p s.active_rpcs ≡ some r)
      (v : Sound none s) (h : HasContext x s) where
    completed-HasContext :
        (event : Event) (c : Completes event p r s t)
        → HasContext x (put p c.back s) × Distinct (put p c.back s).active_rpcs
    completed-HasContext event c = (
      put-HasContext p s r c.back there (complete-Unmoved event r c.back c.is_back).same_context h,
      Distinct-update p c.back s.active_rpcs v.distinct,
    )

    other_completion-HasContext :
        (event : Event) → event ≢ Event.new_connection → Completes event p r s t → HasContext x t
    other_completion-HasContext event n c =
        let (h1, d1) = completed-HasContext event c in
        other_event-HasContext p (put p c.back s) (lookup-put p s c.back there) d1 h1 t event
          c.flag.ok n c.handled

    completion-HasContext :
        (event : Event) → Accepts event s r → Completes event p r s t → HasContext x t
    unfolding get_rpc_event
    completion-HasContext Event.new_connection a c =
        let (h1, d1) = completed-HasContext Event.new_connection c in
        let same : Unmoved r c.back = complete-Unmoved Event.new_connection r c.back c.is_back in
        connection-HasContext p (put p c.back s) (lookup-put p s c.back there) d1 h1 t c.flag.ok
          (ground (arith, c.is_flag, same.same_ok, a)) c.handled
    completion-HasContext Event.read a c = other_completion-HasContext Event.read (λ e. cc) c
    completion-HasContext Event.write_needed a c =
        other_completion-HasContext Event.write_needed (λ e. cc) c
    completion-HasContext Event.write a c = other_completion-HasContext Event.write (λ e. cc) c
    completion-HasContext Event.finish a c = other_completion-HasContext Event.finish (λ e. cc) c
    completion-HasContext Event.done a c = other_completion-HasContext Event.done (λ e. cc) c

  store_ok-context :
      (event : Event) (success : Bool) (r r1 : Rpc)
      → store_ok event success r ≡ ok r1
      → r1.execution_context ≡ r.execution_context
  unfolding store_ok
  store_ok-context Event.new_connection success r r1 e = ground arith
  store_ok-context Event.read success r r1 e = ground arith
  store_ok-context Event.write_needed success r r1 e = cc
  store_ok-context Event.write success r r1 e = ground arith
  store_ok-context Event.finish success r r1 e = ground arith
  store_ok-context Event.done success r r1 e = ground arith

  wake-HasContext :
      (p : ℕ) (s t : Service)
      → Sound none s
      → HasContext x s
      → handle_internal p s ≡ ok t
      → HasContext x t
  unfolding handle_internal
  wake-HasContext p s t v h e = elim (Option-cases (lookup p s.active_rpcs)) [
    | inl lost ↦ let same : s ≡ t = ground (arith, lost) in subst (HasContext x) same h
    | inr (r, there) ↦
        other_event-HasContext p (put p (pop_write_needed r) s)
          (lookup-put p s (pop_write_needed r) there)
          (Distinct-update p (pop_write_needed r) s.active_rpcs v.distinct)
          (put-HasContext p s r (pop_write_needed r) there refl h) t Event.write_needed true
          (λ n. cc) (sym (handle_internal_lem p s there) ∙ e)
  ]

  pub Step-HasContext : {s t : Service} → Step s t → Sound none s → HasContext x s → HasContext x t
  unfolding act stop_serving
  Step-HasContext {s} {t} (Step.stores {r = r} event success p there e) v h =
      let (r1, done, is_put) = call_method-eq_ok p s t r (store_ok event success) there e in
      rw is_put (put-HasContext p s r r1 there (store_ok-context event success r r1 done) h)
  Step-HasContext {s} (Step.fills {r} m p there) v h = put-HasContext p s r (fill m r) there refl h
  Step-HasContext {s} {t} (Step.completes event p there d a e) v h =
      completion-HasContext p s t there v h event a (handle_completion_lem event p s t there e)
  Step-HasContext {s} {t} (Step.wakes p e) v h = wake-HasContext p s t v h e
  Step-HasContext {s} {t} (Step.acts {r = r} a p there k e) v h =
      let method : Rpc → Outcome Rpc = perform_actions (weak_ptr_factory s) (a ∷ []) in
      let (r1, done, is_put) = call_method-eq_ok p s t r method there e in
      let same : r1.execution_context ≡ r.execution_context =
        rw (perform_actions-eq_ok (weak_ptr_factory s) (a ∷ []) r r1 done) refl in
      rw is_put (put-HasContext p s r r1 there same h)
  Step-HasContext Step.stops v h = h
