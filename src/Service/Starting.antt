-- ===== src/Service/Starting.antt =====
-- The objects that StartServing (async_grpc/service.cc) puts forward.
use async_grpc.Base.{
  Option, ℕ, zero, suc, ◌+◌, ◌≡◌, refl, subst, none, some, List, [], ◌∷◌, Ensures, Ensures->>=,
  Ensures-map, Ensures-bind, get_elem?, arith,
}
use async_grpc.Base.Assoc.{Distinct}
use async_grpc.Rpc.Types.{Name, RpcHandlerInfo}
use async_grpc.Rpc.Construct.{construct}
use async_grpc.EventQueueSelector.{select_next}
use async_grpc.Service.Defs.{Service, start_rpc, start_method, start_methods}
use async_grpc.Service.Frame.{
  Frame, Frame-refl, Frame-trans, reselect_Offered, Offered, add_and_request-Offered,
}
use async_grpc.Service.Serving.{HasWaiting, Offered-HasWaiting}

module _ (i c : ℕ) (context : Option ℕ) (info : RpcHandlerInfo) where
  -- A method that is being started with some queues.
  start_rpc-Offered : (s : Service) → Ensures (Offered i c info s) (start_rpc i c context info s)
  unfolding start_rpc construct
  start_rpc-Offered s =
      Ensures-bind (Offered i c info s) (select_next s.event_queue_selector) _ λ selected.
        reselect_Offered i c info selected.1 s _ (
          add_and_request-Offered i c info (construct s.next_address i c selected.0 context info)
            (record s { event_queue_selector = selected.1 })
            (record { method = refl; completion_queue = refl; handler_info = refl }))

-- What StartServing leaves: an object for each of the methods and each of the queues.
unfoldable pub HasAll : ℕ → List (Name × RpcHandlerInfo) → List ℕ → Service → Type 0
HasAll first infos queues s =
    (i j c : ℕ) (name : Name) (info : RpcHandlerInfo)
    → get_elem? infos i ≡ some (name, info)
    → get_elem? queues j ≡ some c
    → HasWaiting (i + first) c info s

kept_HasWaiting :
    (i c : ℕ) (info : RpcHandlerInfo) (s t : Service)
    → Distinct s.active_rpcs
    → Frame none s t
    → HasWaiting i c info s
    → HasWaiting i c info t
kept_HasWaiting i c info s t d f w = record {
  address = w.address;
  rpc = w.rpc;
  there = f.others d w.address w.rpc (λ h. cc) w.there;
  waiting = w.waiting;
}

-- The queues of one method are in use.
pub record Started (i : ℕ) (info : RpcHandlerInfo) (queues : List ℕ) (s t : Service) : Type 0 where
  pub frame : Frame none s t
  pub all : Distinct s.active_rpcs → (j c : ℕ) → get_elem? queues j ≡ some c → HasWaiting i c info t

start_method-Started :
    (i : ℕ) (info : RpcHandlerInfo) (cs : List ℕ) (context : Option ℕ) (s : Service)
    → Ensures (Started i info cs s) (start_method i info cs context s)
unfolding start_method
start_method-Started i info [] context s = record {
  frame = Frame-refl none s;
  all = λ d j c e. absurd (ground arith);
}
start_method-Started i info (c ∷ cs) context s =
    Ensures->>= (Offered i c info s) (Started i info (c ∷ cs) s) (start_rpc i c context info s) _
      (start_rpc-Offered i c context info s)
      λ s1 o.
        Ensures-map (Started i info cs s1) (Started i info (c ∷ cs) s) _
          (start_method-Started i info cs context s1)
          λ t st. record {
            frame = Frame-trans none s s1 t o.frame st.frame;
            all = λ d j k e. found s1 t o st d j k e;
          }
  where
    found :
        (s1 t : Service)
        → Offered i c info s s1
        → Started i info cs s1 t
        → Distinct s.active_rpcs
        → (j k : ℕ) → get_elem? (c ∷ cs) j ≡ some k
        → HasWaiting i k info t
    found s1 t o st d zero k e =
        let is_c : c ≡ k = ground arith in
        subst (λ q. HasWaiting i q info t) is_c
          (kept_HasWaiting i c info s1 t (o.frame.distinct d) st.frame
            (Offered-HasWaiting i c info s s1 o))
    found s1 t o st d (suc j) k e = st.all (o.frame.distinct d) j k e

pub record AllStarted (first : ℕ) (infos : List (Name × RpcHandlerInfo)) (queues : List ℕ)
    (s t : Service) : Type 0 where
  pub frame : Frame none s t
  pub all : Distinct s.active_rpcs → HasAll first infos queues t

pub start_methods-AllStarted :
    (first : ℕ) (infos : List (Name × RpcHandlerInfo)) (cs : List ℕ) (context : Option ℕ)
    (s : Service)
    → Ensures (AllStarted first infos cs s) (start_methods first infos cs context s)
unfolding start_methods HasAll
start_methods-AllStarted first [] cs context s = record {
  frame = Frame-refl none s;
  all = λ d i j c n k e. absurd (ground arith);
}
start_methods-AllStarted first ((name, info) ∷ infos) cs context s =
    Ensures->>= (Started first info cs s) (AllStarted first ((name, info) ∷ infos) cs s)
      (start_method first info cs context s) _ (start_method-Started first info cs context s)
      λ s1 o.
        Ensures-map (AllStarted (suc first) infos cs s1)
          (AllStarted first ((name, info) ∷ infos) cs s) _
          (start_methods-AllStarted (suc first) infos cs context s1)
          λ t st. record {
            frame = Frame-trans none s s1 t o.frame st.frame;
            all = λ d. found s1 t o st d;
          }
  where
    found :
        (s1 t : Service)
        → Started first info cs s s1
        → AllStarted (suc first) infos cs s1 t
        → Distinct s.active_rpcs
        → HasAll first ((name, info) ∷ infos) cs t
    found s1 t o st d zero j c n k e q =
        let is_info : info ≡ k = ground arith in
        let at : first ≡ 0 + first = omega arith in
        subst (λ m. HasWaiting m c k t) at
          (subst (λ x. HasWaiting first c x t) is_info
            (kept_HasWaiting first c info s1 t (o.frame.distinct d) st.frame (o.all d j c q)))
    found s1 t o st d (suc i) j c n k e q =
        let at : i + suc first ≡ suc i + first = omega arith in
        subst (λ x. HasWaiting x c k t) at (st.all (o.frame.distinct d) i j c n k e q)
