-- ===== src/Service/Frame.antt =====
-- What the operations of a Service (async_grpc/service.cc) leave alone: serving one object touches
-- no other, and no handler touches the flag of the shutdown.
use async_grpc.Base.{
  ℕ, suc, ◌≡◌, refl, ◌≢◌, inl, inr, Bool, true, false, Option, none, some, ◌∷◌, Outcome, Ensures,
  Ensures->>=, Ensures-map, Ensures-bind, ◌||◌, from_Ensures, Outcome-cases, Option-cases, arith,
  ◌>>=◌, if◌then◌else◌,
}
use async_grpc.Base.Assoc.{
  lookup, update, erase, Distinct, lookup-update, lookup-erase, Distinct-update, Distinct-erase,
  Absent-lookup,
}
use async_grpc.Rpc.Types.{Rpc, RpcHandlerInfo}
use async_grpc.Rpc.Construct.{construct, clone, set_event_queue, request_next_method_invocation}
use async_grpc.Rpc.Waiting.{IsFor, IsWaiting, request_next-IsWaiting}
use async_grpc.ActiveRpcs
use async_grpc.EventQueueSelector.{Selector, select_next}
use async_grpc.Service.Defs.{
  Service, call_method, remove, add_and_request, await_next, remove_if_not_pending,
}
use async_grpc.Service.Invariant.{put}

-- From s to t every object in flight is left as it is, but for the one that is served, if any.
pub record Frame (served : Option ℕ) (s t : Service) : Type 0 where
  pub distinct : Distinct s.active_rpcs → Distinct t.active_rpcs
  pub others :
      Distinct s.active_rpcs
      → (q : ℕ) (r : Rpc) → served ≢ some q
      → lookup q s.active_rpcs ≡ some r
      → lookup q t.active_rpcs ≡ some r
  pub flag : t.shutting_down ≡ s.shutting_down

pub Frame-refl : (served : Option ℕ) (s : Service) → Frame served s s
Frame-refl served s = record { distinct = λ d. d; others = λ d q r n e. e; flag = refl }

pub Frame-trans :
    (served : Option ℕ) (s t u : Service) → Frame served s t → Frame served t u → Frame served s u
Frame-trans served s t u f g = record {
  distinct = λ d. g.distinct (f.distinct d);
  others = λ d q r n e. g.others (f.distinct d) q r n (f.others d q r n e);
  flag = rw (g.flag, f.flag) refl;
}

pub Frame-weaken : (p : ℕ) (s t : Service) → Frame none s t → Frame (some p) s t
Frame-weaken p s t f = record {
  distinct = f.distinct;
  others = λ d q r n e. f.others d q r (λ h. cc) e;
  flag = f.flag;
}

-- The rule for an operation that follows another.
pub Frame->>= :
    (served : Option ℕ) (s : Service) (m : Outcome Service) (f : Service → Outcome Service)
    → Ensures (Frame served s) m
    → ((t : Service) → Ensures (Frame served t) (f t))
    → Ensures (Frame served s) (m >>= f)
Frame->>= served s m f h k = Ensures->>= (Frame served s) (Frame served s) m f h λ t g.
    Ensures-map (Frame served t) (Frame served s) (f t) (k t) (λ u. Frame-trans served s t u g)

pub put-Frame :
    (p : ℕ) (s : Service) {r : Rpc} (r1 : Rpc)
    → lookup p s.active_rpcs ≡ some r
    → Frame (some p) s (put p r1 s)
put-Frame p s {r} r1 there = record {
  distinct = Distinct-update p r1 s.active_rpcs;
  others = λ d q r2 n e. ground (arith, lookup-update p q r1 r s.active_rpcs);
  flag = refl;
}

pub call_method-Frame :
    (p : ℕ) (method : Rpc → Outcome Rpc) (s : Service)
    → Ensures (Frame (some p) s) (call_method p method s)
unfolding call_method
call_method-Frame p method s = elim (Option-cases (lookup p s.active_rpcs)) [
  | inl e ↦ rw (e, call_method) tt
  | inr (r, e) ↦ elim (Outcome-cases (method r)) [
    | inl (r1, m) ↦ rw (e, call_method) (rw m (put-Frame p s r1 e))
    | inr (k, m) ↦ rw (e, call_method) (rw m tt)
  ]
]

erase-Frame :
    (p : ℕ) (s : Service) → Frame (some p) s (record s { active_rpcs = erase p s.active_rpcs })
erase-Frame p s = record {
  distinct = Distinct-erase p s.active_rpcs;
  others = λ d q r n e. ground (arith, lookup-erase p q s.active_rpcs d);
  flag = refl;
}

pub remove-Frame : (p : ℕ) (s : Service) → Frame (some p) s (remove p s)
unfolding remove
remove-Frame p s = elim (Option-cases (lookup p s.active_rpcs)) [
  | inl e ↦ rw (e, ActiveRpcs.remove) (Frame-refl (some p) s)
  | inr (r, e) ↦ rw (e, ActiveRpcs.remove) (erase-Frame p s)
]

if-Frame :
    (p : ℕ) (s : Service) (b : Bool)
    → Frame (some p) s (if b then s else record s { active_rpcs = erase p s.active_rpcs })
if-Frame p s true = Frame-refl (some p) s
if-Frame p s false = erase-Frame p s

pub remove_if_not_pending-Frame :
    (p : ℕ) (s : Service) → Ensures (Frame (some p) s) (remove_if_not_pending p s)
unfolding remove_if_not_pending
remove_if_not_pending-Frame p s = elim (Option-cases (lookup p s.active_rpcs)) [
  | inl e ↦ rw e tt
  | inr (r, e) ↦ rw e (
      if-Frame p s (
        r.done_event.pending
        || (r.read_event.pending || (r.write_event.pending || r.finish_event.pending))))
]

-- After a new object is put forward: it waits for a call of its method.
pub record Offered (i c : ℕ) (info : RpcHandlerInfo) (s t : Service) : Type 0 where
  pub frame : Frame none s t
  pub address : ℕ
  pub rpc : Rpc
  pub there : lookup address t.active_rpcs ≡ some rpc
  pub waiting : IsWaiting i c info rpc

module _ (i c : ℕ) (info : RpcHandlerInfo) where
  offered :
      (rpc r1 : Rpc) (s : Service)
      → lookup rpc.this s.active_rpcs ≡ none
      → IsWaiting i c info r1
      → Offered i c info s (record s {
        active_rpcs = update rpc.this r1 ((rpc.this, rpc) ∷ s.active_rpcs);
        next_address = suc s.next_address;
      })
  unfolding lookup
  offered rpc r1 s e w =
      let there : lookup rpc.this ((rpc.this, rpc) ∷ s.active_rpcs) ≡ some rpc = ground arith in
      record {
        frame = record {
          distinct = λ d.
              Distinct-update rpc.this r1 ((rpc.this, rpc) ∷ s.active_rpcs)
                (Absent-lookup rpc.this s.active_rpcs e, d);
          others = λ d q r2 n e2.
              ground
                (arith, lookup-update rpc.this q r1 rpc ((rpc.this, rpc) ∷ s.active_rpcs) there);
          flag = refl;
        };
        address = rpc.this;
        rpc = r1;
        there =
            ground (
              arith,
              lookup-update rpc.this rpc.this r1 rpc ((rpc.this, rpc) ∷ s.active_rpcs) there,
            );
        waiting = w;
      }

  pub add_and_request-Offered :
      (rpc : Rpc) (s : Service)
      → IsFor i c info rpc
      → Ensures (Offered i c info s) (add_and_request rpc s)
  unfolding add_and_request call_method lookup
  add_and_request-Offered rpc s f =
      let there : lookup rpc.this ((rpc.this, rpc) ∷ s.active_rpcs) ≡ some rpc = ground arith in
      elim (Option-cases (lookup rpc.this s.active_rpcs)) [
        | inr (r, e) ↦ rw (e, ActiveRpcs.add) tt
        | inl e ↦ elim (Outcome-cases (request_next_method_invocation rpc)) [
          | inl (r1, m) ↦
              rw (e, ActiveRpcs.add)
                (rw (there, m)
                  (offered rpc r1 s e
                    (from_Ensures (IsWaiting i c info) m (request_next-IsWaiting i c info rpc f))))
          | inr (k, m) ↦ rw (e, ActiveRpcs.add) (rw (there, m) tt)
        ]
      ]

  -- The round robin has moved on.
  pub reselect_Offered :
      (selector : Selector) (s : Service) (m : Outcome Service)
      → Ensures (Offered i c info (record s { event_queue_selector = selector })) m
      → Ensures (Offered i c info s) m
  reselect_Offered selector s m h =
      Ensures-map (Offered i c info (record s { event_queue_selector = selector }))
        (Offered i c info s) m h
        λ t o. record {
          frame = record {
            distinct = o.frame.distinct;
            others = o.frame.others;
            flag = o.frame.flag;
          };
          address = o.address;
          rpc = o.rpc;
          there = o.there;
          waiting = o.waiting;
        }

  pub await_next-Offered :
      (p : ℕ) (s : Service) (r : Rpc)
      → lookup p s.active_rpcs ≡ some r
      → IsFor i c info r
      → Ensures (Offered i c info s) (await_next p s)
  unfolding await_next clone construct set_event_queue
  await_next-Offered p s r there f =
      rw (there, await_next)
        (Ensures-bind (Offered i c info s) (select_next s.event_queue_selector) _ λ selected.
          reselect_Offered selected.1 s _ (
            add_and_request-Offered (set_event_queue selected.0 (clone s.next_address r))
              (record s { event_queue_selector = selected.1 }) (ground arith)))
