-- ===== src/Running/Steps.antt =====
-- Every turn of a running server (async_grpc/server.cc, service.cc) keeps its event queues tidy.
use async_grpc.Base.{
  ℕ, ◌+◌, ◌≡◌, refl, sym, subst, inl, inr, false, none, some, List, [], ◌∷◌, ◌++◌, Outcome, ok,
  from_Ensures, Bool-cases, arith, replicate, ==_iff, ◌==◌,
}
use async_grpc.Base.Assoc.{lookup}
use async_grpc.Rpc.Types.{Rpc, Action}
use async_grpc.Rpc.Calls.{perform_actions}
use async_grpc.Rpc.Actions.{after_actions, perform_actions_lem}
use async_grpc.Rpc.Keeps.{Keeps}
use async_grpc.Service.Defs.{
  Service, call_method, weak_ptr_factory, handle_completion, handle_internal, stop_serving,
}
use async_grpc.Service.Invariant.{Sound}
use async_grpc.Service.Handlers.{weak_ptr_lem}
use async_grpc.Service.Reach.{call_method-eq_ok, act, fill}
use async_grpc.Running.{
  Running, UniqueEventPtr, EventBase, completion_queue_rpc_event, internal_rpc_event, new_event,
  event_of, rpc_of, remaining, handle, push_events, pop_event, events_of, Turn,
}
use async_grpc.Running.Events.{pushes, AllStale, Touched, Touched-refl, Touched-push, Touched-pop}
use async_grpc.Running.Held.{Held, Held-pushes, Held-fill}
use async_grpc.Running.Returning.{below, return-Tidy, run_completion-eq_ok}
use async_grpc.Service.Frame.{Frame, call_method-Frame}
use async_grpc.Service.Serving.{handle_completion-Frame, handle_internal-Frame}
use async_grpc.Running.Serving.{handle-Tidy}
use async_grpc.Running.Tidy.{Tidy, Tidy-put}

module _ (p : ℕ) (s : Service) {r : Rpc} (there : lookup p s.active_rpcs ≡ some r)
    {queues : ℕ → List UniqueEventPtr} (sound : Sound none s) (v : Tidy s queues) where
  -- The queue that an event of an object in flight stands in is the object's.
  pub own_queue :
      (k : ℕ) (x : UniqueEventPtr) (rest : List UniqueEventPtr)
      → queues k ≡ x ∷ rest
      → rpc_of x.event ≡ p
      → r.event_queue ≡ k
  unfolding events_of
  own_queue k x rest at is_p = elim (Bool-cases (k == r.event_queue)) [
    | inl same ↦ sym ((==_iff k r.event_queue).0 same)
    | inr other ↦ absurd (ground (arith, v.elsewhere p r k there))
  ]

  -- What the object's queue holds, by its front.
  pub front-Held :
      (x : UniqueEventPtr) (rest : List UniqueEventPtr)
      → queues r.event_queue ≡ x ∷ rest
      → rpc_of x.event ≡ p
      → Held s.shutting_down r (event_of x.event ∷ events_of p rest)
  unfolding events_of
  front-Held x rest at is_p =
      let is_front : events_of p (queues r.event_queue) ≡ event_of x.event ∷ events_of p rest =
        ground arith in
      subst (Held s.shutting_down r) is_front (v.held p r there)

  -- An event thread handles the front of its queue, and the handler pushes events.
  front-Tidy :
      (k n : ℕ) (x : UniqueEventPtr) (rest : List UniqueEventPtr) (t : Service)
      → queues k ≡ x ∷ rest
      → rpc_of x.event ≡ p
      → handle x.event s ≡ ok t
      → ((r1 : Rpc)
          → lookup p t.active_rpcs ≡ some r1
          → r1.write_needed_events ≡ remaining x.event r + n)
      → Tidy t (push_events r.event_queue (replicate n (new_event p)) (pop_event k rest queues))
  front-Tidy k n x rest t at is_p e counted =
      let same : r.event_queue ≡ k = own_queue k x rest at is_p in
      let at_own : queues r.event_queue ≡ x ∷ rest = rw same at in
      subst
        (λ j.
          Tidy t (push_events r.event_queue (replicate n (new_event p)) (pop_event j rest queues)))
        same
        (handle-Tidy p s there sound v x.event (events_of p rest) _ n t is_p
          (front-Held x rest at_own is_p)
          (Touched-push p r.event_queue queues n (events_of p rest)
            (pop_event r.event_queue rest queues)
            (Touched-pop p r.event_queue queues x rest at_own is_p))
          e counted)

-- A stale event is taken from the front.
ignored-Tidy :
    (p k : ℕ) (s : Service) (queues : ℕ → List UniqueEventPtr) (x : UniqueEventPtr)
    (rest : List UniqueEventPtr)
    → lookup p s.active_rpcs ≡ none
    → queues k ≡ x ∷ rest
    → rpc_of x.event ≡ p
    → Tidy s queues
    → Tidy s (pop_event k rest queues)
unfolding events_of pop_event
ignored-Tidy p k s queues x rest lost at is_p v = record {
  held = λ q r e. rw (t.others q r.event_queue (λ h. ground (arith, h))) (v.held q r e);
  elsewhere = λ q r j e ne. rw (t.others q j (λ h. ground (arith, h))) (v.elsewhere q r j e ne);
  gone = λ q j e. elim (Bool-cases (j == k)) [
    | inl same ↦ rw same (stale q (v.gone q k e))
    | inr other ↦ rw other (v.gone q j e)
  ];
  fresh = λ q j le. elim (Bool-cases (j == k)) [
    | inl same ↦ rw same (ground (arith, v.fresh q k le))
    | inr other ↦ rw other (v.fresh q j le)
  ];
}
  where
    t : Touched p k (events_of p rest) queues (pop_event k rest queues)
    t = Touched-pop p k queues x rest at is_p

    stale : (q : ℕ) → AllStale (events_of q (queues k)) → AllStale (events_of q rest)
    stale q a = elim (Bool-cases (rpc_of x.event == q)) [
      | inl own ↦ (rw (at, own) at a).1
      | inr other ↦ rw (at, other) at a
    ]

-- A handler's object or writer is used, and pushes an event.
act-Tidy :
    (a : Action) (p : ℕ) (s t : Service) {r : Rpc} {queues : ℕ → List UniqueEventPtr}
    → lookup p s.active_rpcs ≡ some r
    → Sound none s
    → Tidy s queues
    → act a p s ≡ ok t
    → Tidy t (push_events r.event_queue (new_event p ∷ []) queues)
unfolding act
act-Tidy a p s t {r} {queues} there sound v e =
    let method : Rpc → Outcome Rpc = perform_actions (weak_ptr_factory s) (a ∷ []) in
    let (r1, done, is_put) = call_method-eq_ok p s t r method there e in
    let same : r.this ≡ p = (sound.fit p r (λ x. cc) there).placed in
    let is_r1 : after_actions (a ∷ []) r ≡ r1 = ground (
      arith,
      perform_actions_lem (weak_ptr_factory s) (a ∷ []) r (weak_ptr_lem p s there same),
      done,
    ) in
    let k : Keeps r (after_actions (a ∷ []) r) = ground arith in
    rw is_put (
      Tidy-put p s there v (below p s there sound)
        (Touched-push p r.event_queue queues 1 (events_of p (queues r.event_queue)) queues
          (Touched-refl p r.event_queue queues))
        r1 (rw⁻¹ is_r1 refl)
        (subst (λ x. Held s.shutting_down x (events_of p (queues r.event_queue) ++ pushes 1)) is_r1
          (Held-pushes s.shutting_down r (after_actions (a ∷ []) r) _ 1 (v.held p r there) k refl)))

-- A handled event of an object that is gone changes nothing.
pub lost-same :
    (x : EventBase) (s t : Service)
    → lookup (rpc_of x) s.active_rpcs ≡ none
    → handle x s ≡ ok t
    → t ≡ s
unfolding handle handle_completion handle_internal call_method
lost-same (completion_queue_rpc_event event p) s t lost e =
    absurd (from_Ensures (λ u. ⊥) (rw (lost, call_method) at e) tt)
lost-same (internal_rpc_event p) s t lost e = ground (arith, lost)

handle-up :
    (x : EventBase) (s t : Service)
    → handle x s ≡ ok t
    → t.shutting_down ≡ false
    → s.shutting_down ≡ false
unfolding handle
handle-up (completion_queue_rpc_event event p) s t e up =
    ground (arith, (from_Ensures (Frame (some p) s) e (handle_completion-Frame event p s)).flag)
handle-up (internal_rpc_event p) s t e up =
    ground (arith, (from_Ensures (Frame (some p) s) e (handle_internal-Frame p s)).flag)

-- A turn that leaves the service up has found it up.
pub Turn-up :
    {w w1 : Running}
    → Turn w w1
    → w1.service.shutting_down ≡ false
    → w.service.shutting_down ≡ false
unfolding stop_serving handle act
Turn-up {w} {w1} (Turn.returns event success p there m e) up =
    let (r1, stored, is_w1) = run_completion-eq_ok p w there event success w1 e in ground arith
Turn-up (Turn.fills m p there) up = up
Turn-up {w} (Turn.handles {t} k n x rest at there e counted) up = handle-up x.event w.service t e up
Turn-up {w} (Turn.ignores {t} k x rest at lost e) up = handle-up x.event w.service t e up
Turn-up {w} (Turn.acts {t} a p there c e) up =
    ground
      (arith, (from_Ensures (Frame (some p) w.service) e (call_method-Frame p _ w.service)).flag)
Turn-up Turn.stops up = absurd (ground arith)

-- Every turn that leaves the service up keeps the event queues tidy.
pub Turn-Tidy :
    {w w1 : Running}
    → Turn w w1
    → Sound none w.service
    → Tidy w.service w.event_queues
    → w1.service.shutting_down ≡ false
    → Tidy w1.service w1.event_queues
unfolding stop_serving
Turn-Tidy {w} {w1} (Turn.returns event success p there m e) sound v up =
    return-Tidy p w.service there sound v event success w1 m
      (Turn-up (Turn.returns event success p there m e) up) e
Turn-Tidy {w} (Turn.fills {r} m p there) sound v up =
    Tidy-put p w.service there v (below p w.service there sound)
      (Touched-refl p r.event_queue w.event_queues) (fill m r) refl
      (Held-fill w.service.shutting_down r m _ (v.held p r there))
Turn-Tidy {w} (Turn.handles {t} k n x rest at there e counted) sound v up =
    front-Tidy (rpc_of x.event) w.service there sound v k n x rest t at refl e counted
Turn-Tidy {w} (Turn.ignores {t} k x rest at lost e) sound v up =
    rw (lost-same x.event w.service t lost e)
      (ignored-Tidy (rpc_of x.event) k w.service w.event_queues x rest lost at refl v)
Turn-Tidy {w} (Turn.acts {t} a p there c e) sound v up = act-Tidy a p w.service t there sound v e
Turn-Tidy Turn.stops sound v up = absurd (ground arith)
