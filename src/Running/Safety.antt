-- ===== src/Running/Safety.antt =====
-- What holds of every running server before StopServing (async_grpc/server.cc, rpc.h), whatever the
-- order in which gRPC, the event threads and the writers take their turns.
use async_grpc.Base.{
  Option, ℕ, ◌≡◌, refl, subst, ◌≢◌, ◌⊎◌, inl, inr, true, false, none, some, List, [], ◌∷◌, ok,
  Returns, from_Ensures, ap, All, arith,
}
use async_grpc.Base.Assoc.{lookup}
use async_grpc.Rpc.Types.{Name, Rpc, RpcHandlerInfo}
use async_grpc.Rpc.Lifecycle.{store_ok}
use async_grpc.Rpc.Invariant.{is_finished}
use async_grpc.EventQueueSelector.{Selector}
use async_grpc.Service.Defs.{Service, init, start_serving}
use async_grpc.Service.Invariant.{HasQueues, Sound, call_method_lem}
use async_grpc.Service.Events.{handle_completion-Sound, handle_internal-Sound}
use async_grpc.Service.Reach.{Reach, Step, Reach-Sound}
use async_grpc.Service.Growth.{Unpushed, start_methods-Unpushed}
use async_grpc.Running.{
  Running, UniqueEventPtr, EventBase, completion_queue_rpc_event, internal_rpc_event, event_of,
  rpc_of, handle, events_of, Turn, Runs, start,
}
use async_grpc.Running.Held.{Held}
use async_grpc.Running.Tidy.{Tidy, start-Tidy}
use async_grpc.Running.Fronts.{front-Delivers, front-Accepts}
use async_grpc.Running.Returning.{run_completion-eq_ok}
use async_grpc.Running.Steps.{own_queue, front-Held, lost-same, Turn-up, Turn-Tidy}
use async_grpc.Running.Alive.{Stands, woken-Stands, IsAlive, All-IsAlive}
use async_grpc.Running.Owned.{IsOwned, OwnedAs, AllOwned, Runs-AllOwned}

-- The front of a queue that is an object's.
pub front_of :
    (p : ℕ) (s : Service) (queues : ℕ → List UniqueEventPtr) {r : Rpc} (k : ℕ) (x : UniqueEventPtr)
    (rest : List UniqueEventPtr)
    → lookup p s.active_rpcs ≡ some r
    → Sound none s
    → Tidy s queues
    → queues k ≡ x ∷ rest
    → rpc_of x.event ≡ p
    → Held s.shutting_down r (event_of x.event ∷ events_of p rest)
front_of p s queues {r} k x rest there sound v at is_p =
    front-Held p s there sound v x rest (rw (own_queue p s there sound v k x rest at is_p) at) is_p

-- A turn is a step of the service, or leaves it alone.
Turn-Reach :
    {infos : List (Name × RpcHandlerInfo)} {selector : Selector} {queues : List ℕ} {w w1 : Running}
    → Turn w w1
    → Sound none w.service
    → Tidy w.service w.event_queues
    → AllOwned w.event_queues
    → Reach infos selector queues w.service
    → Reach infos selector queues w1.service
unfolding handle
Turn-Reach {w = w} {w1} (Turn.returns event success p there m e) sound v o reach =
    let (r1, stored, is_w1) = run_completion-eq_ok p w there event success w1 e in
    rw is_w1 (
      Reach.later reach (
        Step.stores event success p there
          (call_method_lem p w.service there (store_ok event success) r1 stored)))
Turn-Reach (Turn.fills m p there) sound v o reach = Reach.later reach (Step.fills m p there)
Turn-Reach {infos} {selector} {queues} {w} (Turn.handles {t} {r} k n x rest at there e counted)
      sound v o reach =
    by_event x.event refl there (rw at at (o k)).0 e
  where
    by_event :
        (b : EventBase)
        → x.event ≡ b
        → lookup (rpc_of b) w.service.active_rpcs ≡ some r
        → OwnedAs b x
        → handle b w.service ≡ ok t
        → Reach infos selector queues t
    by_event (internal_rpc_event p) is_b at_p owned done = Reach.later reach (Step.wakes p done)
    by_event (completion_queue_rpc_event event p) is_b at_p owned done =
        let h : Held w.service.shutting_down r (event ∷ events_of p rest) =
          subst (λ b. Held w.service.shutting_down r (event_of b ∷ events_of p rest)) is_b
            (front_of p w.service w.event_queues k x rest at_p sound v at (ap rpc_of is_b)) in
        Reach.later reach (
          Step.completes event p at_p (front-Delivers event _ r _ owned.0 h)
            (front-Accepts event w.service r _ h) done)
Turn-Reach {infos} {selector} {queues} {w} (Turn.ignores {t} k x rest at lost e) sound v o reach =
    rw (lost-same x.event w.service t lost e) reach
Turn-Reach (Turn.acts a p there c e) sound v o reach = Reach.later reach (Step.acts a p there c e)
Turn-Reach Turn.stops sound v o reach = Reach.later reach Step.stops

start-Tidy_serving :
    (infos : List (Name × RpcHandlerInfo)) (selector : Selector) (queues : List ℕ)
    (context : Option ℕ) (s : Service)
    → start_serving queues context (init infos selector) ≡ ok s
    → Tidy s (start s).event_queues
unfolding start_serving init lookup
start-Tidy_serving infos selector queues context s e = start-Tidy s (
    from_Ensures Unpushed e
      (start_methods-Unpushed 0 infos queues context (init infos selector) (λ p r h. cc)))

module _ {infos : List (Name × RpcHandlerInfo)} {selector : Selector} {queues : List ℕ}
    (q : HasQueues selector) where
  Runs-Reach :
      {w : Running}
      → Runs infos selector queues w
      → w.service.shutting_down ≡ false
      → Reach infos selector queues w.service × Tidy w.service w.event_queues
  Runs-Reach (Runs.starts {s} context e) up =
      (Reach.serving context e, start-Tidy_serving infos selector queues context s e)
  Runs-Reach (Runs.goes_on run turn) up =
      let (reach, v) = Runs-Reach run (Turn-up turn up) in
      (
        Turn-Reach turn (Reach-Sound q reach) v (Runs-AllOwned run) reach,
        Turn-Tidy turn (Reach-Sound q reach) v up,
      )

  module _ {w : Running} (run : Runs infos selector queues w)
      (up : w.service.shutting_down ≡ false) where
    pub running-Sound : Sound none w.service
    running-Sound = Reach-Sound q (Runs-Reach run up).0

    pub running-Tidy : Tidy w.service w.event_queues
    running-Tidy = (Runs-Reach run up).1

    -- Every state that a running server reaches through its event queues before StopServing is one
    -- that its service reaches, with the operations of gRPC, the event threads and the writers as
    -- single steps.
    pub running-Reach : Reach infos selector queues w.service
    running-Reach = (Runs-Reach run up).0

    -- In every state of a running server before StopServing, each event of a completion queue that
    -- stands in an event queue is of an object in flight with that event queue, and its operation
    -- is outstanding; and an event's pointer deletes it exactly if it is no member of an object. No
    -- queue holds a pointer into a destroyed object, and none destroys a part of an object.
    pub running-IsAlive :
        (k : ℕ) → All (λ x. IsOwned x × IsAlive w.service k x.event) (w.event_queues k)
    running-IsAlive k = All-IsAlive w.service w.event_queues k running-Tidy (Runs-AllOwned run k)

    -- In every state of a running server before StopServing, the event queue of an object in flight
    -- holds each of its events of a completion queue at most once, DONE only behind the connection,
    -- and as many WRITE_NEEDED events as are to be handled; and no other event queue holds an event
    -- of it.
    running-Held :
        (p : ℕ) (r : Rpc)
        → lookup p w.service.active_rpcs ≡ some r
        → Held w.service.shutting_down r (events_of p (w.event_queues r.event_queue))
          × ((k : ℕ) → k ≢ r.event_queue → events_of p (w.event_queues k) ≡ [])
    running-Held p r there =
        (running-Tidy.held p r there, λ k ne. running-Tidy.elsewhere p r k there ne)

    -- In every state of a running server before StopServing, an object in flight with a message in
    -- its send queue has a write outstanding, or has been told to finish, or its WRITE_NEEDED event
    -- stands in its event queue.
    pub running-woken :
        (p : ℕ) (r : Rpc)
        → lookup p w.service.active_rpcs ≡ some r
        → r.send_queue ≢ []
        → (r.write_event.pending ≡ true)
          ⊎ ((is_finished r.log ≡ true)
              ⊎ Stands (internal_rpc_event p) (w.event_queues r.event_queue))
    running-woken p r there n = elim (running-Sound.fit p r (λ h. cc) there).awake [
      | inl empty ↦ absurd (n empty)
      | inr (inl writing) ↦ inl writing
      | inr (inr (inl finished)) ↦ inr (inl finished)
      | inr (inr (inr pushed)) ↦ inr (
          inr (
            woken-Stands p (w.event_queues r.event_queue) (Runs-AllOwned run r.event_queue)
              (omega (arith, pushed, (running-Tidy.held p r there).pushed))))
    ]

    -- Before StopServing, whatever stands at the front of an event queue of a running server,
    -- handling it returns without a fault, and the service stays sound.
    pub running-handle :
        (k : ℕ) (x : UniqueEventPtr) (rest : List UniqueEventPtr)
        → w.event_queues k ≡ x ∷ rest
        → Returns (Sound none) (handle x.event w.service)
    unfolding handle
    running-handle k x rest at =
        let (owned, alive) = (rw at at (running-IsAlive k)).0 in by_event x.event refl owned alive
      where
        by_event :
            (b : EventBase)
            → x.event ≡ b
            → OwnedAs b x
            → IsAlive w.service k b
            → Returns (Sound none) (handle b w.service)
        by_event (internal_rpc_event p) is_b owned alive =
            handle_internal-Sound p w.service running-Sound
        by_event (completion_queue_rpc_event event p) is_b owned (r, there, own, pending) =
            let h : Held w.service.shutting_down r (event ∷ events_of p rest) =
              subst (λ b. Held w.service.shutting_down r (event_of b ∷ events_of p rest)) is_b
                (front_of p w.service w.event_queues k x rest there running-Sound running-Tidy at
                  (ap rpc_of is_b)) in
            handle_completion-Sound p w.service there running-Sound event
              (front-Delivers event _ r _ owned.0 h) (front-Accepts event w.service r _ h)
