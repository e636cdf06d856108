-- ===== src/Service/Safety.antt =====
-- What holds of a Service (async_grpc/service.cc) in every state that it reaches.
use async_grpc.Base.{
  ℕ, ◌<◌, ◌≡◌, ◌⊎◌, ◌≢◌, inl, inr, true, false, ◌&&◌, none, some, List, [], ◌∷◌, Returns,
  Option-cases, arith,
}
use async_grpc.Base.Assoc.{lookup}
use async_grpc.Rpc.Types.{Name, Rpc, RpcHandlerInfo, Event, Action, Entry}
use async_grpc.Rpc.Contract.{Call, apply, replay, allows, ends_once}
use async_grpc.Rpc.Invariant.{is_connected, is_finished, view}
use async_grpc.Rpc.Preserve.{Delivers}
use async_grpc.EventQueueSelector.{Selector}
use async_grpc.Service.Defs.{Service, handle_completion, handle_internal}
use async_grpc.Service.Invariant.{Fit, HasQueues, Sound}
use async_grpc.Service.Events.{Accepts, handle_completion-Sound, handle_internal-Sound}
use async_grpc.Service.Reach.{Reach, Reach-Sound, act, act-Sound}

abbrev Both : Call → Type 0
Both c = (c.writing ≡ true) × (c.finishing ≡ true)

apply-exclusive : (e : Entry) (c c' : Call) → ¬ Both c → apply e c ≡ some c' → ¬ Both c'
unfolding apply
apply-exclusive Entry.async_notify_when_done c c' n e b = n (ground arith)
apply-exclusive (Entry.request_async t i) c c' n e b = n (ground arith)
apply-exclusive (Entry.start_read i) c c' n e b = n (ground arith)
apply-exclusive (Entry.start_write i m) c c' n e b = ground arith
apply-exclusive (Entry.finish i s) c c' n e b = ground arith
apply-exclusive (Entry.finish_unary i m s) c c' n e b = ground arith
apply-exclusive (Entry.finish_with_error i s) c c' n e b = ground arith
apply-exclusive (Entry.completed Event.new_connection) c c' n e b = n (ground arith)
apply-exclusive (Entry.completed Event.read) c c' n e b = n (ground arith)
apply-exclusive (Entry.completed Event.write_needed) c c' n e b = cc
apply-exclusive (Entry.completed Event.write) c c' n e b = ground arith
apply-exclusive (Entry.completed Event.finish) c c' n e b = ground arith
apply-exclusive (Entry.completed Event.done) c c' n e b = n (ground arith)

-- gRPC's rules never let a write and a finish be outstanding together.
replay-exclusive : (l : List Entry) (c : Call) → replay l ≡ some c → ¬ Both c
unfolding replay
replay-exclusive [] c e b = ground arith
replay-exclusive (x ∷ l) c e b = elim (Option-cases (replay l)) [
  | inl n ↦ ground arith
  | inr (c0, q) ↦ apply-exclusive x c0 c (replay-exclusive l c0 q) (ground arith) b
]

module _ {infos : List (Name × RpcHandlerInfo)} {selector : Selector} {queues : List ℕ}
    {s : Service} (q : HasQueues selector) (reached : Reach infos selector queues s) where
  -- In every state that a service with an event queue reaches, a WRITE_NEEDED event is handled to
  -- its end without a fault, whether or not its object is still there, and the service stays sound.
  reachable-handle_internal : (p : ℕ) → Returns (Sound none) (handle_internal p s)
  reachable-handle_internal p = handle_internal-Sound p s (Reach-Sound q reached)

  module _ (p : ℕ) (r : Rpc) (there : lookup p s.active_rpcs ≡ some r) where
    fits : Fit p r
    fits = (Reach-Sound q reached).fit p r (λ h. cc) there

    -- In every reachable state, an event of an object in flight that gRPC returns is handled to its
    -- end without a fault, and the service stays sound. gRPC returns only what is outstanding, and
    -- DONE only after the connection; a NEW_CONNECTION is one that was set up, or any one while the
    -- service shuts down.
    reachable-handle_completion :
        (event : Event)
        → Delivers event r
        → Accepts event s r
        → Returns (Sound none) (handle_completion event p s)
    reachable-handle_completion event d a =
        handle_completion-Sound p s there (Reach-Sound q reached) event d a

    -- In every reachable state, Send and Finish of a connected object in flight, called by a writer
    -- or by the handler at any time, return without a fault, and the service stays sound.
    pub reachable-act : (a : Action) → is_connected r.log ≡ true → Returns (Sound none) (act a p s)
    reachable-act a c = act-Sound a p s there c (Reach-Sound q reached)

    -- In every reachable state, gRPC allows the sequence of the operations that an object in flight
    -- has started exactly if none of them writes or ends the call after its end: each is otherwise in
    -- place beside those that are outstanding. Its pending flags say which of them are, and a write
    -- and a finish are never outstanding together.
    pub reachable-follows_contract :
        (allows r.log ≡ ends_once r.log)
        × (replay r.log ≡ some (view r))
        × ((r.write_event.pending && r.finish_event.pending) ≡ false)
    unfolding allows
    reachable-follows_contract = (
      ground (arith, fits.inv.follows),
      fits.inv.follows,
      ground (arith, replay-exclusive r.log (view r) fits.inv.follows),
    )

    -- In every reachable state, an object whose send queue is not empty has a write outstanding, or
    -- has been told to finish, or has a WRITE_NEEDED event in its event queue: no message is
    -- forgotten.
    reachable-send_queue_awake :
        r.send_queue ≢ []
        → (r.write_event.pending ≡ true)
          ⊎ ((is_finished r.log ≡ true) ⊎ (0 < r.write_needed_events))
    reachable-send_queue_awake n = ground (arith, fits.awake)
