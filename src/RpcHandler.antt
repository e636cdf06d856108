-- ===== src/RpcHandler.antt =====
-- RpcHandler::Writer and RpcHandler::GetWriter (async_grpc/rpc_handler.h). A Writer is the weak_ptr
-- that it holds, which is the object's address. Tracing is off, so that no handler has a span.
pub mod Context
mod Tests
use async_grpc.Base.{
  ℕ, ◌≡◌, refl, inl, inr, Bool, true, false, none, some, List, [], ◌∷◌, Outcome, ok, fault, ◌>>=◌,
  or_fault, null_dereference, check_failed, Option-cases, arith,
}
use async_grpc.Base.Assoc.{lookup}
use async_grpc.Rpc.Types.{Rpc, Message, Status, status_ok, Action, send, finish_rpc}
use async_grpc.Rpc.Calls
use async_grpc.Rpc.Actions.{after_actions}
use async_grpc.Rpc.Invariant.{is_connected}
use async_grpc.ActiveRpcs
use async_grpc.EventQueueSelector.{Selector}
use async_grpc.Rpc.Types.{Name, RpcHandlerInfo}
use async_grpc.Service.Defs.{Service, deref, call_method, weak_ptr_factory}
use async_grpc.Service.Invariant.{call_method_lem, HasQueues, Fit, put}
use async_grpc.Service.Handlers.{lookup-put, weak_ptr_lem}
use async_grpc.Service.Reach.{Reach, Reach-Sound}

-- RpcHandler::GetWriter, through Rpc::GetWeakPtr.
unfoldable get_writer : Rpc → Service → Outcome ℕ
unfolding ActiveRpcs.get_weak_ptr
get_writer r s = weak_ptr_factory s r.this

-- `if (auto rpc = rpc_.lock())`: what is done with the object, and true, or nothing, and false. A Writer
-- is used by any thread, so the service may go on between the lock, in `s`, and the call, in `t`.
unfoldable if_locked :
    ℕ → (Rpc → Service → Outcome Service) → Service → Service → Outcome (Bool × Service)
unfolding ActiveRpcs.lock
if_locked p run s t = elim (ActiveRpcs.lock s.active_rpcs p) [
  | none ↦ ok (false, t)
  | some r ↦ run r t >>= λ t1. ok (true, t1)
]

-- A method called on the locked object: where it stands in the map, or, once it has been taken out of
-- that, as the shared_ptr `r` keeps it.
unfoldable call_locked : ℕ → (Rpc → Outcome Rpc) → Rpc → Service → Outcome Service
unfolding lookup call_method
call_locked p method r t = elim (lookup p t.active_rpcs) [
  | none ↦ method r >>= λ r1. ok t
  | some r1 ↦ call_method p method t
]

-- Writer::Write.
unfoldable pub write : Message → ℕ → Service → Service → Outcome (Bool × Service)
unfolding if_locked call_locked Calls.write ActiveRpcs.get_weak_ptr
write m p s t = if_locked p (call_locked p (Calls.write (weak_ptr_factory t) m)) s t

-- Writer::WritesDone.
unfoldable pub writes_done : ℕ → Service → Service → Outcome (Bool × Service)
unfolding if_locked call_locked Calls.finish ActiveRpcs.get_weak_ptr
writes_done p s t = if_locked p (call_locked p (Calls.finish (weak_ptr_factory t) status_ok)) s t

-- rpc->handler()->trace_span().
unfoldable trace_span : ℕ → Rpc → Service → Outcome Service
unfolding lookup
trace_span p r s = do
  handler ←
      or_fault null_dereference
        (elim (lookup p s.active_rpcs) [ none ↦ r.handler | some r1 ↦ r1.handler ])
  ok s

-- What Writer::Finish does with the object.
unfoldable finish_and_trace : Status → ℕ → Rpc → Service → Outcome Service
unfolding call_locked Calls.finish trace_span ActiveRpcs.get_weak_ptr
finish_and_trace status p r t =
    call_locked p (Calls.finish (weak_ptr_factory t) status) r t >>= trace_span p r

-- Writer::Finish.
unfoldable pub finish : Status → ℕ → Service → Service → Outcome (Bool × Service)
unfolding if_locked finish_and_trace
finish status p s t = if_locked p (finish_and_trace status p) s t

-- A call of a method of a Writer, and what it asks of the object.
pub data WriterCall : Type 0 where
  writes : Message → WriterCall
  is_done : WriterCall
  finishes : Status → WriterCall

abbrev call_writer : WriterCall → ℕ → Service → Service → Outcome (Bool × Service)
call_writer (writes m) p s t = write m p s t
call_writer is_done p s t = writes_done p s t
call_writer (finishes status) p s t = finish status p s t

abbrev action_of : WriterCall → Action
action_of (writes m) = send m
action_of is_done = finish_rpc status_ok
action_of (finishes status) = finish_rpc status

-- What a call does: nothing if the object is gone when it is locked; if it is gone only when it is
-- used, a CHECK fails; else it has one more item to send, at the end of its queue, and one more event
-- that will send it.
abbrev after_writer : WriterCall → ℕ → Service → Service → Outcome (Bool × Service)
after_writer c p s t = elim (lookup p s.active_rpcs) [
  | none ↦ ok (false, t)
  | some locked ↦ elim (lookup p t.active_rpcs) [
    | none ↦ fault check_failed
    | some r ↦ ok (true, put p (after_actions (action_of c ∷ []) r) t)
  ]
]

if_locked-none :
    (p : ℕ) (run : Rpc → Service → Outcome Service) (s t : Service)
    → lookup p s.active_rpcs ≡ none
    → if_locked p run s t ≡ ok (false, t)
unfolding if_locked
if_locked-none p run s t e = rw (e, if_locked) refl

if_locked-some :
    (p : ℕ) (run : Rpc → Service → Outcome Service) (s t : Service) {r : Rpc}
    → lookup p s.active_rpcs ≡ some r
    → if_locked p run s t ≡ (run r t >>= λ t1. ok (true, t1))
unfolding if_locked
if_locked-some p run s t e = rw (e, if_locked) refl

module _ {infos : List (Name × RpcHandlerInfo)} {selector : Selector} {queues : List ℕ}
    {s t : Service} (q : HasQueues selector) (locked : Reach infos selector queues s)
    (used : Reach infos selector queues t) (p : ℕ)
    (connected : (r : Rpc) → lookup p t.active_rpcs ≡ some r → is_connected r.log ≡ true) where
  gone : (c : WriterCall) → lookup p s.active_rpcs ≡ none → call_writer c p s t ≡ ok (false, t)
  unfolding write writes_done finish
  gone (writes m) e = if_locked-none p (call_locked p (Calls.write (weak_ptr_factory t) m)) s t e
  gone is_done e =
      if_locked-none p (call_locked p (Calls.finish (weak_ptr_factory t) status_ok)) s t e
  gone (finishes status) e = if_locked-none p (finish_and_trace status p) s t e

  -- What a call does with the locked object.
  abbrev use_locked : WriterCall → Rpc → Outcome Service
  use_locked (writes m) l = call_locked p (Calls.write (weak_ptr_factory t) m) l t
  use_locked is_done l = call_locked p (Calls.finish (weak_ptr_factory t) status_ok) l t
  use_locked (finishes status) l = finish_and_trace status p l t

  module _ (l : Rpc) (at : lookup p s.active_rpcs ≡ some l) where
    call-locked : (c : WriterCall) → call_writer c p s t ≡ (use_locked c l >>= λ t1. ok (true, t1))
    unfolding write writes_done finish
    call-locked (writes m) =
        if_locked-some p (call_locked p (Calls.write (weak_ptr_factory t) m)) s t at
    call-locked is_done =
        if_locked-some p (call_locked p (Calls.finish (weak_ptr_factory t) status_ok)) s t at
    call-locked (finishes status) = if_locked-some p (finish_and_trace status p) s t at

    -- The object has been taken out of the map since.
    dropped : (c : WriterCall) → lookup p t.active_rpcs ≡ none → use_locked c l ≡ fault check_failed
    unfolding call_locked Calls.write Calls.finish finish_and_trace ActiveRpcs.get_weak_ptr
    dropped (writes m) e =
        let placed : l.this ≡ p = ((Reach-Sound q locked).fit p l (λ h. cc) at).placed in
        ground arith
    dropped is_done e =
        let placed : l.this ≡ p = ((Reach-Sound q locked).fit p l (λ h. cc) at).placed in
        ground arith
    dropped (finishes status) e =
        let placed : l.this ≡ p = ((Reach-Sound q locked).fit p l (λ h. cc) at).placed in
        ground arith

    module _ (r : Rpc) (there : lookup p t.active_rpcs ≡ some r) where
      fit : Fit p r
      fit = (Reach-Sound q used).fit p r (λ h. cc) there

      factory : weak_ptr_factory t r.this ≡ ok r.this
      factory = weak_ptr_lem p t there fit.placed

      after_call : Action → Rpc
      after_call a = after_actions (a ∷ []) r

      call_locked_lem :
          (method : Rpc → Outcome Rpc) (a : Action)
          → method r ≡ ok (after_call a)
          → call_locked p method l t ≡ ok (put p (after_call a) t)
      unfolding call_locked
      call_locked_lem method a e =
          rw (there, call_locked) (call_method_lem p t there method (after_call a) e)

      wrote : (m : Message) → Calls.write (weak_ptr_factory t) m r ≡ ok (after_call (send m))
      unfolding after_call Calls.write
      wrote m = rw factory refl

      finished :
          (status : Status)
          → Calls.finish (weak_ptr_factory t) status r ≡ ok (after_call (finish_rpc status))
      unfolding after_call Calls.finish
      finished status = rw factory refl

      trace_span_lem :
          (a : Action) → trace_span p l (put p (after_call a) t) ≡ ok (put p (after_call a) t)
      unfolding trace_span after_call
      trace_span_lem a = elim (Option-cases r.handler) [
        | inl n ↦ absurd (ground (arith, fit.inv.served, connected r there))
        | inr (past, h) ↦ rw (lookup-put p t (after_actions (a ∷ []) r) there) (rw h refl)
      ]

      in_flight : (c : WriterCall) → use_locked c l ≡ ok (put p (after_call (action_of c)) t)
      unfolding finish_and_trace
      in_flight (writes m) = call_locked_lem (Calls.write (weak_ptr_factory t) m) (send m) (wrote m)
      in_flight is_done =
          call_locked_lem (Calls.finish (weak_ptr_factory t) status_ok) (finish_rpc status_ok)
            (finished status_ok)
      in_flight (finishes status) =
          rw
            (call_locked_lem (Calls.finish (weak_ptr_factory t) status) (finish_rpc status)
              (finished status))
            (trace_span_lem (finish_rpc status))

  -- A call of Write, WritesDone or Finish of a Writer that locks its object in one reachable state and
  -- uses it in another, in which the object, if it is still in flight, is connected. If the object is
  -- gone at the lock, the call returns false and changes nothing. If it is in flight both times, the
  -- call returns true, one item stands at the end of the object's send queue, with one more event
  -- that will send it, and nothing else is changed. If it is taken out in between, a CHECK fails.
  pub call_writer_lem : (c : WriterCall) → call_writer c p s t ≡ after_writer c p s t
  unfolding after_call
  call_writer_lem c = elim (Option-cases (lookup p s.active_rpcs)) [
    | inl e ↦ rw (e, after_writer) (gone c e)
    | inr (l, at) ↦ elim (Option-cases (lookup p t.active_rpcs)) [
      | inl e ↦ rw (at, e, after_writer) (rw (call-locked l at c, dropped l at c e) refl)
      | inr (r, there) ↦
          rw (at, there, after_writer) (rw (call-locked l at c, in_flight l at r there c) refl)
    ]
  ]

-- While the handler's Initialize runs, handler_ is not set: a Finish by a Writer that is made there
-- goes through a null pointer.
finish_in_initialize :
    (p : ℕ) (s : Service) (r : Rpc) (status : Status)
    → lookup p s.active_rpcs ≡ some r
    → r.this ≡ p
    → r.handler ≡ none
    → finish status p s s ≡ fault null_dereference
unfolding finish finish_and_trace trace_span call_locked call_method if_locked Calls.finish
finish_in_initialize p s r status there same n =
    let r1 : Rpc = after_actions (finish_rpc status ∷ []) r in
    ground (arith, weak_ptr_lem p s there same, lookup-put p s r1 there)
