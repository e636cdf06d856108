-- ===== src/Service/Removal.antt =====
-- When a Service lets go of an object (async_grpc/service.cc): RemoveIfNotPending, and the two ways
-- out of HandleNewConnection.
use async_grpc.Base.{
  ℕ, ◌≡◌, refl, ◌↔◌, Bool, true, false, ◌||◌, none, some, ◌∷◌, ok, fault, use_after_free,
  check_failed, arith, if◌then◌else◌,
}
use async_grpc.Base.Assoc.{lookup, erase, lookup-erase, Distinct-update, update, lookup-update}
use async_grpc.Rpc.Types.{Rpc, Event, Entry, Message}
use async_grpc.Rpc.Calls.{write}
use async_grpc.Rpc.Preserve.{is_pending}
use async_grpc.ActiveRpcs
use async_grpc.Service.Defs.{
  Service, remove_if_not_pending, handle_new_connection, handle_completion, weak_ptr_factory,
}
use async_grpc.Service.Invariant.{Sound}

-- No operation of the object is outstanding.
abbrev pub Settled : Rpc → Type 0
Settled r = (event : Event) → is_pending event r ≡ false

module _ (p : ℕ) (s t : Service) (r : Rpc) (there : lookup p s.active_rpcs ≡ some r)
    (v : Sound none s) where
  -- RemoveIfNotPending takes an object of a sound service out exactly when none of its operations is
  -- outstanding. It does not look at NEW_CONNECTION, which is never outstanding without DONE.
  pub remove_if_not_pending-Settled :
      remove_if_not_pending p s ≡ ok t → (lookup p t.active_rpcs ≡ none) ↔ Settled r
  unfolding remove_if_not_pending
  remove_if_not_pending-Settled e =
      let busy : Bool =
        r.done_event.pending
        || (r.read_event.pending || (r.write_event.pending || r.finish_event.pending)) in
      let gone : lookup p (erase p s.active_rpcs) ≡ none =
        ground (arith, lookup-erase p p s.active_rpcs v.distinct) in
      let left : t.active_rpcs ≡ (if busy then s.active_rpcs else erase p s.active_rpcs) =
        ground arith in
      (
        λ n. settle (ground arith),
        λ k. ground (arith, k Event.done, k Event.read, k Event.write, k Event.finish),
      )
    where
      settle :
          (r.done_event.pending
              || (r.read_event.pending || (r.write_event.pending || r.finish_event.pending)))
            ≡ false
          → Settled r
      settle e Event.new_connection = ground (arith, (v.fit p r (λ h. cc) there).inv.awaited)
      settle e Event.read = ground arith
      settle e Event.write_needed = refl
      settle e Event.write = ground arith
      settle e Event.finish = ground arith
      settle e Event.done = ground arith

  -- While the server shuts down, HandleNewConnection takes the object out although DONE is
  -- outstanding, also if the connection succeeded.
  pub shutdown_drops_done :
      s.shutting_down ≡ true
      → r.new_connection_event.pending ≡ true
      → handle_completion Event.new_connection p s ≡ ok t
      → (r.done_event.pending ≡ true)
        × (lookup p t.active_rpcs ≡ none)
        × (handle_completion Event.done p t ≡ fault use_after_free)
  unfolding handle_completion
  shutdown_drops_done d n e =
      let back : Rpc = record r {
        new_connection_event = record (r.new_connection_event) { pending = false };
        log = Entry.completed Event.new_connection ∷ r.log;
      } in
      let gone : lookup p t.active_rpcs ≡ none = ground (
        arith,
        lookup-erase p p (update p back s.active_rpcs)
            (Distinct-update p back s.active_rpcs v.distinct),
        lookup-update p p back r s.active_rpcs there,
      ) in
      (((v.fit p r (λ h. cc) there).inv.awaited n).0, gone, rw (gone, handle_completion) refl)

-- A connection that fails while the server is up: the object is destroyed, and then cloned.
pub failed_connection_faults :
    (p : ℕ) (s : Service) (r : Rpc)
    → lookup p s.active_rpcs ≡ some r
    → Sound none s
    → s.shutting_down ≡ false
    → handle_new_connection p false s ≡ fault use_after_free
unfolding handle_new_connection
failed_connection_faults p s r there v up =
    ground (arith, lookup-erase p p s.active_rpcs v.distinct)

-- The object after its last event, DONE, has come back.
abbrev pub after_done : Rpc → Rpc
after_done r = record r {
  done_event = record (r.done_event) { pending = false };
  log = Entry.completed Event.done ∷ r.log;
}

-- RpcHandler::Writer::Write takes two steps: the weak_ptr is locked, and Rpc::Write is called on the
-- object. If between them the object's last outstanding event, DONE, is handled, the lock has
-- succeeded and the write ends the program.
pub late_write_faults :
    (p : ℕ) (s t : Service) (r : Rpc) (m : Message)
    → ActiveRpcs.lock s.active_rpcs p ≡ some r
    → Sound none s
    → Settled (after_done r)
    → handle_completion Event.done p s ≡ ok t
    → write (weak_ptr_factory t) m (after_done r) ≡ fault check_failed
unfolding write ActiveRpcs.lock ActiveRpcs.get_weak_ptr handle_completion
late_write_faults p s t r m there v settled e =
    let placed : r.this ≡ p = (v.fit p r (λ h. cc) there).placed in
    let gone : lookup p t.active_rpcs ≡ none = ground (
      arith,
      settled Event.done,
      settled Event.read,
      settled Event.write,
      settled Event.finish,
      lookup-erase p p (update p (after_done r) s.active_rpcs)
          (Distinct-update p (after_done r) s.active_rpcs v.distinct),
      lookup-update p p (after_done r) r s.active_rpcs there,
    ) in
    ground (arith)
