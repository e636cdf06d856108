-- ===== src/Running/Owned.antt =====
-- Who owns the events that stand in an event queue (async_grpc/rpc.h, EventDeleter): an
-- InternalRpcEvent belongs to its pointer, a CompletionQueueRpcEvent is a member of its object.
use async_grpc.Base.{
  ℕ, zero, suc, ◌≡◌, refl, ◌≢◌, true, false, List, [], ◌∷◌, ◌++◌, All, arith, replicate, ◌==◌,
  if◌then◌else◌, Bool,
}
use async_grpc.Rpc.Types.{Event}
use async_grpc.Running.{
  Running, UniqueEventPtr, EventBase, completion_queue_rpc_event, internal_rpc_event, member_event,
  new_event, rpc_of, deletes, push_events, pop_event, Turn, Runs,
}
use async_grpc.Running.Returning.{run_completion-eq_ok}

abbrev pub OwnedAs : EventBase → UniqueEventPtr → Type 0
OwnedAs (completion_queue_rpc_event event p) x = (event ≢ Event.write_needed) × (deletes x ≡ false)
OwnedAs (internal_rpc_event p) x = deletes x ≡ true

-- The pointer deletes its event exactly if that is not a member of an object.
abbrev pub IsOwned : UniqueEventPtr → Type 0
IsOwned x = OwnedAs x.event x

abbrev pub AllOwned : (ℕ → List UniqueEventPtr) → Type 0
AllOwned queues = (k : ℕ) → All IsOwned (queues k)

All-append :
    (xs ys : List UniqueEventPtr) → All IsOwned xs → All IsOwned ys → All IsOwned (xs ++ ys)
All-append [] ys a b = b
All-append (x ∷ xs) ys a b = (a.0, All-append xs ys a.1 b)

new_events-IsOwned : (n p : ℕ) → All IsOwned (replicate n (new_event p))
unfolding deletes
new_events-IsOwned zero p = tt
new_events-IsOwned (suc n) p = (refl, new_events-IsOwned n p)

push-AllOwned :
    (k : ℕ) (xs : List UniqueEventPtr) (queues : ℕ → List UniqueEventPtr)
    → All IsOwned xs
    → AllOwned queues
    → AllOwned (push_events k xs queues)
unfolding push_events
push-AllOwned k xs queues a v j = by_queue (j == k)
  where
    by_queue : (b : Bool) → All IsOwned (if b then queues j ++ xs else queues j)
    by_queue true = All-append (queues j) xs (v j) a
    by_queue false = v j

pop-AllOwned :
    (k : ℕ) (x : UniqueEventPtr) (rest : List UniqueEventPtr) (queues : ℕ → List UniqueEventPtr)
    → queues k ≡ x ∷ rest
    → AllOwned queues
    → AllOwned (pop_event k rest queues)
unfolding pop_event
pop-AllOwned k x rest queues at v j = by_queue (j == k)
  where
    by_queue : (b : Bool) → All IsOwned (if b then rest else queues j)
    by_queue true = (rw at at (v k)).1
    by_queue false = v j

Turn-AllOwned : {w w1 : Running} → Turn w w1 → AllOwned w.event_queues → AllOwned w1.event_queues
unfolding deletes
Turn-AllOwned {w} {w1} (Turn.returns event success p there m e) v =
    let (r1, stored, is_w1) = run_completion-eq_ok p w there event success w1 e in
    rw is_w1 (
      push-AllOwned r1.event_queue (member_event event p ∷ []) w.event_queues
        ((λ h. ground (arith, m.outstanding, h), refl), tt) v)
Turn-AllOwned (Turn.fills m p there) v = v
Turn-AllOwned {w} (Turn.handles {r = r} k n x rest at there e counted) v =
    push-AllOwned r.event_queue _ (pop_event k rest w.event_queues)
      (new_events-IsOwned n (rpc_of x.event)) (pop-AllOwned k x rest w.event_queues at v)
Turn-AllOwned {w} (Turn.ignores k x rest at lost e) v = pop-AllOwned k x rest w.event_queues at v
Turn-AllOwned {w} (Turn.acts {r = r} a p there c e) v =
    push-AllOwned r.event_queue (new_event p ∷ []) w.event_queues (refl, tt) v
Turn-AllOwned Turn.stops v = v

pub Runs-AllOwned :
    {infos : _} {selector : _} {queues : List ℕ} {w : Running}
    → Runs infos selector queues w
    → AllOwned w.event_queues
Runs-AllOwned (Runs.starts context e) = λ k. tt
Runs-AllOwned (Runs.goes_on run turn) = Turn-AllOwned turn (Runs-AllOwned run)
