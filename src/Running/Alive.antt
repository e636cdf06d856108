-- ===== src/Running/Alive.antt =====
-- The events that stand in the event queues of a running server (async_grpc/rpc.h), by their place.
use mathlib.Core.List.{append_assoc}
use async_grpc.Base.{
  ℕ, ◌<◌, ◌≡◌, refl, sym, ap, ◌∙◌, ◌≢◌, inl, inr, Bool, true, false, some, List, [], ◌∷◌, ◌++◌, All,
  arith, ◌==◌, ==_iff, Bool-cases, Option-cases,
}
use async_grpc.Base.Assoc.{lookup}
use async_grpc.Rpc.Types.{Event, Rpc}
use async_grpc.Rpc.Preserve.{is_pending}
use async_grpc.Service.Defs.{Service}
use async_grpc.Running.{
  UniqueEventPtr, EventBase, completion_queue_rpc_event, internal_rpc_event, event_of, rpc_of,
  events_of, count, index,
}
use async_grpc.Running.Events.{AllStale, events_of-append, count-append}
use async_grpc.Running.Held.{Held}
use async_grpc.Running.Tidy.{Tidy}
use async_grpc.Running.Owned.{IsOwned, OwnedAs}

-- An event stands in a queue.
pub record Stands (b : EventBase) (xs : List UniqueEventPtr) : Type 0 where
  pub before : List UniqueEventPtr
  pub pointer : UniqueEventPtr
  pub after : List UniqueEventPtr
  pub is_split : xs ≡ before ++ pointer ∷ after
  pub is_event : pointer.event ≡ b

Stands-count :
    (b : EventBase) (xs : List UniqueEventPtr)
    → Stands b xs
    → 0 < count (event_of b) (events_of (rpc_of b) xs)
unfolding count events_of
Stands-count b xs w = ground (
  arith,
  w.is_split,
  w.is_event,
  events_of-append (rpc_of b) w.before (w.pointer ∷ w.after),
  count-append (event_of b) (events_of (rpc_of b) w.before)
      (events_of (rpc_of b) (w.pointer ∷ w.after)),
)

not_woken : (e : Event) → e ≢ Event.write_needed → (index e == 2) ≡ false
not_woken Event.new_connection n = refl
not_woken Event.read n = refl
not_woken Event.write_needed n = absurd (n refl)
not_woken Event.write n = refl
not_woken Event.finish n = refl
not_woken Event.done n = refl

-- A WRITE_NEEDED event that is counted stands in the queue.
pub woken-Stands :
    (p : ℕ) (xs : List UniqueEventPtr)
    → All IsOwned xs
    → 0 < count Event.write_needed (events_of p xs)
    → Stands (internal_rpc_event p) xs
unfolding count events_of
woken-Stands p [] o c = absurd (ground arith)
woken-Stands p (x ∷ xs) o c = by_event x.event refl o.0 (woken-Stands p xs o.1)
  where
    later : Stands (internal_rpc_event p) xs → Stands (internal_rpc_event p) (x ∷ xs)
    later w = record {
      before = x ∷ w.before;
      pointer = w.pointer;
      after = w.after;
      is_split = ap (λ l. x ∷ l) w.is_split;
      is_event = w.is_event;
    }

    by_event :
        (b : EventBase)
        → x.event ≡ b
        → OwnedAs b x
        → (0 < count Event.write_needed (events_of p xs) → Stands (internal_rpc_event p) xs)
        → Stands (internal_rpc_event p) (x ∷ xs)
    by_event (completion_queue_rpc_event event q) is_b owned again =
        later (again (ground (arith, not_woken event owned.0)))
    by_event (internal_rpc_event q) is_b owned again = elim (Bool-cases (q == p)) [
      | inl same ↦ record {
        before = [];
        pointer = x;
        after = xs;
        is_split = refl;
        is_event = rw is_b (ap (λ j. internal_rpc_event j) ((==_iff q p).0 same));
      }
      | inr other ↦ later (again (ground arith))
    ]

-- A completion queue's event is outstanding and its object is there, with that event queue.
abbrev pub IsAlive : Service → ℕ → EventBase → Type 0
IsAlive s k (internal_rpc_event p) = Unit {0}
IsAlive s k (completion_queue_rpc_event event p) =
    (r : Rpc) × (lookup p s.active_rpcs ≡ some r)
    × (r.event_queue ≡ k)
    × (is_pending event r ≡ true)

stale_count : (e : Event) (xs : List Event) → e ≢ Event.write_needed → AllStale xs → count e xs ≡ 0
unfolding count
stale_count e [] n a = refl
stale_count e (x ∷ xs) n a =
    ground (arith, not_woken e n, ap (λ y. index y) a.0, stale_count e xs n a.1)

Held-pending :
    (event : Event) (down : Bool) (r : Rpc) (queued : List Event)
    → event ≢ Event.write_needed
    → Held down r queued
    → 0 < count event queued
    → is_pending event r ≡ true
Held-pending Event.new_connection down r queued n h c = ground arith
Held-pending Event.read down r queued n h c = ground arith
Held-pending Event.write_needed down r queued n h c = absurd (n refl)
Held-pending Event.write down r queued n h c = ground arith
Held-pending Event.finish down r queued n h c = ground arith
Held-pending Event.done down r queued n h c = ground arith

-- What stands in a queue that is tidy is alive.
Stands-IsAlive :
    (s : Service) (queues : ℕ → List UniqueEventPtr) (k : ℕ) (x : UniqueEventPtr) (b : EventBase)
    → Tidy s queues
    → Stands b (queues k)
    → OwnedAs b x
    → IsAlive s k b
unfolding count
Stands-IsAlive s queues k x (internal_rpc_event p) v w o = tt
Stands-IsAlive s queues k x (completion_queue_rpc_event event p) v w o =
    let c : 0 < count event (events_of p (queues k)) = Stands-count _ (queues k) w in
    elim (Option-cases (lookup p s.active_rpcs)) [
      | inl lost ↦ absurd (omega (arith, c, stale_count event _ o.0 (v.gone p k lost)))
      | inr (r, there) ↦ elim (Bool-cases (k == r.event_queue)) [
        | inl same ↦
            let is_k : r.event_queue ≡ k = sym ((==_iff k r.event_queue).0 same) in
            (r, there, is_k, Held-pending event _ r _ o.0 (v.held p r there) (rw is_k c))
        | inr other ↦ absurd (ground (arith, v.elsewhere p r k there))
      ]
    ]

-- All of the queue is alive.
pub All-IsAlive :
    (s : Service) (queues : ℕ → List UniqueEventPtr) (k : ℕ)
    → Tidy s queues
    → All IsOwned (queues k)
    → All (λ x. IsOwned x × IsAlive s k x.event) (queues k)
All-IsAlive s queues k v o = from_here [] (queues k) refl o
  where
    from_here :
        (before xs : List UniqueEventPtr)
        → queues k ≡ before ++ xs
        → All IsOwned xs
        → All (λ x. IsOwned x × IsAlive s k x.event) xs
    from_here before [] e a = tt
    from_here before (x ∷ xs) e a = (
      (
        a.0,
        Stands-IsAlive s queues k x x.event v
            (record { before = before; pointer = x; after = xs; is_split = e; is_event = refl })
            a.0,
      ),
      from_here (before ++ x ∷ []) xs (e ∙ sym (append_assoc before (x ∷ []) xs)) a.1,
    )
