-- ===== src/Running/Held.antt =====
-- What the event queue of an object holds of its events (async_grpc/rpc.h, rpc.cc), against the
-- object's flags.
use async_grpc.Base.{
  ℕ, ◌+◌, ◌<◌, ◌≤◌, ◌≡◌, ◌⊎◌, Bool, true, false, List, [], ◌∷◌, ◌++◌, ok, arith, ◌==◌,
  if◌then◌else◌,
}
use async_grpc.Rpc.Types.{Event, Rpc, Message}
use async_grpc.Rpc.Invariant.{is_connected}
use async_grpc.Rpc.Keeps.{Keeps}
use async_grpc.Rpc.Lifecycle.{store_ok, complete}
use async_grpc.Service.Defs.{Service, pop_write_needed}
use async_grpc.Service.Reach.{fill}
use async_grpc.Running.{count, index, MayReturn}
use async_grpc.Running.Events.{
  count-append, pushes, count-pushes, is_ordered, ordered_pushes, ordered_push,
}

abbrev at_most : Bool → ℕ
at_most b = if b then 1 else 0

-- An event of the object stands in the queue at most once, and only while it is pending; the
-- WRITE_NEEDED events are as many as the object has pushed; DONE stands behind the connection.
pub record Held (down : Bool) (r : Rpc) (queued : List Event) : Type 0 where
  pub new_connections : count Event.new_connection queued ≤ at_most r.new_connection_event.pending
  pub reads : count Event.read queued ≤ at_most r.read_event.pending
  pub writes : count Event.write queued ≤ at_most r.write_event.pending
  pub finishes : count Event.finish queued ≤ at_most r.finish_event.pending
  pub dones : count Event.done queued ≤ at_most r.done_event.pending
  pub pushed : count Event.write_needed queued ≡ r.write_needed_events
  pub ordered : is_ordered (is_connected r.log) queued ≡ true
  pub accepted :
      0 < count Event.new_connection queued → (down ≡ true) ⊎ (r.new_connection_event.ok ≡ true)
  pub refused : down ≡ true → is_connected r.log ≡ false → count Event.done queued ≡ 0

count-with_pushes :
    (e : Event) (queued : List Event) (n : ℕ)
    → count e (queued ++ pushes n) ≡ count e queued + (if 2 == index e then n else 0)
count-with_pushes e queued n = omega (arith, count-append e queued (pushes n), count-pushes e n)

-- A new object.
pub unpushed-Held : (down : Bool) (r : Rpc) → r.write_needed_events ≡ 0 → Held down r []
unfolding count is_ordered
unpushed-Held down r e = ground arith

-- A handler runs, and pushes events.
pub Held-pushes :
    (down : Bool) (r r1 : Rpc) (queued : List Event) (n : ℕ)
    → Held down r queued
    → Keeps r r1
    → r1.write_needed_events ≡ r.write_needed_events + n
    → Held down r1 (queued ++ pushes n)
Held-pushes down r r1 queued n h k e = record {
  new_connections =
      ground (
        arith,
        count-with_pushes Event.new_connection queued n,
        h.new_connections,
        k.new_connection,
      );
  reads = ground (arith, count-with_pushes Event.read queued n, h.reads, k.reading);
  writes = ground (arith, count-with_pushes Event.write queued n, h.writes, k.writing);
  finishes = ground (arith, count-with_pushes Event.finish queued n, h.finishes, k.finishing);
  dones = ground (arith, count-with_pushes Event.done queued n, h.dones, k.done);
  pushed = omega (arith, count-with_pushes Event.write_needed queued n, h.pushed, e);
  ordered = rw k.connected (ordered_pushes (is_connected r.log) queued n h.ordered);
  accepted = λ some_.
      ground (arith, count-with_pushes Event.new_connection queued n, h.accepted, k.new_connection);
  refused = λ d c. ground (arith, count-with_pushes Event.done queued n, h.refused d, k.connected);
}

-- The queue gives up an event of the object, which comes back.
pub Held-complete :
    (event : Event) (down : Bool) (r r1 : Rpc) (queued : List Event)
    → Held down r (event ∷ queued)
    → complete event r ≡ ok r1
    → Held down r1 queued
unfolding complete count is_ordered
Held-complete Event.new_connection down r r1 queued h e = ground arith
Held-complete Event.read down r r1 queued h e = ground arith
Held-complete Event.write_needed down r r1 queued h e = cc
Held-complete Event.write down r r1 queued h e = ground arith
Held-complete Event.finish down r r1 queued h e = ground arith
Held-complete Event.done down r r1 queued h e = ground arith

-- The queue gives up a WRITE_NEEDED event of the object.
pub Held-wake :
    (down : Bool) (r : Rpc) (queued : List Event)
    → Held down r (Event.write_needed ∷ queued)
    → Held down (pop_write_needed r) queued
unfolding count is_ordered
Held-wake down r queued h = ground arith

pub Held-fill :
    (down : Bool) (r : Rpc) (m : Message) (queued : List Event)
    → Held down r queued
    → Held down (fill m r) queued
Held-fill down r m queued h = ground arith

-- The counts with one event more.
record OneMore (queued : List Event) (x : Event) : Type 0 where
  new_connections :
      count Event.new_connection (queued ++ x ∷ [])
      ≡ count Event.new_connection queued + count Event.new_connection (x ∷ [])
  reads : count Event.read (queued ++ x ∷ []) ≡ count Event.read queued + count Event.read (x ∷ [])
  writes :
      count Event.write (queued ++ x ∷ []) ≡ count Event.write queued + count Event.write (x ∷ [])
  finishes :
      count Event.finish (queued ++ x ∷ [])
      ≡ count Event.finish queued + count Event.finish (x ∷ [])
  dones : count Event.done (queued ++ x ∷ []) ≡ count Event.done queued + count Event.done (x ∷ [])
  pushed :
      count Event.write_needed (queued ++ x ∷ [])
      ≡ count Event.write_needed queued + count Event.write_needed (x ∷ [])

one_more : (queued : List Event) (x : Event) → OneMore queued x
one_more queued x = record {
  new_connections = count-append Event.new_connection queued (x ∷ []);
  reads = count-append Event.read queued (x ∷ []);
  writes = count-append Event.write queued (x ∷ []);
  finishes = count-append Event.finish queued (x ∷ []);
  dones = count-append Event.done queued (x ∷ []);
  pushed = count-append Event.write_needed queued (x ∷ []);
}

-- A completion queue thread pushes an event of the object.
pub Held-return :
    (event : Event) (success : Bool) (s : Service) (r r1 : Rpc) (queued : List Event)
    → MayReturn event success s r queued
    → s.shutting_down ≡ false
    → Held s.shutting_down r queued
    → store_ok event success r ≡ ok r1
    → Held s.shutting_down r1 (queued ++ event ∷ [])
unfolding store_ok count
Held-return Event.new_connection success s r r1 queued m up h e = ground (
  arith,
  one_more queued Event.new_connection,
  m,
  ordered_push (is_connected r.log) queued Event.new_connection h.ordered m.called,
)
Held-return Event.read success s r r1 queued m up h e = ground (
  arith,
  one_more queued Event.read,
  m,
  ordered_push (is_connected r.log) queued Event.read h.ordered m.called,
)
Held-return Event.write_needed success s r r1 queued m up h e = cc
Held-return Event.write success s r r1 queued m up h e = ground (
  arith,
  one_more queued Event.write,
  m,
  ordered_push (is_connected r.log) queued Event.write h.ordered m.called,
)
Held-return Event.finish success s r r1 queued m up h e = ground (
  arith,
  one_more queued Event.finish,
  m,
  ordered_push (is_connected r.log) queued Event.finish h.ordered m.called,
)
Held-return Event.done success s r r1 queued m up h e = ground (
  arith,
  one_more queued Event.done,
  m,
  ordered_push (is_connected r.log) queued Event.done h.ordered m.called,
)
