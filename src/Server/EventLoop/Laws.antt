-- ===== src/Server/EventLoop/Laws.antt =====
-- What the loop of an event queue thread (async_grpc/server.cc, RunEventQueue) handles and leaves.
use mathlib.Core.List.{append-nil, append_assoc}
use async_grpc.Base.{
  ℕ, zero, suc, ◌+◌, ◌<◌, ◌≤◌, ◌≡◌, refl, ap, Option, none, some, List, [], ◌∷◌, ◌++◌, length,
  length-append, arith,
}
use async_grpc.BlockingQueue.{BlockingQueue, push, pop_with_timeout, infinite_queue_size}
use async_grpc.Server.EventLoop.{
  ◌>>=◌, wait_and_pop, handle_if, Loop, push_all, handle_and_push, serve, next_turn, finish_rest,
  run_event_queue,
}

-- The pushes of other threads, in all.
abbrev total {ℓ} : {E : Type ℓ} → List (List E) → ℕ
total [] = 0
total (turn ∷ turns) = length turn + total turns

-- The run gives a result of which the predicate holds.
abbrev Gives {ℓ} : {A : Type ℓ} → (A → Type 0) → Option A → Type 0
Gives P none = ⊥
Gives P (some a) = P a

Gives-map {ℓ} :
    {A : Type ℓ} (P Q : A → Type 0) (m : Option A) → Gives P m → ((a : A) → P a → Q a) → Gives Q m
Gives-map P Q none h k = h
Gives-map P Q (some a) h k = k a h

-- The rule for a run that follows another.
Gives->>= {ℓ κ} :
    {A : Type ℓ} {B : Type κ} (P : A → Type 0) (Q : B → Type 0) (m : Option A) (f : A → Option B)
    → Gives P m
    → ((a : A) → P a → Gives Q (f a))
    → Gives Q (m >>= f)
Gives->>= P Q none f h k = h
Gives->>= P Q (some a) f h k = k a h

module _ {E : Type 0} where
  next_turn-total :
      (late : List (List E)) → length (next_turn late).0 + total (next_turn late).1 ≡ total late
  next_turn-total [] = refl
  next_turn-total (turn ∷ turns) = refl

  -- The queue before an event was taken from its front.
  abbrev with_event : Option E → List E → List E
  with_event none q = q
  with_event (some e) q = e ∷ q

  push-unbounded :
      (e : E) (q : BlockingQueue E)
      → q.queue_size ≡ infinite_queue_size
      → push e q ≡ some (record q { deque = q.deque ++ e ∷ [] })
  unfolding push
  push-unbounded e q u = ground arith

  pop-empty : (q : BlockingQueue E) → q.deque ≡ [] → pop_with_timeout q ≡ (none, q)
  unfolding pop_with_timeout
  pop-empty q h = ground arith

  pop-front :
      (e : E) (rest : List E) (q : BlockingQueue E)
      → q.deque ≡ e ∷ rest
      → pop_with_timeout q ≡ (some e, record q { deque = rest })
  unfolding pop_with_timeout
  pop-front e rest q h = ground arith

module _ {E S : Type 0} where
  -- An unbounded queue that holds what has entered and was not handled.
  pub record IsOrdered (l : Loop E S) : Type 0 where
    pub unbounded : l.queue.queue_size ≡ infinite_queue_size
    pub ordered : l.entered ≡ l.handled ++ l.queue.deque

  record Pushed (es : List E) (l l1 : Loop E S) : Type 0 where
    is_ordered : IsOrdered l1
    same_state : l1.state ≡ l.state
    longer : length l1.queue.deque ≡ length l.queue.deque + length es

  push_all-Pushed : (es : List E) (l : Loop E S) → IsOrdered l → Gives (Pushed es l) (push_all es l)
  unfolding push_all
  push_all-Pushed [] l o = record { is_ordered = o; same_state = refl; longer = omega arith }
  push_all-Pushed (e ∷ es) l o =
      rw (push-unbounded e l.queue o.unbounded, push_all)
        (Gives-map (Pushed es after) (Pushed (e ∷ es) l) (push_all es after)
          (push_all-Pushed es after record {
            unbounded = o.unbounded;
            ordered = rw (o.ordered, append_assoc l.handled l.queue.deque (e ∷ [])) refl;
          })
          (λ l1 p. record {
            is_ordered = p.is_ordered;
            same_state = p.same_state;
            longer = omega (arith, p.longer, length-append l.queue.deque (e ∷ []));
          }))
    where
      after : Loop E S
      after = record l {
        queue = record (l.queue) { deque = l.queue.deque ++ e ∷ [] };
        entered = l.entered ++ e ∷ [];
      }

  -- What PopWithTimeout leaves: the loop from which the event, if there is one, was taken.
  record Popped (n : ℕ) (state : S) (x : Option E) (l : Loop E S) : Type 0 where
    unbounded : l.queue.queue_size ≡ infinite_queue_size
    same_state : l.state ≡ state
    ordered : l.entered ≡ l.handled ++ (with_event x l.queue.deque)
    counted : length (with_event x l.queue.deque) ≡ n
    empty : x ≡ none → l.queue.deque ≡ []

  pop-Popped :
      (q : List E) (l : Loop E S) (n : ℕ) (state : S)
      → l.queue.deque ≡ q
      → IsOrdered l
      → length l.queue.deque ≡ n
      → l.state ≡ state
      → Popped n state
          (pop_with_timeout l.queue).0
          (record l { queue = (pop_with_timeout l.queue).1 })
  pop-Popped [] l n state at o k st = rw (pop-empty l.queue at) record {
    unbounded = o.unbounded;
    same_state = st;
    ordered = o.ordered;
    counted = k;
    empty = λ h. at;
  }
  pop-Popped (e ∷ rest) l n state at o k st = rw (pop-front e rest l.queue at) record {
    unbounded = o.unbounded;
    same_state = st;
    ordered = rw (o.ordered, at) refl;
    counted = rw at at k;
    empty = λ h. cc;
  }

  wait_and_pop-Popped :
      (arrivals : List E) (l : Loop E S)
      → IsOrdered l
      → Gives
          (λ r. Popped (length l.queue.deque + length arrivals) l.state r.0 r.1)
          (wait_and_pop arrivals l)
  unfolding wait_and_pop
  wait_and_pop-Popped arrivals l o =
      Gives->>= (Pushed arrivals l) _ (push_all arrivals l) _ (push_all-Pushed arrivals l o) λ l1 p.
        pop-Popped l1.queue.deque l1 (length l.queue.deque + length arrivals) l.state refl
          p.is_ordered p.longer p.same_state

  -- A handled event pushes no more events than `m` of the state goes down.
  module _ (handle : E → S → S × List E) (m : S → ℕ)
      (bounded : (e : E) (s : S) → length (handle e s).1 + m (handle e s).0 ≤ m s) where
    -- What the queue still holds and may get from the handling of events.
    abbrev load : Loop E S → ℕ
    load l = length l.queue.deque + m l.state

    handle_and_push-Gives :
        (n : ℕ) (state : S) (e : E) (l : Loop E S)
        → Popped n state (some e) l
        → Gives (λ l1. IsOrdered l1 × (load l1 < n + m state)) (handle_and_push handle e l)
    unfolding handle_and_push
    handle_and_push-Gives n state e l k =
        Gives-map (Pushed (handle e l.state).1 taken) _ (push_all (handle e l.state).1 taken)
          (push_all-Pushed (handle e l.state).1 taken record {
            unbounded = k.unbounded;
            ordered = rw (k.ordered, append_assoc l.handled (e ∷ []) l.queue.deque) refl;
          })
          (λ l1 p. (
            p.is_ordered,
            omega (
              arith,
              p.longer,
              k.counted,
              bounded e l.state,
              ap m p.same_state,
              ap m k.same_state,
            ),
          ))
      where
        taken : Loop E S
        taken = record l { state = (handle e l.state).0; handled = l.handled ++ e ∷ [] }

    handle_if-Gives :
        (n : ℕ) (state : S) (x : Option E) (l : Loop E S)
        → Popped n state x l
        → Gives (λ l1. IsOrdered l1 × (load l1 ≤ n + m state)) (handle_if handle x l)
    unfolding handle_if
    handle_if-Gives n state none l k = (
      record { unbounded = k.unbounded; ordered = k.ordered },
      omega (arith, k.counted, ap m k.same_state),
    )
    handle_if-Gives n state (some e) l k =
        Gives-map (λ l1. IsOrdered l1 × (load l1 < n + m state)) _ (handle_and_push handle e l)
          (handle_and_push-Gives n state e l k) (λ l1 h. (h.0, omega (arith, h.1)))

    serve-Gives :
        (turns : List (List E)) (l : Loop E S)
        → IsOrdered l
        → Gives (λ l1. IsOrdered l1 × (load l1 ≤ load l + total turns)) (serve handle turns l)
    unfolding serve
    serve-Gives [] l o = (o, omega arith)
    serve-Gives (turn ∷ turns) l o =
        Gives->>= _ _ (wait_and_pop turn l) _ (wait_and_pop-Popped turn l o) λ r k.
          Gives->>= _ _ (handle_if handle r.0 r.1) _ (handle_if-Gives _ l.state r.0 r.1 k) λ l2 h.
            Gives-map _ _ (serve handle turns l2) (serve-Gives turns l2 h.0)
              (λ l3 g. (g.0, omega (arith, h.1, g.1)))

    finish_rest-Gives :
        (rounds : ℕ) (late : List (List E)) (l : Loop E S)
        → IsOrdered l
        → load l + total late < rounds
        → Gives
            (λ l1. (l1.queue.deque ≡ []) × (l1.entered ≡ l1.handled))
            (finish_rest handle rounds late l)
    unfolding finish_rest
    finish_rest-Gives zero late l o b = absurd (omega arith)
    finish_rest-Gives (suc rounds) late l o b =
        Gives->>= _ _ (wait_and_pop (next_turn late).0 l) _
          (wait_and_pop-Popped (next_turn late).0 l o)
          (λ r k. taken r.0 r.1 k (finish_rest-Gives rounds (next_turn late).1))
      where
        taken :
            (x : Option E) (l1 : Loop E S)
            → Popped (length l.queue.deque + length (next_turn late).0) l.state x l1
            → ((l2 : Loop E S)
                → IsOrdered l2
                → load l2 + total (next_turn late).1 < rounds
                → Gives
                    (λ l3. (l3.queue.deque ≡ []) × (l3.entered ≡ l3.handled))
                    (finish_rest handle rounds (next_turn late).1 l2))
            → Gives
                (λ l2. (l2.queue.deque ≡ []) × (l2.entered ≡ l2.handled))
                (elim x [
                  | none ↦ some l1
                  | some e ↦
                      handle_and_push handle e l1 >>= finish_rest handle rounds (next_turn late).1
                ])
        taken none l1 k again = (k.empty refl, rw (k.ordered, k.empty refl) (append-nil l1.handled))
        taken (some e) l1 k again =
            Gives->>= _ _ (handle_and_push handle e l1) _ (handle_and_push-Gives _ l.state e l1 k)
              (λ l2 h. again l2 h.0 (omega (arith, h.1, b, next_turn-total late)))

    -- RunEventQueue on an unbounded queue, where handling an event pushes no more events than a
    -- measure of the state goes down, and with more rounds than the queue holds, the measure allows
    -- and the other threads push: it returns, with an empty queue, and every event that has entered
    -- the queue, before the call or during it, has been handled, in the order in which they entered.
    run_event_queue_ends :
        (rounds : ℕ) (turns late : List (List E)) (l : Loop E S)
        → l.queue.queue_size ≡ infinite_queue_size
        → l.entered ≡ l.handled ++ l.queue.deque
        → length l.queue.deque + m l.state + total turns + total late < rounds
        → Gives
            (λ l1. (l1.queue.deque ≡ []) × (l1.entered ≡ l1.handled))
            (run_event_queue handle rounds turns late l)
    unfolding run_event_queue
    run_event_queue_ends rounds turns late l u o b =
        Gives->>= _ _ (serve handle turns l) _
          (serve-Gives turns l (record { unbounded = u; ordered = o }))
          (λ l1 h. finish_rest-Gives rounds late l1 h.0 (omega (arith, h.1)))
