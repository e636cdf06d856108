-- ===== src/BlockingQueue/ThreadLaws.antt =====
-- What comes of threads that use one BlockingQueue (async_grpc/common/blocking_queue.h) through its
-- mutex (async_grpc/common/mutex.h).
use mathlib.Core.List.{append-nil}
use async_grpc.Base.{
  ℕ, ◌≡◌, refl, ap, subst, true, some, List, [], ◌∷◌, ◌++◌, Outcome, ok, Returns, length, arith,
}
use async_grpc.BlockingQueue.{
  BlockingQueue, queue_not_full_condition, queue_empty_condition, push, pop, peek,
}
use async_grpc.BlockingQueue.Laws.{Run, starts, pushes, pops}
use async_grpc.Mutex.{running, System, Step, Reach}
use async_grpc.Mutex.Safety.{reachable-exclusive}
use async_grpc.BlockingQueue.Threads.{
  Call, call_push, call_push_with_timeout, call_pop, call_pop_with_timeout, call_peek, call_size,
  call_wait_until_empty, Answer, pushed, not_pushed, popped, nothing_popped, peeked, sized, emptied,
  condition, pop_front, body, timeout, entered, left,
}

module _ {A : Type 0} where
  entered-append : (h g : List (Answer A)) → entered (h ++ g) ≡ entered h ++ entered g
  entered-append [] g = refl
  entered-append (pushed t ∷ h) g = ap (λ l. t ∷ l) (entered-append h g)
  entered-append (not_pushed ∷ h) g = entered-append h g
  entered-append (popped t ∷ h) g = entered-append h g
  entered-append (nothing_popped ∷ h) g = entered-append h g
  entered-append (peeked t ∷ h) g = entered-append h g
  entered-append (sized n ∷ h) g = entered-append h g
  entered-append (emptied ∷ h) g = entered-append h g

  left-append : (h g : List (Answer A)) → left (h ++ g) ≡ left h ++ left g
  left-append [] g = refl
  left-append (pushed t ∷ h) g = left-append h g
  left-append (not_pushed ∷ h) g = left-append h g
  left-append (popped t ∷ h) g = ap (λ l. t ∷ l) (left-append h g)
  left-append (nothing_popped ∷ h) g = left-append h g
  left-append (peeked t ∷ h) g = left-append h g
  left-append (sized n ∷ h) g = left-append h g
  left-append (emptied ∷ h) g = left-append h g

  -- A history that the atomic operations have, too.
  abbrev HasRun : BlockingQueue A → List (Answer A) → BlockingQueue A → Type 0
  HasRun q h q1 = Run q (entered h) (left h) q1

  -- An answer that leaves the queue alone.
  more :
      (q q1 : BlockingQueue A) (h : List (Answer A)) (r : Answer A)
      → entered (r ∷ []) ≡ []
      → left (r ∷ []) ≡ []
      → HasRun q h q1
      → HasRun q (h ++ r ∷ []) q1
  more q q1 h r e l run =
      rw
        (
          entered-append h (r ∷ []),
          left-append h (r ∷ []),
          e,
          l,
          append-nil (entered h),
          append-nil (left h),
        )
        run

  -- The history up to an outcome that is known.
  as_outcome :
      (q y x : BlockingQueue A) (h : List (Answer A)) (a r : Answer A)
      → ◌≡◌ {A = Outcome (BlockingQueue A × Answer A)} (ok (y, a)) (ok (x, r))
      → HasRun q (h ++ a ∷ []) y
      → HasRun q (h ++ r ∷ []) x
  as_outcome q y x h a r e run =
      let is_x : y ≡ x = ground arith in
      let is_r : a ≡ r = ground arith in
      subst (λ z. HasRun q (h ++ r ∷ []) z) is_x (subst (λ b. HasRun q (h ++ b ∷ []) y) is_r run)

  run_push :
      (q q1 : BlockingQueue A) (h : List (Answer A)) (t : A)
      → queue_not_full_condition q1 ≡ true
      → HasRun q h q1
      → HasRun q (h ++ pushed t ∷ []) (record q1 { deque = q1.deque ++ t ∷ [] })
  unfolding push
  run_push q q1 h t c run =
      rw (entered-append h (pushed t ∷ []), left-append h (pushed t ∷ []), append-nil (left h))
        (pushes t run (rw c refl))

  run_pop :
      (q q1 x : BlockingQueue A) (d : List A) (h : List (Answer A)) (r : Answer A)
      → q1.deque ≡ d
      → pop_front q1 d ≡ ok (x, r)
      → HasRun q h q1
      → HasRun q (h ++ r ∷ []) x
  unfolding pop queue_empty_condition
  run_pop q q1 x [] h r at e run = cc
  run_pop q q1 x (t ∷ d) h r at e run =
      as_outcome q (record q1 { deque = d }) x h (popped t) r e
        (rw
          (entered-append h (popped t ∷ []), left-append h (popped t ∷ []), append-nil (entered h))
          (pops t run (rw at refl)))

  -- A body that finds its condition true is one of the atomic operations.
  run_body :
      (q q1 x : BlockingQueue A) (h : List (Answer A)) (r : Answer A) (m : Call A)
      → condition m q1 ≡ true
      → body m q1 ≡ ok (x, r)
      → HasRun q h q1
      → HasRun q (h ++ r ∷ []) x
  unfolding condition body
  run_body q q1 x h r (call_push t) c e run =
      as_outcome q _ x h (pushed t) r e (run_push q q1 h t c run)
  run_body q q1 x h r (call_push_with_timeout t) c e run =
      as_outcome q _ x h (pushed t) r e (run_push q q1 h t c run)
  run_body q q1 x h r call_pop c e run = run_pop q q1 x q1.deque h r refl e run
  run_body q q1 x h r call_pop_with_timeout c e run = run_pop q q1 x q1.deque h r refl e run
  run_body q q1 x h r call_peek c e run =
      as_outcome q q1 x h (peeked (peek q1)) r e (more q q1 h _ refl refl run)
  run_body q q1 x h r call_size c e run =
      as_outcome q q1 x h (sized (length q1.deque)) r e (more q q1 h _ refl refl run)
  run_body q q1 x h r call_wait_until_empty c e run =
      as_outcome q q1 x h emptied r e (more q q1 h emptied refl refl run)

  run_timeout :
      (q q1 : BlockingQueue A) (h : List (Answer A)) (r : Answer A) (m : Call A)
      → timeout m ≡ some r
      → HasRun q h q1
      → HasRun q (h ++ r ∷ []) q1
  unfolding timeout
  run_timeout q q1 h r (call_push_with_timeout t) e run =
      let is_r : not_pushed ≡ r = ground arith in
      subst (λ a. HasRun q (h ++ a ∷ []) q1) is_r (more q q1 h not_pushed refl refl run)
  run_timeout q q1 h r call_pop_with_timeout e run =
      let is_r : nothing_popped ≡ r = ground arith in
      subst (λ a. HasRun q (h ++ a ∷ []) q1) is_r (more q q1 h nothing_popped refl refl run)
  run_timeout q q1 h r (call_push t) e run = cc
  run_timeout q q1 h r call_pop e run = cc
  run_timeout q q1 h r call_peek e run = cc
  run_timeout q q1 h r call_size e run = cc
  run_timeout q q1 h r call_wait_until_empty e run = cc

  Step-HasRun :
      (q : BlockingQueue A) {s s1 : System (BlockingQueue A) (Call A) (Answer A)}
      → Step condition body timeout s s1
      → Reach condition body timeout q s
      → HasRun q s.history s.shared
      → HasRun q s1.history s1.shared
  Step-HasRun q (Step.calls i m at) reach run = run
  Step-HasRun q (Step.locks i m at free) reach run = run
  Step-HasRun q (Step.passes i m at c) reach run = run
  Step-HasRun q (Step.blocks i m at c) reach run = run
  Step-HasRun q (Step.wakes_spuriously i m at) reach run = run
  Step-HasRun q (Step.times_out i m r at t) reach run = run
  Step-HasRun q (Step.relocks i m at free) reach run = run
  Step-HasRun q (Step.passes_late i m at c) reach run = run
  Step-HasRun q {s} (Step.expires i m r at c t) reach run =
      run_timeout q s.shared s.history r m t run
  Step-HasRun q {s} (Step.runs i m r x at e) reach run =
      run_body q s.shared x s.history r m
        ((reachable-exclusive condition body timeout reach).1 i m at) e run
  Step-HasRun q (Step.unlocks i r at) reach run = run
  Step-HasRun q (Step.notifies i r at) reach run = run

  Reach-HasRun :
      (q : BlockingQueue A) {s : System (BlockingQueue A) (Call A) (Answer A)}
      → Reach condition body timeout q s
      → HasRun q s.history s.shared
  Reach-HasRun q Reach.starts = starts
  Reach-HasRun q (Reach.later reach step) = Step-HasRun q step reach (Reach-HasRun q reach)

  body-Returns :
      (m : Call A) (q : BlockingQueue A) (d : List A)
      → q.deque ≡ d
      → condition m q ≡ true
      → Returns (λ y. Unit {0}) (body m q)
  unfolding condition body queue_empty_condition
  body-Returns (call_push t) q d at c = tt
  body-Returns (call_push_with_timeout t) q d at c = tt
  body-Returns call_pop q [] at c = absurd (ground arith)
  body-Returns call_pop q (t ∷ d) at c = rw at tt
  body-Returns call_pop_with_timeout q [] at c = absurd (ground arith)
  body-Returns call_pop_with_timeout q (t ∷ d) at c = rw at tt
  body-Returns call_peek q d at c = tt
  body-Returns call_size q d at c = tt
  body-Returns call_wait_until_empty q d at c = tt

  -- In every state that threads reach which call a queue's methods through its mutex, in any order of
  -- their steps, the queue is as some history of whole calls leaves it, with the elements that the
  -- calls have pushed and popped; and no thread takes the front of an empty deque.
  pub threads-Run :
      (q : BlockingQueue A) {s : System (BlockingQueue A) (Call A) (Answer A)}
      → Reach condition body timeout q s
      → Run q (entered s.history) (left s.history) s.shared
        × ((i : ℕ) (m : Call A)
            → s.threads i ≡ running m
            → Returns (λ y. Unit {0}) (body m s.shared))
  threads-Run q {s} reach = (
    Reach-HasRun q reach,
    λ i m at.
        body-Returns m s.shared s.shared.deque refl
          ((reachable-exclusive condition body timeout reach).1 i m at),
  )
