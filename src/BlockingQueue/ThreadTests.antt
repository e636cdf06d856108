-- ===== src/BlockingQueue/ThreadTests.antt =====
-- Two threads at a queue (async_grpc/common/blocking_queue.h): one finds it empty and waits, the
-- other one pushes and wakes it up.
use async_grpc.Base.{
  ℕ, ◌≡◌, refl, Bool, true, false, none, some, [], ◌∷◌, Returns, ◌==◌, if◌then◌else◌,
}
use async_grpc.BlockingQueue.{BlockingQueue, queue_empty_condition, queue_not_full_condition}
use async_grpc.BlockingQueue.Laws.{Run}
use async_grpc.BlockingQueue.Threads.{
  Call, call_push, call_pop, Answer, pushed, condition, body, timeout,
}
use async_grpc.BlockingQueue.ThreadLaws.{threads-Run}
use async_grpc.Mutex.{
  Phase, idle, locking, testing, blocked, running, unlocking, notifying, System, calls, locks,
  passes, blocks, runs, unlocks, notifies, Reach, starts, later, move, notify_all,
}
use async_grpc.Mutex.Laws.{will_notify}
use async_grpc.Mutex.Safety.{reachable-no_lost_wake}

abbrev empty_queue : BlockingQueue ℕ
empty_queue = record { queue_size = 0; deque = [] }

abbrev States : Type 0
States = System (BlockingQueue ℕ) (Call ℕ) (Answer ℕ)

abbrev a_pop : Call ℕ
a_pop = call_pop

abbrev one_element : BlockingQueue ℕ
one_element = record { queue_size = 0; deque = 7 ∷ [] }

-- Thread 0 calls Pop, and finds the queue empty.
abbrev waiting_threads : ℕ → Phase (Call ℕ) (Answer ℕ)
waiting_threads =
    move 0 (blocked call_pop) (move 0 (testing call_pop) (move 0 (locking call_pop) (λ i. idle)))

abbrev waiting_state : States
waiting_state = record {
  holder = none;
  shared = empty_queue;
  threads = waiting_threads;
  history = [];
}

waiting_state-Reach : Reach condition body timeout empty_queue waiting_state
unfolding move condition queue_empty_condition
waiting_state-Reach =
    later (later (later starts (calls 0 call_pop refl)) (locks 0 call_pop refl refl))
      (blocks 0 call_pop refl refl)

all_quiet : (j : ℕ) → will_notify (waiting_state.threads j) ≡ false
unfolding move
all_quiet j = by_name (j == 0)
  where
    by_name :
        (b : Bool)
        → will_notify {M = Call ℕ} {R = Answer ℕ} (
            if b
            then blocked call_pop
            else (if b then testing call_pop else (if b then locking call_pop else idle)))
          ≡ false
    by_name true = refl
    by_name false = refl

reachable-no_lost_wake_example : condition a_pop empty_queue ≡ false
unfolding move
reachable-no_lost_wake_example =
    reachable-no_lost_wake condition body timeout waiting_state-Reach all_quiet 0 call_pop refl

-- Thread 1 pushes 7 and unlocks.
abbrev pushing_threads : ℕ → Phase (Call ℕ) (Answer ℕ)
pushing_threads = move 1 (unlocking (pushed 7)) (
    move 1 (running (call_push 7))
      (move 1 (testing (call_push 7)) (move 1 (locking (call_push 7)) waiting_threads)))

abbrev notified_threads : ℕ → Phase (Call ℕ) (Answer ℕ)
notified_threads = notify_all (move 1 idle (move 1 (notifying (pushed 7)) pushing_threads))

abbrev popping_state : States
popping_state = record {
  holder = some 0;
  shared = one_element;
  threads = move 0 (running call_pop) (move 0 (testing call_pop) notified_threads);
  history = pushed 7 ∷ [];
}

popping_state-Reach : Reach condition body timeout empty_queue popping_state
unfolding move notify_all condition body queue_empty_condition queue_not_full_condition
popping_state-Reach =
    later
      (later
        (later
          (later
            (later
              (later
                (later (later waiting_state-Reach (calls 1 (call_push 7) refl))
                  (locks 1 (call_push 7) refl refl))
                (passes 1 (call_push 7) refl refl))
              (runs 1 (call_push 7) (pushed 7) one_element refl refl))
            (unlocks 1 (pushed 7) refl))
          (notifies 1 (pushed 7) refl))
        (locks 0 call_pop refl refl))
      (passes 0 call_pop refl refl)

threads-Run_example :
    Run empty_queue (7 ∷ []) [] one_element
    × ((i : ℕ) (m : Call ℕ)
        → popping_state.threads i ≡ running m
        → Returns (λ y. Unit {0}) (body m one_element))
threads-Run_example = threads-Run empty_queue popping_state-Reach
