-- ===== src/EventQueueSelector.antt =====
-- Server::SelectNextEventQueueRoundRobin (async_grpc/server.cc), which a Service is given as its
-- EventQueueSelector.
use async_grpc.Base.{
  ℕ, ◌+◌, ◌%◌, Outcome, ok, fault, out_of_range, division_by_zero, ltb, ◌==◌, if◌then◌else◌,
}

-- The fields of Server that the function reads and writes: Options::num_event_threads, the size of
-- event_queue_threads_, and current_event_queue_id_, which its lock guards.
pub record Selector : Type 0 where
  pub num_event_threads : ℕ
  pub event_queue_threads : ℕ
  pub current_event_queue_id : ℕ

-- The next queue, by its index in event_queue_threads_.
unfoldable pub select_next : Selector → Outcome (ℕ × Selector)
select_next s =
    if s.num_event_threads == 0
    then fault division_by_zero
    else let id = (s.current_event_queue_id + 1) % s.num_event_threads in
      if ltb id s.event_queue_threads
      then ok (id, record s { current_event_queue_id = id })
      else fault out_of_range
