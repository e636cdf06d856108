-- ===== src/Rpc/Keeps.antt =====
-- What the methods of an Rpc (async_grpc/rpc.cc) keep while they serve it: its event queue, the
-- ExecutionContext, the operations that are outstanding, and the events of its own that it has pushed.
use async_grpc.Base.{
  ◌≤◌, ◌≡◌, refl, true, ◌||◌, List, [], ◌∷◌, Ensures, arith, Outcome-cases, Bool-cases, inl, inr,
}
use async_grpc.Rpc.Types.{
  RpcType, normal_rpc, client_streaming, server_streaming, bidi_streaming, SendItem, Rpc,
}
use async_grpc.Rpc.Construct.{async_reader_interface}
use async_grpc.Rpc.Calls.{enqueue_message, start_read}
use async_grpc.Rpc.Kept.{IsKept}
use async_grpc.Rpc.Sending.{send_item, send_front, handle_send_queue}
use async_grpc.Rpc.Invariant.{is_connected}

pub record Keeps (r r1 : Rpc) : Type 0 where
  pub same_queue : r1.event_queue ≡ r.event_queue
  pub same_context : r1.execution_context ≡ r.execution_context
  pub new_connection : r1.new_connection_event ≡ r.new_connection_event
  pub done : r1.done_event ≡ r.done_event
  pub reading : r.read_event.pending ≡ true → r1.read_event.pending ≡ true
  pub writing : r.write_event.pending ≡ true → r1.write_event.pending ≡ true
  pub finishing : r.finish_event.pending ≡ true → r1.finish_event.pending ≡ true
  pub connected : is_connected r1.log ≡ is_connected r.log
  pub pushed : r.write_needed_events ≤ r1.write_needed_events

pub Keeps-refl : (r : Rpc) → Keeps r r
Keeps-refl r = ground arith

pub Keeps-trans : (r r1 r2 : Rpc) → Keeps r r1 → Keeps r1 r2 → Keeps r r2
Keeps-trans r r1 r2 f g = ground arith

module _ (r0 : Rpc) where
  start_read-Keeps : (r : Rpc) → Keeps r0 r → Ensures (Keeps r0) (start_read r)
  unfolding start_read
  start_read-Keeps r f = elim (Outcome-cases (async_reader_interface r.rpc_type r.interfaces)) [
    | inl (j, e) ↦ ground arith
    | inr (k, e) ↦ ground arith
  ]

  -- The calls of a handler keep all that.
  pub Keeps-IsKept : IsKept (Keeps r0)
  unfolding enqueue_message
  Keeps-IsKept = record {
    enqueues = λ item r f. ground arith;
    calls = λ past r f. ground arith;
    reads = start_read-Keeps;
  }

-- HandleSendQueue also pushes no event.
pub record Sends (r r1 : Rpc) : Type 0 where
  pub keeps : Keeps r r1
  pub same_pushed : r1.write_needed_events ≡ r.write_needed_events

send_item-Sends :
    (t : RpcType) (item : SendItem) (rest : List SendItem) (r : Rpc)
    → r.rpc_type ≡ t
    → Ensures (Sends r) (send_item item (record r { send_queue = rest }))
unfolding send_item
send_item-Sends normal_rpc item rest r e = ground arith
send_item-Sends client_streaming item rest r e = ground arith
send_item-Sends server_streaming item rest r e = ground arith
send_item-Sends bidi_streaming item rest r e = ground arith

send_front-Sends :
    (q : List SendItem) (r : Rpc)
    → Ensures (Sends r) (send_front q (r.write_event.pending || r.finish_event.pending) r)
unfolding send_front
send_front-Sends [] r = record { keeps = Keeps-refl r; same_pushed = refl }
send_front-Sends (item ∷ rest) r =
    elim (Bool-cases (r.write_event.pending || r.finish_event.pending)) [
      | inl busy ↦ rw busy (record { keeps = Keeps-refl r; same_pushed = refl })
      | inr free ↦ rw free (send_item-Sends r.rpc_type item rest r refl)
    ]

pub handle_send_queue-Sends : (r : Rpc) → Ensures (Sends r) (handle_send_queue r)
unfolding handle_send_queue
handle_send_queue-Sends r = send_front-Sends r.send_queue r
