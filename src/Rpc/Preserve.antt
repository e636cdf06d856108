-- ===== src/Rpc/Preserve.antt =====
-- The methods of Rpc (async_grpc/rpc.cc) keep its invariant, and none of them faults.
use mathlib.Core.List.{append-nil}
use async_grpc.Base.{
  Option, ℕ, ◌≡◌, refl, ◌≢◌, inl, inr, Bool, true, false, ◌||◌, List, [], ◌∷◌, Returns, arith,
  Bool-cases,
}
use async_grpc.Rpc.Types.{
  RpcType, normal_rpc, client_streaming, server_streaming, bidi_streaming, Event, Action,
  RpcHandlerInfo, SendItem, Rpc,
}
use async_grpc.Rpc.Construct.{
  request_next_method_invocation, initialize_readers_and_writers, construct,
}
use async_grpc.Rpc.Contract.{replay}
use async_grpc.Rpc.Sending.{send_item, send_front, handle_send_queue}
use async_grpc.Rpc.Calls.{start_read}
use async_grpc.Rpc.Actions.{after_actions}
use async_grpc.Rpc.Lifecycle.{complete}
use async_grpc.Rpc.Invariant.{Inv, IsAwake, is_connected}

-- What a method keeps of an object that is fit to serve.
pub record Good (r r' : Rpc) : Type 0 where
  pub inv : Inv r'
  pub awake : IsAwake r'
  pub same : r'.this ≡ r.this
  pub kind : r'.rpc_type ≡ r.rpc_type
  pub grown : is_connected r.log ≡ true → is_connected r'.log ≡ true

abbrev reads_stream : RpcType → Bool
reads_stream normal_rpc = false
reads_stream client_streaming = true
reads_stream server_streaming = false
reads_stream bidi_streaming = true

-- Whether the operation behind an event is outstanding.
abbrev pub is_pending : Event → Rpc → Bool
is_pending Event.new_connection r = r.new_connection_event.pending
is_pending Event.read r = r.read_event.pending
is_pending Event.write_needed r = false
is_pending Event.write r = r.write_event.pending
is_pending Event.finish r = r.finish_event.pending
is_pending Event.done r = r.done_event.pending

-- gRPC may hand the event's tag back: the operation is outstanding, and the tag of
-- AsyncNotifyWhenDone comes only for a call that has been connected.
abbrev pub Delivers : Event → Rpc → Type 0
Delivers Event.done r = (r.done_event.pending ≡ true) × (is_connected r.log ≡ true)
Delivers event r = is_pending event r ≡ true

-- What PerformFinish leaves: FINISH is pending, and the entry is the only new one.
send_item-Inv :
    (t : RpcType) (item : SendItem) (rest : List SendItem) (r : Rpc)
    → r.rpc_type ≡ t
    → Inv r
    → is_connected r.log ≡ true
    → (r.write_event.pending || r.finish_event.pending) ≡ false
    → Returns (Good r) (send_item item (record r { send_queue = rest }))
unfolding send_item initialize_readers_and_writers replay
send_item-Inv normal_rpc item rest r e v c w = ground arith
send_item-Inv client_streaming item rest r e v c w = ground arith
send_item-Inv server_streaming item rest r e v c w = ground arith
send_item-Inv bidi_streaming item rest r e v c w = ground arith

send_front-Inv :
    (q : List SendItem) (r : Rpc)
    → r.send_queue ≡ q
    → Inv r
    → Returns (Good r) (send_front q (r.write_event.pending || r.finish_event.pending) r)
unfolding send_front
send_front-Inv [] r e v = ground arith
send_front-Inv (item ∷ rest) r e v =
    elim (Bool-cases (r.write_event.pending || r.finish_event.pending)) [
      | inl busy ↦ rw busy (ground arith)
      | inr free ↦ rw free (send_item-Inv r.rpc_type item rest r refl v (ground arith) free)
    ]

-- Rpc::HandleSendQueue, whatever the flags: afterwards the send queue is awake.
pub handle_send_queue-Inv : (r : Rpc) → Inv r → Returns (Good r) (handle_send_queue r)
unfolding handle_send_queue
handle_send_queue-Inv r v = send_front-Inv r.send_queue r refl v

-- A read that may start.
pub start_read-Inv :
    (t : RpcType) (r : Rpc)
    → r.rpc_type ≡ t
    → reads_stream t ≡ true
    → Inv r
    → IsAwake r
    → is_connected r.log ≡ true
    → r.read_event.pending ≡ false
    → Returns (Good r) (start_read r)
unfolding start_read initialize_readers_and_writers replay
start_read-Inv normal_rpc r e t v a c n = cc
start_read-Inv client_streaming r e t v a c n = ground arith
start_read-Inv server_streaming r e t v a c n = cc
start_read-Inv bidi_streaming r e t v a c n = ground arith

-- The actions of a handler that is in place.
pub after_actions-Inv :
    (acts : List Action) (r : Rpc)
    → Inv r
    → IsAwake r
    → is_connected r.log ≡ true
    → Good r (after_actions acts r)
after_actions-Inv [] r v a c = ground (arith, append-nil r.send_queue)
after_actions-Inv (act ∷ acts) r v a c = ground arith

-- The object after an event other than NEW_CONNECTION has come back.
pub record Back (event : Event) (r r' : Rpc) : Type 0 where
  pub inv : Inv r'
  pub same : r'.this ≡ r.this
  pub ended : is_pending event r' ≡ false
  pub connected : is_connected r'.log ≡ true
  pub awake : event ≢ Event.write → IsAwake r → IsAwake r'

pub complete-Back :
    (event : Event) (r : Rpc)
    → event ≢ Event.new_connection
    → Inv r
    → Delivers event r
    → Returns (Back event r) (complete event r)
unfolding complete replay
complete-Back Event.new_connection r n v p = absurd (n refl)
complete-Back Event.read r n v p = ground arith
complete-Back Event.write_needed r n v p = cc
complete-Back Event.write r n v p = ground arith
complete-Back Event.finish r n v p = ground arith
complete-Back Event.done r n v p = ground arith

-- A new object may be put forward for the next call.
pub request_next-Good :
    (t : RpcType) (this i c q : ℕ) (context : Option ℕ) (info : RpcHandlerInfo)
    → info.rpc_type ≡ t
    → Returns
        (Good (construct this i c q context info))
        (request_next_method_invocation (construct this i c q context info))
unfolding request_next_method_invocation construct replay
request_next-Good normal_rpc this i c q context info e = ground arith
request_next-Good client_streaming this i c q context info e = ground arith
request_next-Good server_streaming this i c q context info e = ground arith
request_next-Good bidi_streaming this i c q context info e = ground arith
