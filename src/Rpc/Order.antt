-- ===== src/Rpc/Order.antt =====
-- What an Rpc puts on the wire, and in which order (async_grpc/rpc.cc, Write, Finish and
-- HandleSendQueue).
use mathlib.Core.List.{append-nil, append_assoc, map-append}
use async_grpc.Base.{
  ℕ, ◌-◌, ◌≡◌, refl, sym, subst, ◌∙◌, Bool, true, false, ◌||◌, Option, none, some, List, [], ◌∷◌,
  ◌++◌, map, Outcome, ok, arith,
}
use async_grpc.Rpc.Types.{
  RpcType, normal_rpc, client_streaming, server_streaming, bidi_streaming, Event, Message, Status,
  Callback, Action, SendItem, Entry, Rpc,
}
use async_grpc.Rpc.Calls.{perform_actions, start_read}
use async_grpc.Rpc.Sending.{send_item, send_front, handle_send_queue}
use async_grpc.Rpc.Actions.{item_of, after_actions, perform_actions-eq_ok}
use async_grpc.Rpc.Lifecycle.{complete}

-- What the client gets to see: a message of a stream, or the end of the call with its last message.
pub data Wire : Type 0 where
  wrote : Message → Wire
  ended : Option Message → Status → Wire

-- What an item means for the client, by the type of the call: where the response is no stream, a
-- message ends the call.
abbrev wire_of : RpcType → Option Message → Status → Wire
wire_of t none s = ended none s
wire_of normal_rpc (some m) s = ended (some m) s
wire_of client_streaming (some m) s = ended (some m) s
wire_of server_streaming (some m) s = wrote m
wire_of bidi_streaming (some m) s = wrote m

abbrev pub as_wire : RpcType → SendItem → Wire
as_wire t item = wire_of t item.msg item.status

-- The log's entries that the client gets to see, the oldest first.
abbrev pub sent : List Entry → List Wire
sent [] = []
sent (Entry.start_write i m ∷ l) = sent l ++ wrote m ∷ []
sent (Entry.finish i s ∷ l) = sent l ++ ended none s ∷ []
sent (Entry.finish_unary i m s ∷ l) = sent l ++ ended (some m) s ∷ []
sent (Entry.finish_with_error i s ∷ l) = sent l ++ ended none s ∷ []
sent (_ ∷ l) = sent l

-- What has been sent, and what waits.
abbrev pub outgoing : Rpc → List Wire
outgoing r = sent r.log ++ map (as_wire r.rpc_type) r.send_queue

-- The same, by the type and with the items that are on their way.
pub record Same (r r' : Rpc) : Type 0 where
  pub same_outgoing : outgoing r' ≡ outgoing r
  pub same_type : r'.rpc_type ≡ r.rpc_type

send_item-Same :
    (t : RpcType) (item : SendItem) (rest : List SendItem) (r r' : Rpc)
    → r.rpc_type ≡ t
    → r.send_queue ≡ item ∷ rest
    → send_item item (record r { send_queue = rest }) ≡ ok r'
    → Same r r'
unfolding send_item
send_item-Same normal_rpc item rest r r' e q h = ground (
  arith,
  append_assoc (sent r.log) (as_wire normal_rpc item ∷ []) (map (as_wire normal_rpc) rest),
)
send_item-Same client_streaming item rest r r' e q h = ground (
  arith,
  append_assoc (sent r.log) (as_wire client_streaming item ∷ [])
      (map (as_wire client_streaming) rest),
)
send_item-Same server_streaming item rest r r' e q h = ground (
  arith,
  append_assoc (sent r.log) (as_wire server_streaming item ∷ [])
      (map (as_wire server_streaming) rest),
)
send_item-Same bidi_streaming item rest r r' e q h = ground (
  arith,
  append_assoc (sent r.log) (as_wire bidi_streaming item ∷ []) (map (as_wire bidi_streaming) rest),
)

pub handle_send_queue-Same : (r r' : Rpc) → handle_send_queue r ≡ ok r' → Same r r'
unfolding handle_send_queue
handle_send_queue-Same r r' h =
    by_queue r.send_queue (r.write_event.pending || r.finish_event.pending) refl h
  where
    by_queue :
        (q : List SendItem) (busy : Bool)
        → r.send_queue ≡ q
        → send_front q busy r ≡ ok r'
        → Same r r'
    by_queue [] busy e g = ground arith
    by_queue (item ∷ rest) true e g = ground arith
    by_queue (item ∷ rest) false e g = send_item-Same r.rpc_type item rest r r' refl e g

complete-Same : (event : Event) (r r' : Rpc) → complete event r ≡ ok r' → Same r r'
unfolding complete
complete-Same Event.new_connection r r' h = ground arith
complete-Same Event.read r r' h = ground arith
complete-Same Event.write_needed r r' h = cc
complete-Same Event.write r r' h = ground arith
complete-Same Event.finish r r' h = ground arith
complete-Same Event.done r r' h = ground arith

start_read-Same : (t : RpcType) (r r' : Rpc) → r.rpc_type ≡ t → start_read r ≡ ok r' → Same r r'
unfolding start_read
start_read-Same normal_rpc r r' e h = ground arith
start_read-Same client_streaming r r' e h = ground arith
start_read-Same server_streaming r r' e h = ground arith
start_read-Same bidi_streaming r r' e h = ground arith

-- What may happen to an object, with what its handler and its writers ask of it there.
pub data Moves (weak_ptr_factory : ℕ → Outcome ℕ) (r : Rpc) : List Action → Rpc → Type 0 where
  starts : Moves weak_ptr_factory r [] r
  acts :
      {r1 r2 : Rpc} {before : List Action} (wishes : List Action)
      → Moves weak_ptr_factory r before r1
      → perform_actions weak_ptr_factory wishes r1 ≡ ok r2
      → Moves weak_ptr_factory r (before ++ wishes) r2
  sends :
      {r1 r2 : Rpc} {before : List Action}
      → Moves weak_ptr_factory r before r1
      → handle_send_queue r1 ≡ ok r2
      → Moves weak_ptr_factory r before r2
  completes :
      {r1 r2 : Rpc} {before : List Action} (event : Event)
      → Moves weak_ptr_factory r before r1
      → complete event r1 ≡ ok r2
      → Moves weak_ptr_factory r before r2
  reads :
      {r1 r2 : Rpc} {before : List Action}
      → Moves weak_ptr_factory r before r1
      → start_read r1 ≡ ok r2
      → Moves weak_ptr_factory r before r2
  -- A callback is noted before the handler runs, and after Initialize.
  tells :
      {r1 : Rpc} {before : List Action} (past : Option (List Callback))
      → Moves weak_ptr_factory r before r1
      → Moves weak_ptr_factory r before (record r1 { handler = past })
  -- gRPC fills the request.
  fills :
      {r1 : Rpc} {before : List Action} (m : Message)
      → Moves weak_ptr_factory r before r1
      → Moves weak_ptr_factory r before (record r1 { request = m })
  -- An event thread takes a WRITE_NEEDED event from its queue.
  wakes :
      {r1 : Rpc} {before : List Action}
      → Moves weak_ptr_factory r before r1
      → Moves weak_ptr_factory r before
          (record r1 { write_needed_events = r1.write_needed_events - 1 })

-- What the wishes mean for the client.
abbrev wished : RpcType → List Action → List Wire
wished t wishes = map (as_wire t) (map item_of wishes)

record Grown (r : Rpc) (wishes : List Action) (r' : Rpc) : Type 0 where
  grown : outgoing r' ≡ outgoing r ++ wished r.rpc_type wishes
  typed : r'.rpc_type ≡ r.rpc_type

Same-Grown :
    (r r1 r2 : Rpc) (before : List Action) → Grown r before r1 → Same r1 r2 → Grown r before r2
Same-Grown r r1 r2 before g h = record {
  grown = h.same_outgoing ∙ g.grown;
  typed = h.same_type ∙ g.typed;
}

append-regroup :
    (f : SendItem → Wire) (l o : List Wire) (q p items : List SendItem)
    → l ++ map f q ≡ o ++ map f p
    → l ++ map f (q ++ items) ≡ o ++ map f (p ++ items)
append-regroup f l o q p items h =
    rw (map-append, map-append, ← append_assoc, h) (append_assoc o (map f p) (map f items))

act-Grown :
    (r r1 : Rpc) (before wishes : List Action)
    → Grown r before r1
    → Grown r (before ++ wishes) (after_actions wishes r1)
act-Grown r r1 before wishes g = record {
  grown = ground (
    arith,
    g.grown,
    g.typed,
    map-append item_of before wishes,
    append-regroup (as_wire r.rpc_type) (sent r1.log) (outgoing r) r1.send_queue
        (map item_of before) (map item_of wishes),
  );
  typed = g.typed;
}

module _ (weak_ptr_factory : ℕ → Outcome ℕ) where
  Moves-Grown :
      {r r' : Rpc} {wishes : List Action} → Moves weak_ptr_factory r wishes r' → Grown r wishes r'
  Moves-Grown {r} starts = record { grown = sym (append-nil (outgoing r)); typed = refl }
  Moves-Grown {r} (acts {r1} {r2} {before} wishes m e) =
      subst (Grown r (before ++ wishes))
        (sym (perform_actions-eq_ok weak_ptr_factory wishes r1 r2 e))
        (act-Grown r r1 before wishes (Moves-Grown m))
  Moves-Grown {r} (sends {r1} {r2} {before} m e) =
      Same-Grown r r1 r2 before (Moves-Grown m) (handle_send_queue-Same r1 r2 e)
  Moves-Grown {r} (completes {r1} {r2} {before} event m e) =
      Same-Grown r r1 r2 before (Moves-Grown m) (complete-Same event r1 r2 e)
  Moves-Grown {r} (reads {r1} {r2} {before} m e) =
      Same-Grown r r1 r2 before (Moves-Grown m) (start_read-Same r1.rpc_type r1 r2 refl e)
  Moves-Grown {r} (tells {r1} {before} past m) =
      let g = Moves-Grown m in record { grown = g.grown; typed = g.typed }
  Moves-Grown {r} (fills {r1} {before} x m) =
      let g = Moves-Grown m in record { grown = g.grown; typed = g.typed }
  Moves-Grown {r} (wakes {r1} {before} m) =
      let g = Moves-Grown m in record { grown = g.grown; typed = g.typed }

  -- Whatever happens to an object, in calls that return: what has been sent, followed by what still
  -- waits, is what it was, followed by the wishes of the handler and the writers in the order of
  -- their calls. No message is lost, doubled or overtaken.
  pub outgoing-Moves :
      {r r' : Rpc} {wishes : List Action}
      → Moves weak_ptr_factory r wishes r'
      → sent r'.log ++ map (as_wire r.rpc_type) r'.send_queue
        ≡ outgoing r ++ map (as_wire r.rpc_type) (map item_of wishes)
  outgoing-Moves m = ground (arith, Moves-Grown m)
