-- ===== src/Rpc/Drain.antt =====
-- HandleSendQueue (async_grpc/rpc.cc) takes the next item off the send queue of an Rpc that has no
-- write outstanding.
use async_grpc.Base.{
  ℕ, suc, ◌≤◌, ◌≡◌, refl, ◌⊎◌, inl, inr, true, false, ◌||◌, List, [], ◌∷◌, length, ok, Returns,
  Outcome-cases, arith,
}
use async_grpc.Rpc.Types.{
  RpcType, normal_rpc, client_streaming, server_streaming, bidi_streaming, Event, SendItem, Entry,
  Rpc,
}
use async_grpc.Rpc.Sending.{send_item, handle_send_queue, is_null, has_unary_response}
use async_grpc.Rpc.Lifecycle.{complete}
use async_grpc.Rpc.Invariant.{Inv, is_connected}
use async_grpc.Rpc.Preserve.{Good, Back, complete-Back, handle_send_queue-Inv}
use async_grpc.Rpc.Order.{Same, handle_send_queue-Same}

-- Only the last item ends the call.
abbrev pub Orderly : RpcType → List SendItem → Type 0
Orderly t [] = Unit
Orderly t (item ∷ rest) =
    (((is_null item.msg || has_unary_response t) ≡ false) ⊎ (rest ≡ [])) × Orderly t rest

pub record Draining (r : Rpc) : Type 0 where
  pub inv : Inv r
  pub connected : is_connected r.log ≡ true
  pub open_end : (r.send_queue ≡ []) ⊎ (r.finish_event.pending ≡ false)
  pub orderly : Orderly r.rpc_type r.send_queue

-- What an item leaves of the object.
record Sent (rest : List SendItem) (r r' : Rpc) : Type 0 where
  queue : r'.send_queue ≡ rest
  ending : (rest ≡ []) ⊎ (r'.finish_event.pending ≡ false)
  going : (rest ≡ []) ⊎ (r'.write_event.pending ≡ true)
  same_done : r'.done_event ≡ r.done_event

send_item-Sent :
    (t : RpcType) (item : SendItem) (rest : List SendItem) (r r' : Rpc)
    → r.rpc_type ≡ t
    → r.finish_event.pending ≡ false
    → ((is_null item.msg || has_unary_response t) ≡ false) ⊎ (rest ≡ [])
    → send_item item (record r { send_queue = rest }) ≡ ok r'
    → Sent rest r r'
unfolding send_item
send_item-Sent normal_rpc item rest r r' e f o h = ground arith
send_item-Sent client_streaming item rest r r' e f o h = ground arith
send_item-Sent server_streaming item rest r r' e f o h = ground arith
send_item-Sent bidi_streaming item rest r r' e f o h = ground arith

abbrev pub tail : List SendItem → List SendItem
tail [] = []
tail (item ∷ rest) = rest

Orderly-tail : (t : RpcType) (q : List SendItem) → Orderly t q → Orderly t (tail q)
Orderly-tail t [] o = tt
Orderly-tail t (item ∷ rest) o = o.1

pub tail-length : (q : List SendItem) (n : ℕ) → length q ≤ suc n → length (tail q) ≤ n
tail-length [] n l = omega arith
tail-length (item ∷ rest) n l = omega arith

pub length_zero : (q : List SendItem) → length q ≤ 0 → q ≡ []
length_zero [] l = refl
length_zero (item ∷ rest) l = absurd (omega arith)

handle_send_queue-Sent :
    (q : List SendItem) (r r' : Rpc)
    → r.send_queue ≡ q
    → Draining r
    → r.write_event.pending ≡ false
    → handle_send_queue r ≡ ok r'
    → Sent (tail q) r r'
unfolding handle_send_queue
handle_send_queue-Sent [] r r' q d w e = ground arith
handle_send_queue-Sent (item ∷ rest) r r' q d w e =
    send_item-Sent r.rpc_type item rest r r' refl (ground (arith, d.open_end))
      (ground (arith, d.orderly)) (ground (arith, d.open_end))

-- One round of an object that drains.
pub record Round (r r' : Rpc) : Type 0 where
  pub draining : Draining r'
  pub same : Same r r'
  pub shorter : r'.send_queue ≡ tail r.send_queue
  pub same_done : r'.done_event ≡ r.done_event
  pub going : (r'.send_queue ≡ []) ⊎ (r'.write_event.pending ≡ true)

pub idle-Round :
    (r : Rpc) → Draining r → r.write_event.pending ≡ false → Returns (Round r) (handle_send_queue r)
idle-Round r d w = elim (Outcome-cases (handle_send_queue r)) [
  | inr (k, e) ↦ absurd (rw e at (handle_send_queue-Inv r d.inv))
  | inl (r', e) ↦
      let g : Good r r' = rw e at (handle_send_queue-Inv r d.inv) in
      let s : Sent (tail r.send_queue) r r' = handle_send_queue-Sent r.send_queue r r' refl d w e in
      rw e record {
        draining = record {
          inv = g.inv;
          connected = g.grown d.connected;
          open_end = ground (arith, s.ending, s.queue);
          orderly = rw (s.queue, g.kind) (Orderly-tail r.rpc_type r.send_queue d.orderly);
        };
        same = handle_send_queue-Same r r' e;
        shorter = s.queue;
        same_done = s.same_done;
        going = ground (arith, s.going, s.queue);
      }
]

unfoldable pub completed_write : Rpc → Rpc
completed_write r = record r {
  write_event = record (r.write_event) { pending = false };
  log = Entry.completed Event.write ∷ r.log;
}

pub completed_write-Draining :
    (r : Rpc) → Draining r → r.write_event.pending ≡ true → Draining (completed_write r)
unfolding completed_write complete
completed_write-Draining r d w =
    let b : Back Event.write r (completed_write r) =
      complete-Back Event.write r (λ h. cc) d.inv w in
    record { inv = b.inv; connected = b.connected; open_end = d.open_end; orderly = d.orderly }

pub completed : (r : Rpc) → complete Event.write r ≡ ok (completed_write r)
unfolding completed_write complete
completed r = refl
