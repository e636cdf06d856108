-- ===== src/Rpc/Serve.antt =====
-- The callbacks of an Rpc (async_grpc/rpc.cc, OnConnection, OnRequest, OnReadsDone, OnFinish) keep
-- its invariant, whatever the handler does at them.
use mathlib.Core.List.{append-nil}
use async_grpc.Base.{
  ℕ, ◌≡◌, refl, inl, inr, true, false, none, some, List, [], ◌∷◌, Outcome, ok, Returns, Returns->>=,
  Returns-map, arith, Option-cases, ◌>>=◌,
}
use async_grpc.Rpc.Types.{
  RpcType, normal_rpc, client_streaming, server_streaming, bidi_streaming, Event, Action, Callback,
  Rpc,
}
use async_grpc.Rpc.Construct.{initialize_readers_and_writers}
use async_grpc.Rpc.Contract.{replay}
use async_grpc.Rpc.Calls.{
  call_handler, on_request, on_reads_done, streaming_read_if_needed,
  request_streaming_read_if_needed, on_connection,
}
use async_grpc.Rpc.Actions.{after_actions, call_handler_lem, instantiate_handler_lem}
use async_grpc.Rpc.Lifecycle.{complete}
use async_grpc.Rpc.Invariant.{Inv, IsAwake, view, is_connected, is_finished}
use async_grpc.Rpc.Preserve.{Good, start_read-Inv, after_actions-Inv}

-- Between the return of the NEW_CONNECTION event and the call of OnConnection.
pub record Connecting (r : Rpc) : Type 0 where
  pub follows : replay r.log ≡ some (view r)
  pub arrived : r.new_connection_event.pending ≡ false
  pub connected : is_connected r.log ≡ true
  pub unread : r.read_event.pending ≡ false
  pub unwritten : r.write_event.pending ≡ false
  pub unfinished : r.finish_event.pending ≡ false
  pub unserved : r.handler ≡ none
  pub quiet : r.send_queue ≡ []
  pub closing : r.finish_event.pending ≡ true → is_finished r.log ≡ true
  pub whole : r.interfaces ≡ initialize_readers_and_writers r.rpc_type

pub record Arrived (r r' : Rpc) : Type 0 where
  pub connecting : Connecting r'
  pub same : r'.this ≡ r.this
  pub same_ok : r'.new_connection_event.ok ≡ r.new_connection_event.ok

pub complete-Connecting :
    (r : Rpc)
    → Inv r
    → r.new_connection_event.pending ≡ true
    → Returns (Arrived r) (complete Event.new_connection r)
unfolding complete replay
complete-Connecting r v p = ground arith

-- A connected object that is fit to serve.
pub record Serving (r : Rpc) : Type 0 where
  pub inv : Inv r
  pub awake : IsAwake r
  pub connected : is_connected r.log ≡ true

-- What a callback keeps.
pub record Called (r r' : Rpc) : Type 0 where
  pub good : Good r r'
  pub serving : Serving r'
  pub same_read : r'.read_event ≡ r.read_event

Good-trans : (r r1 r2 : Rpc) → Good r r1 → Good r1 r2 → Good r r2
Good-trans r r1 r2 g h = ground arith

module _ (weak_ptr_factory : ℕ → Outcome ℕ) where
  call_handler-Called :
      (c : Callback) (past : List Callback) (acts : List Action) (r : Rpc)
      → r.handler ≡ some past
      → Serving r
      → Called r (after_actions acts (record r { handler = some (c ∷ past) }))
  call_handler-Called c past acts r e v =
      let r1 : Rpc = record r { handler = some (c ∷ past) } in
      let g : Good r1 (after_actions acts r1) =
        after_actions-Inv acts r1 (ground arith) v.awake v.connected in
      ground (arith, g)

  pub call_handler-Serving :
      (c : Callback) (r : Rpc)
      → weak_ptr_factory r.this ≡ ok r.this
      → Serving r
      → Returns (Called r) (call_handler weak_ptr_factory c r)
  call_handler-Serving c r w v = elim (Option-cases r.handler) [
    | inl e ↦ absurd (ground (arith, v.inv.served))
    | inr (past, e) ↦
        rw (call_handler_lem weak_ptr_factory c past r w e)
          (call_handler-Called c past (r.rpc_handler_factory (c ∷ past)) r e v)
  ]

  -- A request that came with the connection: OnRequest, and then OnReadsDone.
  request_in_full :
      (r : Rpc)
      → weak_ptr_factory r.this ≡ ok r.this
      → Serving r
      → Returns (Good r) (on_request weak_ptr_factory r >>= on_reads_done weak_ptr_factory)
  unfolding on_request on_reads_done
  request_in_full r w v =
      Returns->>= (Called r) (Good r) _ _
        (call_handler-Serving (Callback.on_request r.request) r w v)
        λ r1 called.
          Returns-map (Called r1) (Good r) _
            (call_handler-Serving Callback.on_reads_done r1 (rw called.good.same w) called.serving)
            (λ r2 again. Good-trans r r1 r2 called.good again.good)

  -- RequestStreamingReadIfNeeded, once the last read has come back.
  read_if_needed-Serving :
      (t : RpcType) (r : Rpc)
      → r.rpc_type ≡ t
      → weak_ptr_factory r.this ≡ ok r.this
      → Serving r
      → r.read_event.pending ≡ false
      → Returns (Good r) (streaming_read_if_needed weak_ptr_factory t r)
  unfolding streaming_read_if_needed
  read_if_needed-Serving bidi_streaming r e w v n =
      start_read-Inv bidi_streaming r e refl v.inv v.awake v.connected n
  read_if_needed-Serving client_streaming r e w v n =
      start_read-Inv client_streaming r e refl v.inv v.awake v.connected n
  read_if_needed-Serving normal_rpc r e w v n = request_in_full r w v
  read_if_needed-Serving server_streaming r e w v n = request_in_full r w v

  -- Rpc::RequestStreamingReadIfNeeded.
  pub request_streaming_read_if_needed-Serving :
      (r : Rpc)
      → weak_ptr_factory r.this ≡ ok r.this
      → Serving r
      → r.read_event.pending ≡ false
      → Returns (Good r) (request_streaming_read_if_needed weak_ptr_factory r)
  unfolding request_streaming_read_if_needed
  request_streaming_read_if_needed-Serving r w v n = read_if_needed-Serving r.rpc_type r refl w v n

  instantiated-Serving :
      (acts : List Action) (past : List Callback) (r : Rpc)
      → Connecting r
      → Serving (record (after_actions acts r) { handler = some past })
  instantiated-Serving [] past r k = ground (arith, append-nil r.send_queue)
  instantiated-Serving (act ∷ acts) past r k = ground arith

  -- Rpc::OnConnection.
  pub on_connection-Serving :
      (r : Rpc)
      → weak_ptr_factory r.this ≡ ok r.this
      → Connecting r
      → Returns (Good r) (on_connection weak_ptr_factory r)
  unfolding on_connection
  on_connection-Serving r w k =
      simp (k.unserved, instantiate_handler_lem weak_ptr_factory r w)
        (Returns-map (Good ready) (Good r) _
          (request_streaming_read_if_needed-Serving ready w (instantiated-Serving acts past r k)
            k.unread)
          (λ r2 g. ground (arith, g, k.connected)))
    where
      past : List Callback
      past = Callback.initialize ∷ []

      acts : List Action
      acts = r.rpc_handler_factory past

      ready : Rpc
      ready = record (after_actions acts r) { handler = some past }
