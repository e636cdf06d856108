-- ===== src/Rpc/Kept.antt =====
-- The rule for the calls between an Rpc and its handler (async_grpc/rpc.cc): a predicate that the
-- steps keep of which these calls are made is kept by the calls.
use async_grpc.Base.{
  ℕ, Option, none, some, List, [], ◌∷◌, Outcome, Ensures, Ensures->>=, ◌>>=◌, Option-cases,
  Outcome-cases, inl, inr,
}
use async_grpc.Rpc.Types.{
  RpcType, normal_rpc, client_streaming, server_streaming, bidi_streaming, Action, send, finish_rpc,
  status_ok, Callback, SendItem, Rpc,
}
use async_grpc.Rpc.Calls.{
  enqueue_message, push_write_needed, write, finish, perform_actions, call_handler, on_request,
  on_reads_done, start_read, streaming_read_if_needed, request_streaming_read_if_needed,
  instantiate_handler, on_connection,
}

-- An item and its event are pushed, a callback is made, a read is started.
pub record IsKept (P : Rpc → Type 0) : Type 0 where
  pub enqueues : (item : SendItem) (r : Rpc) → P r → P (push_write_needed (enqueue_message item r))
  pub calls : (past : List Callback) (r : Rpc) → P r → P (record r { handler = some past })
  pub reads : (r : Rpc) → P r → Ensures P (start_read r)

module _ (P : Rpc → Type 0) (k : IsKept P) (weak_ptr_factory : ℕ → Outcome ℕ) where
  perform_actions-kept :
      (acts : List Action) (r : Rpc) → P r → Ensures P (perform_actions weak_ptr_factory acts r)
  unfolding perform_actions write finish
  perform_actions-kept [] r h = h
  perform_actions-kept (send m ∷ next) r h = elim (Outcome-cases (weak_ptr_factory r.this)) [
    | inl (q, e) ↦
        rw e (
          perform_actions-kept next _
            (k.enqueues (record { msg = some m; status = status_ok }) r h))
    | inr (f, e) ↦ rw e tt
  ]
  perform_actions-kept (finish_rpc s ∷ next) r h = elim (Outcome-cases (weak_ptr_factory r.this)) [
    | inl (q, e) ↦
        rw e (perform_actions-kept next _ (k.enqueues (record { msg = none; status = s }) r h))
    | inr (f, e) ↦ rw e tt
  ]

  pub call_handler-kept :
      (c : Callback) (r : Rpc) → P r → Ensures P (call_handler weak_ptr_factory c r)
  unfolding call_handler
  call_handler-kept c r h = elim (Option-cases r.handler) [
    | inl e ↦ rw e tt
    | inr (past, e) ↦ rw e (
        perform_actions-kept (r.rpc_handler_factory (c ∷ past))
          (record r { handler = some (c ∷ past) }) (k.calls (c ∷ past) r h))
  ]

  request_in_full :
      (r : Rpc) → P r → Ensures P (on_request weak_ptr_factory r >>= on_reads_done weak_ptr_factory)
  unfolding on_request on_reads_done
  request_in_full r h =
      Ensures->>= P P _ _ (call_handler-kept (Callback.on_request r.request) r h)
        (λ r1 g. call_handler-kept Callback.on_reads_done r1 g)

  read_if_needed-kept :
      (t : RpcType) (r : Rpc) → P r → Ensures P (streaming_read_if_needed weak_ptr_factory t r)
  unfolding streaming_read_if_needed
  read_if_needed-kept normal_rpc r h = request_in_full r h
  read_if_needed-kept client_streaming r h = k.reads r h
  read_if_needed-kept server_streaming r h = request_in_full r h
  read_if_needed-kept bidi_streaming r h = k.reads r h

  -- Rpc::RequestStreamingReadIfNeeded.
  pub request_streaming_read-kept :
      (r : Rpc) → P r → Ensures P (request_streaming_read_if_needed weak_ptr_factory r)
  unfolding request_streaming_read_if_needed
  request_streaming_read-kept r h = read_if_needed-kept r.rpc_type r h

  instantiate_handler-kept :
      (h : Option (List Callback)) (r : Rpc)
      → P r
      → Ensures P (instantiate_handler weak_ptr_factory h r)
  unfolding instantiate_handler
  instantiate_handler-kept (some past) r h = h
  instantiate_handler-kept none r h =
      Ensures->>= P P _ _
        (perform_actions-kept (r.rpc_handler_factory (Callback.initialize ∷ [])) r h)
        (λ r1 g. k.calls (Callback.initialize ∷ []) r1 g)

  -- Rpc::OnConnection.
  pub on_connection-kept : (r : Rpc) → P r → Ensures P (on_connection weak_ptr_factory r)
  unfolding on_connection
  on_connection-kept r h =
      Ensures->>= P P _ _ (instantiate_handler-kept r.handler r h)
        (λ r1 g. request_streaming_read-kept r1 g)
