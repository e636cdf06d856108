-- ===== src/Rpc/Waiting.antt =====
-- What an Rpc (async_grpc/rpc.cc) is for: its method, its completion queue and its handler's info,
-- which no method of the object changes.
use async_grpc.Base.{ℕ, ◌≡◌, true, Outcome, Ensures, arith, Outcome-cases, inl, inr}
use async_grpc.Rpc.Types.{Event, RpcHandlerInfo, Rpc}
use async_grpc.Rpc.Construct.{
  request_next_method_invocation, streaming_interface, async_reader_interface,
}
use async_grpc.Rpc.Calls.{enqueue_message, start_read, on_connection}
use async_grpc.Rpc.Kept.{IsKept, on_connection-kept}
use async_grpc.Rpc.Lifecycle.{complete}

pub record IsFor (i c : ℕ) (info : RpcHandlerInfo) (r : Rpc) : Type 0 where
  pub method : r.method_index ≡ i
  pub completion_queue : r.server_completion_queue ≡ c
  pub handler_info : r.rpc_handler_info ≡ info

-- It waits for a call to come in.
pub record IsWaiting (i c : ℕ) (info : RpcHandlerInfo) (r : Rpc) : Type 0 where
  pub purpose : IsFor i c info r
  pub requested : r.new_connection_event.pending ≡ true

module _ (i c : ℕ) (info : RpcHandlerInfo) where
  complete-IsFor :
      (event : Event) (r : Rpc) → IsFor i c info r → Ensures (IsFor i c info) (complete event r)
  unfolding complete
  complete-IsFor Event.new_connection r f = ground arith
  complete-IsFor Event.read r f = ground arith
  complete-IsFor Event.write_needed r f = tt
  complete-IsFor Event.write r f = ground arith
  complete-IsFor Event.finish r f = ground arith
  complete-IsFor Event.done r f = ground arith

  pub request_next-IsWaiting :
      (r : Rpc) → IsFor i c info r → Ensures (IsWaiting i c info) (request_next_method_invocation r)
  unfolding request_next_method_invocation
  request_next-IsWaiting r f = elim (Outcome-cases (streaming_interface r.rpc_type r.interfaces)) [
    | inl (j, e) ↦ ground arith
    | inr (k, e) ↦ ground arith
  ]

  start_read-IsFor : (r : Rpc) → IsFor i c info r → Ensures (IsFor i c info) (start_read r)
  unfolding start_read
  start_read-IsFor r f = elim (Outcome-cases (async_reader_interface r.rpc_type r.interfaces)) [
    | inl (j, e) ↦ ground arith
    | inr (k, e) ↦ ground arith
  ]

  IsFor-IsKept : IsKept (IsFor i c info)
  unfolding enqueue_message
  IsFor-IsKept = record {
    enqueues = λ item r f. ground arith;
    calls = λ past r f. ground arith;
    reads = start_read-IsFor;
  }

  pub on_connection-IsFor :
      (weak_ptr_factory : ℕ → Outcome ℕ) (r : Rpc)
      → IsFor i c info r
      → Ensures (IsFor i c info) (on_connection weak_ptr_factory r)
  on_connection-IsFor weak_ptr_factory r f =
      on_connection-kept (IsFor i c info) IsFor-IsKept weak_ptr_factory r f
