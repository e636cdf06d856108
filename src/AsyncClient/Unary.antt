-- ===== src/AsyncClient/Unary.antt =====
-- The asynchronous client of a unary method (async_grpc/async_client.h).
use async_grpc.Base.{
  ◌≡◌, refl, Bool, true, false, none, some, [], ◌∷◌, ◌>>=◌, Returns, if◌then◌else◌,
}
use async_grpc.Rpc.Types.{Message, Status, is_ok}
use async_grpc.AsyncClient.{
  AsyncClient, finish, start_call, start_finish, construct, write_unary, handle_unary_event,
}

-- gRPC fills the status and the response of the call, and returns the tag.
abbrev pub answered : Status → Message → AsyncClient → AsyncClient
answered status response c = record c { finish_status = status; response = response }

-- A unary call from WriteAsync to the end, for every answer of gRPC: one call is started and one
-- finish is asked for, and the callback, if there is one, is called once, with gRPC's status, and
-- with the response exactly if that status is OK.
unary_call_back :
    (callback : Bool) (status : Status) (response : Message)
    → Returns
        (λ c.
          (c.operations ≡ start_finish ∷ start_call ∷ [])
          × (c.calls ≡ (
              if callback
              then record {
                status = status;
                response = if is_ok status then some response else none;
              }
                ∷ []
              else [])))
        (write_unary (construct callback) >>= λ c.
          handle_unary_event finish (answered status response c))
unfolding write_unary handle_unary_event construct
unary_call_back true status response = (refl, refl)
unary_call_back false status response = (refl, refl)
