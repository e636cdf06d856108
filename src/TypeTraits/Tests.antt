-- ===== src/TypeTraits/Tests.antt =====
-- The traits (async_grpc/rpc_service_method_traits.h) of a concrete concept.
use async_grpc.Base.{◌≡◌, some, [], ◌∷◌, ◌↔◌}
use async_grpc.Rpc.Types.{client_streaming}
use async_grpc.TypeTraits.{
  Concept, Traits, Describes, message_type, stream, rpc_service_method_traits,
  rpc_service_method_traits_iff,
}

-- A stream of messages 4, answered by one message 5.
abbrev sum_concept : Concept
sum_concept = record {
  method_name = some (47 ∷ 83 ∷ 47 ∷ 115 ∷ []);
  incoming_type = some (stream (message_type 4));
  outgoing_type = some (message_type 5);
}

abbrev sum_traits : Traits
sum_traits = record {
  method_name = 47 ∷ 83 ∷ 47 ∷ 115 ∷ [];
  request_type = message_type 4;
  response_type = message_type 5;
  stream_type = client_streaming;
}

rpc_service_method_traits_iff_example :
    (rpc_service_method_traits sum_concept ≡ some sum_traits) ↔ Describes sum_concept sum_traits
rpc_service_method_traits_iff_example = rpc_service_method_traits_iff sum_concept sum_traits
