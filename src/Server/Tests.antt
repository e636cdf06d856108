-- ===== src/Server/Tests.antt =====
-- A server for one bidirectional method, "/ab/c" (async_grpc/server.cc).
use async_grpc.Base.{
  ℕ, ◌≡◌, ◌↔◌, ◌⊎◌, refl, true, false, ◌&&◌, Option, none, some, List, [], ◌∷◌, ◌++◌, Outcome, ok,
  fault, is_empty, if◌then◌else◌, arith,
}
use async_grpc.Rpc.Types.{Name, bidi_streaming, Callback, Action}
use async_grpc.Server.Names.{
  HasNoSlash, full_name, after_slash, parse_method_full_name, parse_method_full_name-full_name,
  parse_method_full_name_sound,
}
use async_grpc.Server.Maps.{name_eq, or_new}
use async_grpc.Server.Builder.{
  Builder, MethodDescriptor, DescriptorPool, RpcHandlerType, new_builder, set_num_grpc_threads,
  set_num_event_threads, register_handler, check_handler_compatibility, info_of,
}
use async_grpc.Server.Builder.Registry.{
  IsKnown, find_handler, register_handler-IsKnown, register_handler-find_handler,
}

-- "ab" and "c".
abbrev ab : Name
ab = 97 ∷ 98 ∷ []

abbrev c : Name
c = 99 ∷ []

ab-HasNoSlash : HasNoSlash ab
ab-HasNoSlash = ground arith

c-HasNoSlash : HasNoSlash c
c-HasNoSlash = ground arith

parse_method_full_name-full_name_example :
    (parse_method_full_name (full_name ab c) ≡ ok (ab, c))
    × (parse_method_full_name (full_name ab (c ++ after_slash ab)) ≡ ok (ab, c))
parse_method_full_name-full_name_example =
    parse_method_full_name-full_name ab c ab ab-HasNoSlash c-HasNoSlash refl refl

parse_method_full_name_sound_example :
    HasNoSlash ab
    × HasNoSlash c
    × (is_empty ab ≡ false)
    × (is_empty c ≡ false)
    × ((full_name ab c ≡ full_name ab c)
        ⊎ ((more : Name) × (full_name ab c ≡ full_name ab (c ++ after_slash more))))
unfolding parse_method_full_name
parse_method_full_name_sound_example = parse_method_full_name_sound (full_name ab c) ab c refl

abbrev method : MethodDescriptor
method = record {
  input_type = 0;
  output_type = 1;
  client_streaming = true;
  server_streaming = true;
}

unfoldable find_c : Name → Option MethodDescriptor
unfolding name_eq
find_c name = if name_eq name c then some method else none

unfoldable pool : DescriptorPool
unfolding find_c name_eq
pool name = if name_eq name ab then some find_c else none

abbrev quiet : List Callback → List Action
quiet past = []

abbrev handler : RpcHandlerType
handler = record {
  method_name = full_name ab c;
  request_type = 0;
  response_type = 1;
  stream_type = bidi_streaming;
  factory = quiet;
}

unfoldable builder : Builder ℕ
unfolding new_builder set_num_grpc_threads set_num_event_threads
builder = set_num_grpc_threads 2 (set_num_event_threads 1 (new_builder 1))

abbrev or_else {ℓ} : {A : Type ℓ} → A → Outcome A → A
or_else a (ok b) = b
or_else a (fault e) = a

unfoldable registered : Builder ℕ
unfolding builder register_handler
registered = or_else builder (register_handler pool handler builder)

register_handler-IsKnown_example :
    ((b : Builder ℕ) × (register_handler pool handler builder ≡ ok b)) ↔ IsKnown pool handler
register_handler-IsKnown_example = register_handler-IsKnown pool handler builder

register_handler-find_handler_example :
    (registered.options ≡ builder.options)
    × (find_handler ab c registered.rpc_handlers ≡ (
        if name_eq ab ab && name_eq c c
        then some (or_new (info_of handler) (find_handler ab c builder.rpc_handlers))
        else find_handler ab c builder.rpc_handlers))
unfolding registered register_handler parse_method_full_name check_handler_compatibility pool find_c
    builder
register_handler-find_handler_example =
    register_handler-find_handler pool handler builder registered ab c ab c refl refl
