-- ===== src/Server/Builder.antt =====
-- Server::Builder (async_grpc/server.h, server.cc): the options, and the handlers by service and
-- method. The pool of descriptors that protobuf generates is an argument; a descriptor is a number.
pub mod Registry
use async_grpc.Base.{
  ◌*◌, ℕ, ◌≡◌, Bool, true, false, not, Option, none, some, List, [], ◌∷◌, String, Outcome, ok,
  fault, ◌>>=◌, ◌>>◌, check, or_fault, check_failed, log_fatal, ◌==◌, ltb, if◌then◌else◌,
}
use async_grpc.Base.Integers.{ℤ, pos, is_positive}
use async_grpc.Rpc.Types.{
  Name, RpcType, normal_rpc, client_streaming, server_streaming, bidi_streaming, Callback, Action,
  RpcHandlerInfo,
}
use async_grpc.Server.Names.{parse_method_full_name}
use async_grpc.Server.Maps.{find, or_new, emplace, assign}

-- Server::Options. The two numbers of threads have no value until they are set. `D` is double.
pub record Options (D : Type 0) : Type 0 where
  pub num_grpc_threads : Option ℕ
  pub num_event_threads : Option ℕ
  pub server_address : String
  pub max_receive_message_size : ℤ
  pub max_send_message_size : ℤ
  pub enable_tracing : Bool
  pub tracing_sampler_probability : D
  pub tracing_task_name : String
  pub tracing_gcp_project_id : String

-- kDefaultMaxMessageSize.
abbrev default_max_message_size : ℤ
default_max_message_size = pos (10 * 1024 * 1024)

-- The handlers of one service, by method.
abbrev pub ServiceInfo : Type 0
ServiceInfo = List (Name × RpcHandlerInfo)

pub record Builder (D : Type 0) : Type 0 where
  pub options : Options D
  pub rpc_handlers : List (Name × ServiceInfo)

-- google::protobuf::MethodDescriptor.
pub record MethodDescriptor : Type 0 where
  pub input_type : ℕ
  pub output_type : ℕ
  pub client_streaming : Bool
  pub server_streaming : Bool

-- DescriptorPool::FindServiceByName, and ServiceDescriptor::FindMethodByName of what it finds.
abbrev pub DescriptorPool : Type 0
DescriptorPool = Name → Option (Name → Option MethodDescriptor)

-- The type RpcHandlerType of a registration, with its RpcServiceMethod.
pub record RpcHandlerType : Type 0 where
  pub method_name : Name
  pub request_type : ℕ
  pub response_type : ℕ
  pub stream_type : RpcType
  pub factory : List Callback → List Action

module _ {D : Type 0} where
  -- Builder(), with kDefaultTracingSamplerProbability.
  unfoldable pub new_builder : D → Builder D
  new_builder probability = record {
    options = record {
      num_grpc_threads = none;
      num_event_threads = none;
      server_address = "";
      max_receive_message_size = default_max_message_size;
      max_send_message_size = default_max_message_size;
      enable_tracing = false;
      tracing_sampler_probability = probability;
      tracing_task_name = "";
      tracing_gcp_project_id = "";
    };
    rpc_handlers = [];
  }

  abbrev pub with_options : (Options D → Options D) → Builder D → Builder D
  with_options f b = record b { options = f b.options }

  unfoldable pub set_num_grpc_threads : ℕ → Builder D → Builder D
  set_num_grpc_threads n b = with_options (λ o. record o { num_grpc_threads = some n }) b

  unfoldable pub set_num_event_threads : ℕ → Builder D → Builder D
  set_num_event_threads n b = with_options (λ o. record o { num_event_threads = some n }) b

  unfoldable set_server_address : String → Builder D → Builder D
  set_server_address a b = with_options (λ o. record o { server_address = a }) b

  unfoldable set_max_receive_message_size : ℤ → Builder D → Outcome (Builder D)
  set_max_receive_message_size n b = do
    check (is_positive n)
    ok (with_options (λ o. record o { max_receive_message_size = n }) b)

  unfoldable set_max_send_message_size : ℤ → Builder D → Outcome (Builder D)
  set_max_send_message_size n b = do
    check (is_positive n)
    ok (with_options (λ o. record o { max_send_message_size = n }) b)

  -- EnableTracing, in a build with or without BUILD_TRACING.
  unfoldable enable_tracing : Bool → Builder D → Outcome (Builder D)
  enable_tracing true b = ok (with_options (λ o. record o { enable_tracing = true }) b)
  enable_tracing false b = fault log_fatal

  unfoldable disable_tracing : Builder D → Builder D
  disable_tracing b = with_options (λ o. record o { enable_tracing = false }) b

  unfoldable set_tracing_sampler_probability : D → Builder D → Builder D
  set_tracing_sampler_probability p b =
      with_options (λ o. record o { tracing_sampler_probability = p }) b

  unfoldable set_tracing_task_name : String → Builder D → Builder D
  set_tracing_task_name n b = with_options (λ o. record o { tracing_task_name = n }) b

  unfoldable set_tracing_gcp_project_id : String → Builder D → Builder D
  set_tracing_gcp_project_id n b = with_options (λ o. record o { tracing_gcp_project_id = n }) b

-- The switch of CheckHandlerCompatibility.
unfoldable check_streaming : RpcType → MethodDescriptor → Outcome (Unit {0})
check_streaming normal_rpc d = do check (not d.client_streaming); check (not d.server_streaming)
check_streaming client_streaming d = do check d.client_streaming; check (not d.server_streaming)
check_streaming server_streaming d = do check (not d.client_streaming); check d.server_streaming
check_streaming bidi_streaming d = do check d.client_streaming; check d.server_streaming

-- The rest of CheckHandlerCompatibility, on the descriptor of the method.
unfoldable check_method : RpcHandlerType → MethodDescriptor → Outcome (Unit {0})
unfolding check_streaming
check_method h d = do
  check (h.request_type == d.input_type)
  check (h.response_type == d.output_type)
  check_streaming h.stream_type d

-- Builder::CheckHandlerCompatibility.
unfoldable pub check_handler_compatibility :
    DescriptorPool → RpcHandlerType → Name → Name → Outcome (Unit {0})
unfolding check_method
check_handler_compatibility pool h service_full_name method_name = do
  service ← or_fault check_failed (pool service_full_name)
  method_descriptor ← or_fault check_failed (service method_name)
  check_method h method_descriptor

-- The RpcHandlerInfo of a registration.
abbrev pub info_of : RpcHandlerType → RpcHandlerInfo
info_of h = record {
  request_descriptor = h.request_type;
  response_descriptor = h.response_type;
  rpc_handler_factory = h.factory;
  rpc_type = h.stream_type;
  fully_qualified_name = h.method_name;
}

-- rpc_handlers_[service_full_name], which makes an empty map where there is none.
unfoldable pub service_info : Name → List (Name × ServiceInfo) → ServiceInfo
unfolding find
service_info service m = or_new [] (find service m)

-- rpc_handlers_[service_full_name].emplace(method_name, info).
unfoldable pub emplace_handler :
    Name → Name → RpcHandlerInfo → List (Name × ServiceInfo) → List (Name × ServiceInfo)
unfolding emplace assign service_info
emplace_handler service method info m =
    assign service ((emplace method info (service_info service m)).0) ((emplace service [] m).0)

-- Builder::RegisterHandler.
unfoldable pub register_handler :
    {D : Type 0} → DescriptorPool → RpcHandlerType → Builder D → Outcome (Builder D)
unfolding parse_method_full_name check_handler_compatibility emplace_handler
register_handler pool h b = do
  (service_full_name, method_name) ← parse_method_full_name h.method_name
  check_handler_compatibility pool h service_full_name method_name
  ok (record b {
    rpc_handlers = emplace_handler service_full_name method_name (info_of h) b.rpc_handlers;
  })
