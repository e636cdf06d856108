-- ===== src/Server/Builder/Registry.antt =====
-- Which handlers Builder::RegisterHandler (async_grpc/server.h) accepts, and what it registers.
use async_grpc.Base.{
  ◌≡◌, ◌↔◌, refl, sym, ap, subst, Bool, true, false, ◌&&◌, Option, some, List, [], ok,
  if◌then◌else◌, arith, Option-cases, Outcome-cases, inl, inr,
}
use async_grpc.Rpc.Types.{
  Name, RpcType, normal_rpc, client_streaming, server_streaming, bidi_streaming, RpcHandlerInfo,
}
use async_grpc.Server.Names.{parse_method_full_name}
use async_grpc.Server.Maps.{find, emplace, name_eq, name_eq_iff, or_new, find-emplace, find-assign}
use async_grpc.Server.Builder.{
  Builder, MethodDescriptor, DescriptorPool, RpcHandlerType, ServiceInfo, check_streaming,
  check_method, check_handler_compatibility, info_of, service_info, emplace_handler,
  register_handler,
}

-- Whether the client, and whether the server, sends a stream in a call of the type.
abbrev pub client_streams : RpcType → Bool
client_streams normal_rpc = false
client_streams client_streaming = true
client_streams server_streaming = false
client_streams bidi_streaming = true

abbrev pub server_streams : RpcType → Bool
server_streams normal_rpc = false
server_streams client_streaming = false
server_streams server_streaming = true
server_streams bidi_streaming = true

-- The handler is one for the method with the descriptor.
pub record Suits (h : RpcHandlerType) (d : MethodDescriptor) : Type 0 where
  pub same_input : h.request_type ≡ d.input_type
  pub same_output : h.response_type ≡ d.output_type
  pub same_client : client_streams h.stream_type ≡ d.client_streaming
  pub same_server : server_streams h.stream_type ≡ d.server_streaming

-- The method that the handler names exists, and the handler is one for it.
abbrev pub IsKnown : DescriptorPool → RpcHandlerType → Type 0
IsKnown pool h =
    (service : Name) × (method : Name) × (find_method : Name → Option MethodDescriptor)
    × (d : MethodDescriptor) × (parse_method_full_name h.method_name ≡ ok (service, method))
    × (pool service ≡ some find_method)
    × (find_method method ≡ some d)
    × Suits h d

check_streaming_iff :
    (t : RpcType) (d : MethodDescriptor)
    → (check_streaming t d ≡ ok tt)
      ↔ ((client_streams t ≡ d.client_streaming) × (server_streams t ≡ d.server_streaming))
unfolding check_streaming
check_streaming_iff normal_rpc d = ground arith
check_streaming_iff client_streaming d = ground arith
check_streaming_iff server_streaming d = ground arith
check_streaming_iff bidi_streaming d = ground arith

check_method-Suits :
    (h : RpcHandlerType) (d : MethodDescriptor) → (check_method h d ≡ ok tt) ↔ Suits h d
unfolding check_method
check_method-Suits h d = ground (arith, check_streaming_iff h.stream_type d)

-- Protobuf knows the method, and the handler is one for it.
abbrev IsMethod : DescriptorPool → RpcHandlerType → Name → Name → Type 0
IsMethod pool h service method =
    (find_method : Name → Option MethodDescriptor) × (d : MethodDescriptor) × (pool service
      ≡ some find_method)
    × (find_method method ≡ some d)
    × Suits h d

check_handler_compatibility-IsMethod :
    (pool : DescriptorPool) (h : RpcHandlerType) (service method : Name)
    → (check_handler_compatibility pool h service method ≡ ok tt) ↔ IsMethod pool h service method
unfolding check_handler_compatibility
check_handler_compatibility-IsMethod pool h service method = (
  λ e. elim (Option-cases (pool service)) [
    | inl n ↦ absurd (ground arith)
    | inr (f, q) ↦ elim (Option-cases (f method)) [
      | inl n ↦ absurd (ground arith)
      | inr (d, r) ↦ (f, d, q, r, (check_method-Suits h d).0 (rw (q, r) at e))
    ]
  ],
  λ (f, d, q, r, suits). rw (q, r) ((check_method-Suits h d).1 suits),
)

module _ {D : Type 0} (pool : DescriptorPool) (h : RpcHandlerType) (b : Builder D) where
  -- RegisterHandler returns exactly if the name of the handler's method has its two parts, protobuf
  -- knows the method, and the handler agrees with it in both message types and in which sides
  -- stream.
  pub register_handler-IsKnown :
      ((b' : Builder D) × (register_handler pool h b ≡ ok b')) ↔ IsKnown pool h
  unfolding register_handler
  register_handler-IsKnown = (
    λ (b', e). elim (Outcome-cases (parse_method_full_name h.method_name)) [
      | inr (f, q) ↦ absurd (ground arith)
      | inl ((service, method), q) ↦
          elim (Outcome-cases (check_handler_compatibility pool h service method)) [
            | inr (f, r) ↦ absurd (ground arith)
            | inl (u, r) ↦
                let (f, d, known, there, suits) =
                  (check_handler_compatibility-IsMethod pool h service method).0 r in
                (service, method, f, d, q, known, there, suits)
          ]
    ],
    λ (service, method, f, d, q, known, there, suits).
        rw
          (
            q,
            (check_handler_compatibility-IsMethod pool h service method).1
                (f, d, known, there, suits),
          )
          (_, refl),
  )

-- The handler of a method of a service.
abbrev pub find_handler : Name → Name → List (Name × ServiceInfo) → Option RpcHandlerInfo
find_handler service method m = find method (service_info service m)

name_eq_refl : (a : Name) → name_eq a a ≡ true
name_eq_refl a = (name_eq_iff a a).1 refl

service_info-emplace_handler :
    (service method n : Name) (info : RpcHandlerInfo) (m : List (Name × ServiceInfo))
    → service_info n (emplace_handler service method info m) ≡ (
        if name_eq n service
        then (emplace method info (service_info service m)).0
        else service_info n m)
unfolding emplace_handler service_info
service_info-emplace_handler service method n info m = ground (
  arith,
  find-emplace service service [] m,
  find-emplace service n [] m,
  name_eq_refl service,
  find-assign service n (emplace method info (service_info service m)).0 (service_info service m)
      (emplace service [] m).0,
)

find_handler-emplace_handler :
    (service method n k : Name) (info : RpcHandlerInfo) (m : List (Name × ServiceInfo))
    → find_handler n k (emplace_handler service method info m) ≡ (
        if name_eq n service && name_eq k method
        then some (or_new info (find_handler service method m))
        else find_handler n k m)
find_handler-emplace_handler service method n k info m = ground (
  arith,
  service_info-emplace_handler service method n info m,
  find-emplace method k info (service_info service m),
  name_eq_iff n service,
)

-- RegisterHandler, where it returns, changes nothing but the handler of the method that the handler
-- names: that method's handler is then the one that was first registered for it, and every other
-- method, of whatever service, has the handler that it had.
pub register_handler-find_handler :
    {D : Type 0} (pool : DescriptorPool) (h : RpcHandlerType) (b b' : Builder D)
    (service method n k : Name)
    → parse_method_full_name h.method_name ≡ ok (service, method)
    → register_handler pool h b ≡ ok b'
    → (b'.options ≡ b.options)
      × (find_handler n k b'.rpc_handlers ≡ (
          if name_eq n service && name_eq k method
          then some (or_new (info_of h) (find_handler service method b.rpc_handlers))
          else find_handler n k b.rpc_handlers))
unfolding register_handler
register_handler-find_handler pool h b b' service method n k q e =
    elim (Outcome-cases (check_handler_compatibility pool h service method)) [
      | inr (f, r) ↦ absurd (ground arith)
      | inl (u, r) ↦
          let same : record b {
            rpc_handlers = emplace_handler service method (info_of h) b.rpc_handlers;
          }
              ≡ b' =
            ground arith in
          (
            ap (λ x. x.options) (sym same),
            subst
                (λ x. find_handler n k x.rpc_handlers ≡ (
                  if name_eq n service && name_eq k method
                  then some (or_new (info_of h) (find_handler service method b.rpc_handlers))
                  else find_handler n k b.rpc_handlers))
                same (find_handler-emplace_handler service method n k (info_of h) b.rpc_handlers),
          )
    ]
