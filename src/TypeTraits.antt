-- ===== src/TypeTraits.antt =====
-- The types of a service method: Strip, StripStream and RpcType (async_grpc/type_traits.h), and
-- RpcServiceMethodTraits (async_grpc/rpc_service_method_traits.h). C++ types are data here, a class
-- template's partial specialisations are clauses, and `none` is a program that does not compile.
mod Tests
use async_grpc.Base.{
  ℕ, ◌≡◌, refl, inl, inr, Bool, true, false, ◌&&◌, Option, none, some, ◌↔◌, arith, if◌then◌else◌,
  Option-cases,
}
use async_grpc.Server.Builder.Registry.{client_streams, server_streams}
use async_grpc.Rpc.Types.{
  Name, RpcType, normal_rpc, client_streaming, server_streaming, bidi_streaming,
}

-- A C++ type: a class that is derived from ::google::protobuf::Message, some other type, or an
-- async_grpc::Stream.
pub data CppType : Type 0 where
  message_type : ℕ → CppType
  other_type : ℕ → CppType
  stream : CppType → CppType

-- StripStream, by Strip and its specialisation.
unfoldable strip_stream : CppType → CppType
strip_stream (stream t) = t
strip_stream t = t

-- RpcType and its specialisations, the most special one first.
unfoldable pub rpc_type : CppType → CppType → RpcType
rpc_type (stream incoming) (stream outgoing) = bidi_streaming
rpc_type (stream incoming) outgoing = client_streaming
rpc_type incoming (stream outgoing) = server_streaming
rpc_type incoming outgoing = normal_rpc

-- std::is_base_of<::google::protobuf::Message, …>.
unfoldable is_message : CppType → Bool
is_message (message_type n) = true
is_message (other_type n) = false
is_message (stream t) = false

-- A class that may describe a method, by those of its members that count: the static function
-- MethodName with its signature, and the types IncomingType and OutgoingType.
pub record Concept : Type 0 where
  pub method_name : Option Name
  pub incoming_type : Option CppType
  pub outgoing_type : Option CppType

-- The members of RpcServiceMethodTraits.
pub record Traits : Type 0 where
  pub method_name : Name
  pub request_type : CppType
  pub response_type : CppType
  pub stream_type : RpcType

-- The last two static_asserts, and the members.
unfoldable traits_of : Name → CppType → CppType → Option Traits
unfolding strip_stream rpc_type is_message
traits_of name incoming outgoing =
    if is_message (strip_stream incoming) && is_message (strip_stream outgoing)
    then some record {
      method_name = name;
      request_type = strip_stream incoming;
      response_type = strip_stream outgoing;
      stream_type = rpc_type incoming outgoing;
    }
    else none

-- RpcServiceMethodTraits, whose first three static_asserts ask for the members of the concept.
unfoldable traits_with : Option Name → Option CppType → Option CppType → Option Traits
unfolding traits_of
traits_with (some name) (some incoming) (some outgoing) = traits_of name incoming outgoing
traits_with _ _ _ = none

unfoldable pub rpc_service_method_traits : Concept → Option Traits
unfolding traits_with
rpc_service_method_traits c = traits_with c.method_name c.incoming_type c.outgoing_type

-- The type that a concept gives for a message, or for a stream of messages.
abbrev declared_type : Bool → ℕ → CppType
declared_type true n = stream (message_type n)
declared_type false n = message_type n

-- The concept of a method, with the numbers of its messages.
abbrev declared : Name → RpcType → ℕ → ℕ → Concept
declared name t request response = record {
  method_name = some name;
  incoming_type = some (declared_type (client_streams t) request);
  outgoing_type = some (declared_type (server_streams t) response);
}

-- The traits that a method ought to have.
abbrev intended : Name → RpcType → ℕ → ℕ → Traits
intended name t request response = record {
  method_name = name;
  request_type = message_type request;
  response_type = message_type response;
  stream_type = t;
}

-- A concept is the description of a method, whose traits are the given ones.
pub record Describes (c : Concept) (x : Traits) : Type 0 where
  pub request : ℕ
  pub response : ℕ
  pub is_declared : c ≡ declared x.method_name x.stream_type request response
  pub is_intended : x ≡ intended x.method_name x.stream_type request response

declared_sound :
    (name : Name) (t : RpcType) (request response : ℕ)
    → rpc_service_method_traits (declared name t request response)
      ≡ some (intended name t request response)
unfolding rpc_service_method_traits
declared_sound name normal_rpc request response = refl
declared_sound name client_streaming request response = refl
declared_sound name server_streaming request response = refl
declared_sound name bidi_streaming request response = refl

-- A type that is accepted for a direction.
declared_complete :
    (t : CppType)
    → is_message (strip_stream t) ≡ true
    → (b : Bool) × (n : ℕ) × (t ≡ declared_type b n)
unfolding is_message strip_stream
declared_complete (message_type n) h = (false, n, refl)
declared_complete (other_type n) h = absurd (ground arith)
declared_complete (stream (message_type n)) h = (true, n, refl)
declared_complete (stream (other_type n)) h = absurd (ground arith)
declared_complete (stream (stream t)) h = absurd (ground arith)

abbrev concept_of : Name → CppType → CppType → Concept
concept_of name incoming outgoing = record {
  method_name = some name;
  incoming_type = some incoming;
  outgoing_type = some outgoing;
}

described :
    (name : Name) (b d : Bool) (n m : ℕ) (x : Traits)
    → traits_of name (declared_type b n) (declared_type d m) ≡ some x
    → Describes (concept_of name (declared_type b n) (declared_type d m)) x
unfolding traits_of
described name true true n m x e = record {
  request = n;
  response = m;
  is_declared = ground arith;
  is_intended = ground arith;
}
described name true false n m x e = record {
  request = n;
  response = m;
  is_declared = ground arith;
  is_intended = ground arith;
}
described name false true n m x e = record {
  request = n;
  response = m;
  is_declared = ground arith;
  is_intended = ground arith;
}
described name false false n m x e = record {
  request = n;
  response = m;
  is_declared = ground arith;
  is_intended = ground arith;
}

traits_of-Describes :
    (name : Name) (incoming outgoing : CppType) (x : Traits)
    → traits_of name incoming outgoing ≡ some x
    → Describes (concept_of name incoming outgoing) x
unfolding traits_of
traits_of-Describes name incoming outgoing x e =
    let (b, n, at) = declared_complete incoming (ground arith) in
    let (d, m, to) = declared_complete outgoing (ground arith) in
    rw (at, to) (described name b d n m x (rw (at, to) at e))

traits_with-Describes :
    (name : Option Name) (incoming outgoing : Option CppType) (x : Traits)
    → traits_with name incoming outgoing ≡ some x
    → Describes
        (record { method_name = name; incoming_type = incoming; outgoing_type = outgoing })
        x
unfolding traits_with
traits_with-Describes (some name) (some incoming) (some outgoing) x e =
    traits_of-Describes name incoming outgoing x e
traits_with-Describes none incoming outgoing x e = absurd (ground arith)
traits_with-Describes (some name) none outgoing x e = absurd (ground arith)
traits_with-Describes (some name) (some incoming) none x e = absurd (ground arith)

-- RpcServiceMethodTraits compiles for exactly those concepts that describe a method: with a name,
-- and with a message or a stream of messages in each direction. The traits are then the method's:
-- the messages without the streams, and the type of call that has a stream where the concept has
-- one. So the traits and the concept determine each other.
pub rpc_service_method_traits_iff :
    (c : Concept) (x : Traits) → (rpc_service_method_traits c ≡ some x) ↔ Describes c x
unfolding rpc_service_method_traits
rpc_service_method_traits_iff c x = (
  λ e. traits_with-Describes c.method_name c.incoming_type c.outgoing_type x e,
  λ d.
      rw (d.is_declared)
        (rw (← d.is_intended) at (declared_sound x.method_name x.stream_type d.request d.response)),
)
