-- ===== src/Server/Building.antt =====
-- The builders that the methods of Server::Builder (async_grpc/server.h) make, and what Build
-- (async_grpc/server.cc) makes of them.
use async_grpc.Base.{◌≡◌, false, none, List, [], ◌∷◌, ok, All}
use async_grpc.Rpc.Types.{Name}
use async_grpc.Server.Maps.{name_eq, find}
use async_grpc.Server.Builder.{
  Options, Builder, ServiceInfo, DescriptorPool, RpcHandlerType, new_builder, with_options,
  register_handler,
}
use async_grpc.Server.Lifecycle.{Server}

module _ {ℓ} {A : Type ℓ} where
  -- No name stands twice.
  abbrev DistinctNames : List (Name × A) → Type ℓ
  DistinctNames [] = Unit
  DistinctNames ((n, a) ∷ m) = (find n m ≡ none) × DistinctNames m

-- The builders that the constructor, the setters, which change the options only, and RegisterHandler
-- make.
pub data Configured {D : Type 0} (pool : DescriptorPool) : Builder D → Type 0 where
  begins : (probability : D) → Configured pool (new_builder probability)
  sets :
      {b : Builder D} (f : Options D → Options D)
      → Configured pool b
      → Configured pool (with_options f b)
  registers :
      {b c : Builder D} (h : RpcHandlerType)
      → Configured pool b
      → register_handler pool h b ≡ ok c
      → Configured pool c

module _ {D : Type 0} where
  -- None of the names is taken.
  abbrev AllFree : List (Name × ServiceInfo) → Server D → Type 0
  AllFree m s = All (λ e. find e.0 s.services ≡ none) m

  record Added (name : Name) (s t : Server D) : Type 0 where
    others :
        (n : Name) → name_eq n name ≡ false → find n s.services ≡ none → find n t.services ≡ none
