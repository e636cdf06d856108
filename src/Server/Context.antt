-- ===== src/Server/Context.antt =====
-- Server::SetExecutionContext, GetContext and GetUnsynchronizedContext (async_grpc/server.h,
-- server.cc) beside those of the handlers (async_grpc/rpc_handler.h), on one ExecutionContext.
use async_grpc.Base.{
  ℕ, ◌≡◌, refl, Bool, true, false, Option, none, some, Outcome, ok, ◌>>=◌, or_fault, Returns,
  null_dereference, if◌then◌else◌,
}
use async_grpc.Base.Assoc.{lookup, update}
use async_grpc.RpcHandler.Context.{Locks, synchronize, release, make_handler, get_context-excludes}
use async_grpc.RpcHandler.Context
use async_grpc.Server.Lifecycle.{Server, set_execution_context}

synchronize-free :
    (c : ℕ) (locks : Locks)
    → lookup c locks ≡ some false
    → synchronize c locks ≡ ok (some (c, update c true locks))
unfolding synchronize
synchronize-free c locks free = rw free refl

-- The handlers of a server that has the context.
handler_turns :
    (p c : ℕ) (locks : Locks)
    → lookup c locks ≡ some false
    → (Context.get_context (make_handler p (some c)) (update c true locks) ≡ ok none)
      × (Context.get_context (make_handler p (some c)) (release c (update c true locks))
          ≡ ok (some (c, update c true (release c (update c true locks)))))
unfolding Context.get_context make_handler
handler_turns p c locks free =
    get_context-excludes (make_handler p (some c)) (make_handler p (some c)) c locks
      (update c true locks) refl (synchronize-free c locks free)

module _ {D : Type 0} where
  unfoldable pub get_context : Server D → Locks → Outcome (Option (ℕ × Locks))
  unfolding synchronize
  get_context s locks = do c ← or_fault null_dereference s.execution_context; synchronize c locks

  -- `is_a` says which contexts have the type that is asked for.
  unfoldable pub get_unsynchronized_context : (ℕ → Bool) → Server D → Option ℕ
  get_unsynchronized_context is_a s = elim s.execution_context [
    | none ↦ none
    | some c ↦ if is_a c then some c else none
  ]

  -- What SetExecutionContext with the context `c` makes true of the server `s`, as the server and the
  -- handlers that are made with its context see it: both get `c`, one at a time.
  pub record IsShared (c : ℕ) (locks : Locks) (s : Server D) : Type 0 where
    pub gets : get_context s locks ≡ ok (some (c, update c true locks))
    pub waits :
        (p : ℕ)
        → Context.get_context (make_handler p s.execution_context) (update c true locks) ≡ ok none
    pub gets_next :
        (p : ℕ)
        → Context.get_context (make_handler p s.execution_context) (release c (update c true locks))
          ≡ ok (some (c, update c true (release c (update c true locks))))
    pub unsynchronized :
        (p : ℕ) (is_a : ℕ → Bool)
        → Context.get_unsynchronized_context is_a (make_handler p s.execution_context)
          ≡ get_unsynchronized_context is_a s

  -- Setting a context whose mutex is free, on a server that has not started, returns. From then on
  -- the server's GetContext gets that context; while it holds it, GetContext of every handler that is
  -- made with the server's context waits, and after that it gets it; and without the lock the server
  -- and these handlers see the same.
  set_execution_context-IsShared :
      (c : ℕ) (locks : Locks) (s : Server D)
      → s.server ≡ false
      → lookup c locks ≡ some false
      → Returns (IsShared c locks) (set_execution_context c s)
  unfolding set_execution_context get_context get_unsynchronized_context
      Context.get_unsynchronized_context make_handler
  set_execution_context-IsShared c locks s h free = rw h record {
    gets = synchronize-free c locks free;
    waits = λ p. (handler_turns p c locks free).0;
    gets_next = λ p. (handler_turns p c locks free).1;
    unsynchronized = λ p is_a. refl;
  }
