-- ===== src/RpcHandler/Context.antt =====
-- The fields of RpcHandler (async_grpc/rpc_handler.h), and its access to the server's
-- ExecutionContext (async_grpc/execution_context.h), whose mutex the Synchronized object holds.
use async_grpc.Base.{
  ℕ, ◌≡◌, refl, Bool, true, false, Option, none, some, List, Outcome, ok, ◌>>=◌, or_fault,
  null_dereference, use_after_free, Bool-cases, Option-cases, inl, inr, arith, if◌then◌else◌,
}
use async_grpc.Base.Assoc.{lookup, update, lookup-update}

-- The pointers rpc_ and execution_context_, by address; a null pointer is `none`.
pub record RpcHandler : Type 0 where
  pub rpc : Option ℕ
  pub execution_context : Option ℕ

abbrev new_handler : RpcHandler
new_handler = record { rpc = none; execution_context = none }

unfoldable pub set_rpc : ℕ → RpcHandler → RpcHandler
set_rpc p h = record h { rpc = some p }

unfoldable pub set_execution_context : Option ℕ → RpcHandler → RpcHandler
set_execution_context c h = record h { execution_context = c }

-- The factory that RegisterHandler makes, up to Initialize.
unfoldable pub make_handler : ℕ → Option ℕ → RpcHandler
unfolding set_rpc set_execution_context
make_handler p c = set_execution_context c (set_rpc p new_handler)

-- The mutexes of the contexts, by the addresses of these: whether they are held.
abbrev pub Locks : Type 0
Locks = List (ℕ × Bool)

-- ExecutionContext::Synchronized, by the context whose mutex it holds: its constructor, which waits
-- while another one holds it (`none`), and its destructor.
unfoldable pub synchronize : ℕ → Locks → Outcome (Option (ℕ × Locks))
unfolding lookup update
synchronize c locks = do
  held ← or_fault use_after_free (lookup c locks)
  ok (if held then none else some (c, update c true locks))

unfoldable pub release : ℕ → Locks → Locks
unfolding update
release c locks = update c false locks

-- RpcHandler::GetContext.
unfoldable pub get_context : RpcHandler → Locks → Outcome (Option (ℕ × Locks))
unfolding synchronize
get_context h locks = do c ← or_fault null_dereference h.execution_context; synchronize c locks

-- RpcHandler::GetUnsynchronizedContext; `is_a` says which contexts have the type that is asked for.
unfoldable pub get_unsynchronized_context : (ℕ → Bool) → RpcHandler → Option ℕ
get_unsynchronized_context is_a h = elim h.execution_context [
  | none ↦ none
  | some c ↦ if is_a c then some c else none
]

pub record Got (h : RpcHandler) (c : ℕ) (locks locks1 : Locks) : Type 0 where
  pub the_context : h.execution_context ≡ some c
  pub was_free : lookup c locks ≡ some false
  pub taken : locks1 ≡ update c true locks

pub get_context-Got :
    (h : RpcHandler) (c : ℕ) (locks locks1 : Locks)
    → get_context h locks ≡ ok (some (c, locks1))
    → Got h c locks locks1
unfolding get_context
get_context-Got h c locks locks1 e = elim (Option-cases h.execution_context) [
  | inl n ↦ absurd (ground arith)
  | inr (d, at) ↦ elim (Option-cases (lookup d locks)) [
    | inl n ↦ absurd (ground arith)
    | inr (held, there) ↦ elim (Bool-cases held) [
      | inl busy ↦ absurd (ground arith)
      | inr free ↦ record {
        the_context = ground arith;
        was_free = ground arith;
        taken = ground arith;
      }
    ]
  ]
]

-- While a handler uses the context, every handler of the server that asks for it waits, and once it
-- has let go, the next one gets it.
pub get_context-excludes :
    (g h : RpcHandler) (c : ℕ) (locks locks1 : Locks)
    → g.execution_context ≡ h.execution_context
    → get_context h locks ≡ ok (some (c, locks1))
    → (get_context g locks1 ≡ ok none)
      × (get_context g (release c locks1) ≡ ok (some (c, update c true (release c locks1))))
unfolding get_context release
get_context-excludes g h c locks locks1 same e =
    let got : Got h c locks locks1 = get_context-Got h c locks locks1 e in
    let held : lookup c locks1 ≡ some true =
      ground (arith, got.taken, lookup-update c c true false locks got.was_free) in
    let free : lookup c (release c locks1) ≡ some false =
      ground (arith, lookup-update c c false true locks1 held) in
    (rw (same, got.the_context) (rw held refl), rw (same, got.the_context) (rw free refl))
