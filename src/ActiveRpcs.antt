-- ===== src/ActiveRpcs.antt =====
-- ActiveRpcs (async_grpc/rpc.h, rpc.cc): the RPCs of a service that are in flight, by address. The
-- map holds the shared_ptr of each, so an object that is taken out of it is destroyed, unless a
-- weak_ptr was locked before.
use async_grpc.Base.{
  ℕ, Option, none, some, List, ◌∷◌, Outcome, ok, fault, check_failed, Bool, true, false, log_fatal,
  is_empty, if◌then◌else◌,
}
use async_grpc.Base.Assoc.{lookup, erase}

module _ {ℓ} {A : Type ℓ} where
  -- The CHECK of a find that must succeed.
  abbrev pub found : Option A → Bool
  found none = false
  found (some a) = true

  -- ActiveRpcs::Add: emplace, and the CHECK that the key was not there.
  unfoldable pub add : ℕ → A → List (ℕ × A) → Outcome (List (ℕ × A))
  unfolding lookup
  add p rpc rpcs = if found (lookup p rpcs) then fault check_failed else ok ((p, rpc) ∷ rpcs)

  -- ActiveRpcs::Remove.
  unfoldable pub remove : ℕ → List (ℕ × A) → List (ℕ × A) × Bool
  unfolding lookup erase
  remove p rpcs = if found (lookup p rpcs) then (erase p rpcs, true) else (rpcs, false)

  -- ActiveRpcs::GetWeakPtr, behind ActiveRpcs::GetWeakPtrFactory. A weak_ptr is the address.
  unfoldable pub get_weak_ptr : List (ℕ × A) → ℕ → Outcome ℕ
  unfolding lookup
  get_weak_ptr rpcs p = if found (lookup p rpcs) then ok p else fault check_failed

  -- std::weak_ptr::lock: the object, if it is still there.
  unfoldable pub lock : List (ℕ × A) → ℕ → Option A
  unfolding lookup
  lock rpcs p = lookup p rpcs

  -- ActiveRpcs::~ActiveRpcs.
  unfoldable destroy : List (ℕ × A) → Outcome (Unit {0})
  destroy rpcs = if is_empty rpcs then ok tt else fault log_fatal
