-- ===== src/Base/Assoc.antt =====
-- A std::map from pointers to values, as an association list. Pointers are numbers.
use Prim.Native.Nat.{ℕ}
use mathlib.Core.Path.{◌≡◌, refl}
use mathlib.Core.Logic.{◌≢◌}
use mathlib.Core.Option.{Option, none, some}
use mathlib.Core.List.{List, [], ◌∷◌}
use native.Mathlib.Omega.{arith}
use async_grpc.Base.Tests.{◌==◌, if◌then◌else◌}
use async_grpc.Base.Lists.{All}

module _ {ℓ} {V : Type ℓ} where
  unfoldable pub lookup : ℕ → List (ℕ × V) → Option V
  lookup k [] = none
  lookup k ((j, v) ∷ m) = if j == k then some v else lookup k m

  -- The write through a pointer; a key that is not there changes nothing.
  unfoldable pub update : ℕ → V → List (ℕ × V) → List (ℕ × V)
  update k v [] = []
  update k v ((j, w) ∷ m) = if j == k then (j, v) ∷ m else (j, w) ∷ update k v m

  unfoldable pub erase : ℕ → List (ℕ × V) → List (ℕ × V)
  erase k [] = []
  erase k ((j, w) ∷ m) = if j == k then m else (j, w) ∷ erase k m

  -- Every key is below the bound, and no key stands twice.
  abbrev Absent : ℕ → List (ℕ × V) → Type 0
  Absent k = All λ e. e.0 ≢ k

  abbrev pub Distinct : List (ℕ × V) → Type 0
  Distinct [] = Unit {0}
  Distinct ((j, w) ∷ m) = Absent j m × Distinct m

  pub lookup-update :
      (k j : ℕ) (v w : V) (m : List (ℕ × V))
      → lookup k m ≡ some w
      → lookup j (update k v m) ≡ (if k == j then some v else lookup j m)
  unfolding lookup update
  lookup-update k j v w [] h = ground arith
  lookup-update k j v w ((i, u) ∷ m) h = ground (arith, lookup-update k j v w m)

  -- Of two writes the later one stays, and a write is lost with what it was written to.
  pub update-update :
      (k : ℕ) (v w : V) (m : List (ℕ × V)) → update k w (update k v m) ≡ update k w m
  unfolding update
  update-update k v w [] = refl
  update-update k v w ((i, u) ∷ m) = ground (arith, update-update k v w m)

  pub erase-update : (k : ℕ) (v : V) (m : List (ℕ × V)) → erase k (update k v m) ≡ erase k m
  unfolding update erase
  erase-update k v [] = refl
  erase-update k v ((i, u) ∷ m) = ground (arith, erase-update k v m)

  pub update-same : (k : ℕ) (v : V) (m : List (ℕ × V)) → lookup k m ≡ some v → update k v m ≡ m
  unfolding lookup update
  update-same k v [] e = refl
  update-same k v ((i, u) ∷ m) e = ground (arith, update-same k v m)

  lookup-Absent : (k : ℕ) (m : List (ℕ × V)) → Absent k m → lookup k m ≡ none
  unfolding lookup
  lookup-Absent k [] a = refl
  lookup-Absent k ((i, u) ∷ m) a = ground (arith, lookup-Absent k m a.1)

  pub Absent-lookup : (k : ℕ) (m : List (ℕ × V)) → lookup k m ≡ none → Absent k m
  unfolding lookup
  Absent-lookup k [] e = tt
  Absent-lookup k ((i, u) ∷ m) e = (λ h. ground arith, Absent-lookup k m (ground arith))

  Absent-update : (k j : ℕ) (v : V) (m : List (ℕ × V)) → Absent j m → Absent j (update k v m)
  unfolding update
  Absent-update k j v [] a = tt
  Absent-update k j v ((i, u) ∷ m) a = ground (arith, Absent-update k j v m a.1)

  Absent-erase : (k j : ℕ) (m : List (ℕ × V)) → Absent j m → Absent j (erase k m)
  unfolding erase
  Absent-erase k j [] a = tt
  Absent-erase k j ((i, u) ∷ m) a = ground (arith, Absent-erase k j m a.1)

  pub Distinct-update : (k : ℕ) (v : V) (m : List (ℕ × V)) → Distinct m → Distinct (update k v m)
  unfolding update
  Distinct-update k v [] d = tt
  Distinct-update k v ((i, u) ∷ m) d =
      ground (arith, Distinct-update k v m d.1, Absent-update k i v m d.0)

  pub Distinct-erase : (k : ℕ) (m : List (ℕ × V)) → Distinct m → Distinct (erase k m)
  unfolding erase
  Distinct-erase k [] d = tt
  Distinct-erase k ((i, u) ∷ m) d = ground (arith, Distinct-erase k m d.1, Absent-erase k i m d.0)

  -- With distinct keys, what is erased is gone and the rest is kept.
  pub lookup-erase :
      (k j : ℕ) (m : List (ℕ × V))
      → Distinct m
      → lookup j (erase k m) ≡ (if k == j then none else lookup j m)
  unfolding lookup erase
  lookup-erase k j [] d = ground arith
  lookup-erase k j ((i, u) ∷ m) d = ground (arith, lookup-erase k j m d.1, lookup-Absent i m d.0)
