-- ===== src/Server/Maps.antt =====
-- A std::map whose keys are std::strings, as Server and its Builder (async_grpc/server.h) keep them:
-- an association list in the order of the keys.
use async_grpc.Base.{
  ◌≡◌, ◌↔◌, refl, Bool, true, false, ◌&&◌, Option, none, some, List, [], ◌∷◌, ltb, ◌==◌,
  if◌then◌else◌, arith, ==_iff, Option-cases, inl, inr,
}
use async_grpc.Rpc.Types.{Name}

-- operator== and operator< of std::string.
unfoldable pub name_eq : Name → Name → Bool
name_eq [] [] = true
name_eq [] (d ∷ b) = false
name_eq (c ∷ a) [] = false
name_eq (c ∷ a) (d ∷ b) = (c == d) && name_eq a b

unfoldable name_less : Name → Name → Bool
name_less a [] = false
name_less [] (d ∷ b) = true
name_less (c ∷ a) (d ∷ b) = let later = name_less a b in if c == d then later else ltb c d

pub name_eq_iff : (a b : Name) → (name_eq a b ≡ true) ↔ (a ≡ b)
unfolding name_eq
name_eq_iff [] [] = ground arith
name_eq_iff [] (d ∷ b) = ground arith
name_eq_iff (c ∷ a) [] = ground arith
name_eq_iff (c ∷ a) (d ∷ b) = ground (arith, name_eq_iff a b, ==_iff c d)

module _ {ℓ} {A : Type ℓ} where
  -- std::map::find.
  unfoldable pub find : Name → List (Name × A) → Option A
  unfolding name_eq
  find k [] = none
  find k ((n, a) ∷ m) = if name_eq k n then some a else find k m

  -- The new node goes to its place in the order.
  unfoldable pub insert : Name → A → List (Name × A) → List (Name × A)
  unfolding name_less
  insert k v [] = (k, v) ∷ []
  insert k v ((n, a) ∷ m) =
      let later = insert k v m in if name_less k n then (k, v) ∷ (n, a) ∷ m else (n, a) ∷ later

  -- std::map::emplace, which keeps what is there: the map, and whether there was no such key.
  unfoldable pub emplace : Name → A → List (Name × A) → List (Name × A) × Bool
  unfolding find insert
  emplace k v m = elim (find k m) [ none ↦ (insert k v m, true) | some a ↦ (m, false) ]

  -- operator[] for a write.
  unfoldable pub assign : Name → A → List (Name × A) → List (Name × A)
  unfolding name_eq
  assign k v [] = []
  assign k v ((n, a) ∷ m) =
      let later = assign k v m in if name_eq k n then (n, v) ∷ m else (n, a) ∷ later

  pub find-insert :
      (k n : Name) (v : A) (m : List (Name × A))
      → find k m ≡ none
      → find n (insert k v m) ≡ (if name_eq n k then some v else find n m)
  unfolding find insert
  find-insert k n v [] h = refl
  find-insert k n v ((x, a) ∷ m) h =
      ground (arith, find-insert k n v m, name_eq_iff n k, name_eq_iff k x, name_eq_iff n x)

  pub find-assign :
      (k n : Name) (v a : A) (m : List (Name × A))
      → find k m ≡ some a
      → find n (assign k v m) ≡ (if name_eq n k then some v else find n m)
  unfolding find assign
  find-assign k n v a [] h = absurd (ground arith)
  find-assign k n v a ((x, b) ∷ m) h =
      ground (arith, find-assign k n v a m, name_eq_iff n k, name_eq_iff k x, name_eq_iff n x)

  abbrev pub or_new : A → Option A → A
  or_new v none = v
  or_new v (some a) = a

  -- The first value emplaced under a key stays, and the other keys keep theirs.
  pub find-emplace :
      (k n : Name) (v : A) (m : List (Name × A))
      → find n ((emplace k v m).0) ≡ (if name_eq n k then some (or_new v (find k m)) else find n m)
  unfolding emplace
  find-emplace k n v m = elim (Option-cases (find k m)) [
    | inl e ↦ ground (arith, find-insert k n v m e)
    | inr (a, e) ↦ ground (arith, name_eq_iff n k)
  ]
