-- ===== src/Server/Names.antt =====
-- Server::Builder::ParseMethodFullName (async_grpc/server.cc), and which names it takes apart.
use async_grpc.Base.{
  ℕ, ◌≡◌, ◌≢◌, refl, ap, subst, false, not, ◌&&◌, [], ◌∷◌, ◌++◌, Outcome, ok, fault, ◌>>◌, check,
  out_of_range, is_empty, ◌==◌, if◌then◌else◌, All, Bool-cases, ◌⊎◌, inl, inr, arith,
}
use async_grpc.Rpc.Types.{Name}

-- The character '/'.
abbrev pub slash : ℕ
slash = 47

abbrev with_char : ℕ → Name × Name → Name × Name
with_char c (line, rest) = (c ∷ line, rest)

-- std::getline with the delimiter '/': the line, and what is left of the stream.
unfoldable getline : Name → Name × Name
getline [] = ([], [])
getline (c ∷ stream) = if c == slash then ([], stream) else with_char c (getline stream)

-- The two lines that are read, and the CHECK on them.
unfoldable parse_parts : Name → Outcome (Name × Name)
unfolding getline
parse_parts stream =
    let service = getline stream in
    let method = getline service.1 in
    check (not (is_empty service.0) && not (is_empty method.0)) >> ok (service.0, method.0)

-- Server::Builder::ParseMethodFullName.
unfoldable pub parse_method_full_name : Name → Outcome (Name × Name)
unfolding parse_parts
parse_method_full_name [] = fault out_of_range
parse_method_full_name (c ∷ stream) = check (c == slash) >> parse_parts stream

-- A name of one part.
abbrev pub HasNoSlash : Name → Type 0
HasNoSlash = All (λ c. c ≢ slash)

-- What may follow the part that was read.
abbrev pub after_slash : Name → Name
after_slash rest = slash ∷ rest

getline-before_slash :
    (part rest : Name) → HasNoSlash part → getline (part ++ after_slash rest) ≡ (part, rest)
unfolding getline
getline-before_slash [] rest h = refl
getline-before_slash (c ∷ part) rest h = ground (arith, getline-before_slash part rest h.1, h.0)

getline-last : (part : Name) → HasNoSlash part → getline part ≡ (part, [])
unfolding getline
getline-last [] h = refl
getline-last (c ∷ part) h = ground (arith, getline-last part h.1, h.0)

-- The full name of a method: '/', the service, '/', the method.
abbrev pub full_name : Name → Name → Name
full_name service method = slash ∷ (service ++ after_slash method)

-- The full name of a method in a service, where neither part is empty or has a '/', is taken apart
-- into the two; and so is such a name with a '/' and anything else behind it.
pub parse_method_full_name-full_name :
    (service method more : Name)
    → HasNoSlash service
    → HasNoSlash method
    → is_empty service ≡ false
    → is_empty method ≡ false
    → (parse_method_full_name (full_name service method) ≡ ok (service, method))
      × (parse_method_full_name (full_name service (method ++ after_slash more))
          ≡ ok (service, method))
unfolding parse_method_full_name
parse_method_full_name-full_name service method more hs hm es em = ground (
  arith,
  getline-before_slash service method hs,
  getline-before_slash service (method ++ after_slash more) hs,
  getline-last method hm,
  getline-before_slash method more hm,
)

-- How a stream was before a line was read off it.
abbrev IsRead : Name → Name → Name → Type 0
IsRead stream part rest =
    HasNoSlash part × ((stream ≡ part ++ after_slash rest) ⊎ ((stream ≡ part) × (rest ≡ [])))

getline-IsRead : (stream : Name) → IsRead stream (getline stream).0 (getline stream).1
unfolding getline
getline-IsRead [] = (tt, inr (refl, refl))
getline-IsRead (c ∷ stream) = elim (Bool-cases (c == slash)) [
  | inl here ↦ rw here (tt, inl (ground arith))
  | inr there ↦ rw there (extend (λ e. ground arith) (getline-IsRead stream))
]
  where
    extend :
        c ≢ slash
        → IsRead stream (getline stream).0 (getline stream).1
        → IsRead (c ∷ stream) (c ∷ (getline stream).0) (getline stream).1
    extend n (h, inl e) = ((n, h), inl (ap (◌∷◌ c) e))
    extend n (h, inr (e, f)) = ((n, h), inr (ap (◌∷◌ c) e, f))

-- What the two lines are, if the second is not empty.
two_parts :
    (stream service rest method more : Name)
    → IsRead stream service rest
    → IsRead rest method more
    → is_empty method ≡ false
    → HasNoSlash service
      × HasNoSlash method
      × ((stream ≡ service ++ after_slash method)
          ⊎ (stream ≡ service ++ after_slash (method ++ after_slash more)))
two_parts stream service rest method more (hs, inl e) (hm, inl f) n = (hs, hm, inr (ground arith))
two_parts stream service rest method more (hs, inl e) (hm, inr (f, g)) n =
    (hs, hm, inl (ground arith))
two_parts stream service rest [] more (hs, inr (e, g)) (hm, f) n = absurd (ground arith)
two_parts stream service rest (c ∷ method) more (hs, inr (e, g)) (hm, inl f) n =
    absurd (ground arith)
two_parts stream service rest (c ∷ method) more (hs, inr (e, g)) (hm, inr (f, k)) n =
    absurd (ground arith)

-- Whatever is taken apart was a '/', a service and a method as such, and nothing more unless it is
-- a '/' and what stands behind that.
pub parse_method_full_name_sound :
    (name service method : Name)
    → parse_method_full_name name ≡ ok (service, method)
    → HasNoSlash service
      × HasNoSlash method
      × (is_empty service ≡ false)
      × (is_empty method ≡ false)
      × ((name ≡ full_name service method)
          ⊎ ((more : Name) × (name ≡ full_name service (method ++ after_slash more))))
unfolding parse_method_full_name
parse_method_full_name_sound [] service method e = absurd (ground arith)
parse_method_full_name_sound (c ∷ stream) service method e =
    let line = getline stream in
    let next = getline line.1 in
    let starts : c ≡ slash = ground arith in
    let is_service : line.0 ≡ service = ground arith in
    let is_method : next.0 ≡ method = ground arith in
    let some_service : is_empty service ≡ false = ground arith in
    let some_method : is_empty method ≡ false = ground arith in
    let (hs, hm, shape) =
      two_parts stream service line.1 method next.1
        (subst (λ part. IsRead stream part line.1) is_service (getline-IsRead stream))
        (subst (λ part. IsRead line.1 part next.1) is_method (getline-IsRead line.1)) some_method in
    (
      hs,
      hm,
      some_service,
      some_method,
      elim shape [ inl f ↦ inl (ground arith) | inr f ↦ inr (next.1, ground arith) ],
    )
