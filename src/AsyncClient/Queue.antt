-- ===== src/AsyncClient/Queue.antt =====
-- CompletionQueue::RunCompletionQueue (async_grpc/completion_queue_pool.cc): the loop of a thread over
-- the events of the asynchronous clients (async_grpc/async_client.h) that share its queue.
use async_grpc.Base.{
  Fault, fault, ℕ, ◌≡◌, refl, inl, inr, Bool, true, Option, none, some, List, [], ◌∷◌, Outcome, ok,
  ◌>>=◌, or_fault, use_after_free, Returns, Returns-map, Outcome-cases, Bool-cases, ◌==◌,
  if◌then◌else◌, subst, sym, All, arith,
}
use async_grpc.Base.Assoc.{lookup, update, lookup-update}
use async_grpc.Rpc.Types.{Message, Status}
use async_grpc.AsyncClient.{AsyncClient, ClientEvent, handle_unary_event, handle_streaming_event}

-- An AsyncClientInterface: the class of the client.
pub data AnyClient : Type 0 where
  unary : AsyncClient → AnyClient
  streaming : AsyncClient → AnyClient

-- What Next gives: the tag, by its client and its event, whether the operation succeeded, and what
-- gRPC has filled in for it.
pub record ClientTag : Type 0 where
  pub async_client : ℕ
  pub event : ClientEvent
  pub success : Bool
  pub response : Option Message
  pub status : Option Status

abbrev or_kept {ℓ} : {A : Type ℓ} → Option A → A → A
or_kept none a = a
or_kept (some b) a = b

abbrev pub filled : ClientTag → AsyncClient → AsyncClient
filled tag c = record c {
  response = or_kept tag.response c.response;
  finish_status = or_kept tag.status c.finish_status;
}

-- AsyncClientInterface::HandleEvent.
unfoldable pub handle_client_event : ClientTag → AnyClient → Outcome AnyClient
unfolding handle_unary_event handle_streaming_event
handle_client_event tag (unary c) = do
  c1 ← handle_unary_event tag.event (filled tag c)
  ok (unary c1)
handle_client_event tag (streaming c) = do
  c1 ← handle_streaming_event tag.event tag.success (filled tag c)
  ok (streaming c1)

-- The loop, over what Next gives until it returns false. The clients stand by their addresses.
unfoldable pub run_client_queue :
    List ClientTag → List (ℕ × AnyClient) → Outcome (List (ℕ × AnyClient))
unfolding lookup update handle_client_event
run_client_queue [] clients = ok clients
run_client_queue (tag ∷ tags) clients = do
  c ← or_fault use_after_free (lookup tag.async_client clients)
  c1 ← handle_client_event tag c
  run_client_queue tags (update tag.async_client c1 clients)

-- The same for one client on its own.
unfoldable pub handle_all : List ClientTag → AnyClient → Outcome AnyClient
unfolding handle_client_event
handle_all [] c = ok c
handle_all (tag ∷ tags) c = do c1 ← handle_client_event tag c; handle_all tags c1

unfoldable pub tags_of : ℕ → List ClientTag → List ClientTag
tags_of p [] = []
tags_of p (tag ∷ tags) =
    let rest = tags_of p tags in if tag.async_client == p then tag ∷ rest else rest

-- Every client of a tag is there, and every client can handle its own tags.
pub record Serves (tags : List ClientTag) (clients : List (ℕ × AnyClient)) : Type 0 where
  pub there : All (λ tag. (c : AnyClient) × (lookup tag.async_client clients ≡ some c)) tags
  pub fine :
      (p : ℕ) (c : AnyClient)
      → lookup p clients ≡ some c
      → Returns (λ c1. Unit {0}) (handle_all (tags_of p tags) c)

-- What the clients are after the loop, against what each is after its own tags.
pub record Alone (tags : List ClientTag) (clients final : List (ℕ × AnyClient)) : Type 0 where
  pub alone :
      (p : ℕ) (c : AnyClient)
      → lookup p clients ≡ some c
      → Returns (λ c1. lookup p final ≡ some c1) (handle_all (tags_of p tags) c)

kept_there :
    (q : ℕ) (c0 c1 : AnyClient) (clients : List (ℕ × AnyClient))
    → lookup q clients ≡ some c0
    → (tags : List ClientTag)
    → All (λ tag. (c : AnyClient) × (lookup tag.async_client clients ≡ some c)) tags
    → All (λ tag. (c : AnyClient) × (lookup tag.async_client (update q c1 clients) ≡ some c)) tags
kept_there q c0 c1 clients at [] a = tt
kept_there q c0 c1 clients at (tag ∷ tags) a = (
  elim (Bool-cases (q == tag.async_client)) [
    | inl same ↦ (c1, ground (arith, lookup-update q tag.async_client c1 c0 clients))
    | inr other ↦ (a.0.0, ground (arith, a.0.1, lookup-update q tag.async_client c1 c0 clients))
  ],
  kept_there q c0 c1 clients at tags a.1,
)

module _ (tag : ClientTag) (tags : List ClientTag) (clients : List (ℕ × AnyClient))
    (c0 c1 : AnyClient) (at : lookup tag.async_client clients ≡ some c0)
    (handled : handle_client_event tag c0 ≡ ok c1) where
  -- What a client handles, before and after the first tag.
  own_tags :
      (p : ℕ) (c : AnyClient)
      → lookup p clients ≡ some c
      → (c2 : AnyClient) × (lookup p (update tag.async_client c1 clients) ≡ some c2)
        × (handle_all (tags_of p (tag ∷ tags)) c ≡ handle_all (tags_of p tags) c2)
  unfolding tags_of handle_all
  own_tags p c at_p = elim (Bool-cases (tag.async_client == p)) [
    | inl same ↦
        let is_c : c0 ≡ c = ground arith in
        (
          c1,
          ground (arith, lookup-update tag.async_client p c1 c0 clients),
          rw (same, sym is_c, handled) refl,
        )
    | inr other ↦ (c, ground (arith, lookup-update tag.async_client p c1 c0 clients), rw other refl)
  ]

  own_tags_before :
      (p : ℕ) (c2 : AnyClient)
      → lookup p (update tag.async_client c1 clients) ≡ some c2
      → (c : AnyClient) × (lookup p clients ≡ some c)
        × (handle_all (tags_of p (tag ∷ tags)) c ≡ handle_all (tags_of p tags) c2)
  own_tags_before p c2 at2 = elim (Bool-cases (tag.async_client == p)) [
    | inl same ↦
        let at_p : lookup p clients ≡ some c0 = ground arith in
        let (c3, at3, e) = own_tags p c0 at_p in
        let is_c2 : c3 ≡ c2 = ground arith in
        (
          c0,
          at_p,
          subst (λ c. handle_all (tags_of p (tag ∷ tags)) c0 ≡ handle_all (tags_of p tags) c) is_c2
              e,
        )
    | inr other ↦
        let at_p : lookup p clients ≡ some c2 =
          ground (arith, lookup-update tag.async_client p c1 c0 clients) in
        let (c3, at3, e) = own_tags p c2 at_p in
        let is_c2 : c3 ≡ c2 = ground arith in
        (
          c2,
          at_p,
          subst (λ c. handle_all (tags_of p (tag ∷ tags)) c2 ≡ handle_all (tags_of p tags) c) is_c2
              e,
        )
  ]

fault_is_no_result :
    (tag : ClientTag) (tags : List ClientTag) (clients : List (ℕ × AnyClient)) (c0 : AnyClient)
    (f : Fault)
    → lookup tag.async_client clients ≡ some c0
    → handle_client_event tag c0 ≡ fault f
    → Returns (λ c1. Unit {0}) (handle_all (tags_of tag.async_client (tag ∷ tags)) c0)
    → ⊥
unfolding tags_of handle_all
fault_is_no_result tag tags clients c0 f at e r =
    let own : (tag.async_client == tag.async_client) ≡ true = ground arith in rw (own, e) at r

-- The loop over tags of clients that are there, each of which can handle its own tags, returns, and
-- leaves each client as its own tags alone leave it: the clients that share a queue do not disturb
-- one another.
pub run_client_queue-Alone :
    (tags : List ClientTag) (clients : List (ℕ × AnyClient))
    → Serves tags clients
    → Returns (Alone tags clients) (run_client_queue tags clients)
unfolding run_client_queue handle_all tags_of
run_client_queue-Alone [] clients v = record { alone = λ p c at. at }
run_client_queue-Alone (tag ∷ tags) clients v =
    first (v.there.0.0) (v.there.0.1) (run_client_queue-Alone tags)
  where
    first :
        (c0 : AnyClient)
        → lookup tag.async_client clients ≡ some c0
        → ((clients1 : List (ℕ × AnyClient))
            → Serves tags clients1
            → Returns (Alone tags clients1) (run_client_queue tags clients1))
        → Returns (Alone (tag ∷ tags) clients) (
            or_fault use_after_free (lookup tag.async_client clients) >>= λ c.
            handle_client_event tag c >>= λ c1.
            run_client_queue tags (update tag.async_client c1 clients))
    first c0 at again = elim (Outcome-cases (handle_client_event tag c0)) [
      | inr (f, e) ↦
          absurd (fault_is_no_result tag tags clients c0 f at e (v.fine tag.async_client c0 at))
      | inl (c1, e) ↦ rw at (
          rw e (
            Returns-map _ _ (run_client_queue tags (update tag.async_client c1 clients))
              (again (update tag.async_client c1 clients) record {
                there = kept_there tag.async_client c0 c1 clients at tags v.there.1;
                fine = λ p c2 at2.
                    let (c, at_p, same) = own_tags_before tag tags clients c0 c1 at e p c2 at2 in
                    rw⁻¹ same (v.fine p c at_p);
              })
              λ final a. record {
                alone = λ p c at_p.
                    let (c2, at2, same) = own_tags tag tags clients c0 c1 at e p c at_p in
                    rw same (a.alone p c2 at2);
              }))
    ]
