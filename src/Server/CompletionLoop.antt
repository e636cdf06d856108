-- ===== src/Server/CompletionLoop.antt =====
-- Server::RunCompletionQueue (async_grpc/server.cc): the loop of a completion queue thread, and
-- Rpc::CompletionQueueRpcEvent::PushToEventQueue (async_grpc/rpc.h).
use async_grpc.Base.{
  ℕ, ◌≡◌, refl, sym, ◌≢◌, Bool, none, some, List, [], ◌∷◌, ◌++◌, map, Outcome, ok, Returns,
  Returns->>=, Outcome-cases, All, arith, ◌>>=◌, inl, inr, Returns-map, Bool-cases, ◌==◌,
}
use mathlib.Core.List.{append-nil, append_assoc}
use async_grpc.Base.Assoc.{lookup, lookup-update}
use async_grpc.Rpc.Types.{Rpc, Event}
use async_grpc.Rpc.Lifecycle.{store_ok}
use async_grpc.Service.Defs.{Service, deref, call_method}
use async_grpc.Service.Invariant.{Sound, Fit, put, deref-Returns, call_method_lem}
use async_grpc.Service.Reach.{store_ok-Good, refit}

-- What Next gives: the tag, by its event and its object, and whether the operation succeeded.
pub record Tag : Type 0 where
  pub event : Event
  pub rpc_ptr : ℕ
  pub success : Bool

-- An event that was pushed, with the event queue that got it.
pub record Posted : Type 0 where
  pub queue : ℕ
  pub posted_event : Event
  pub posted_rpc : ℕ

-- PushToEventQueue. The event queues are unbounded, so that the push does not wait.
unfoldable push_to_event_queue : Event → ℕ → Service → List Posted → Outcome (List Posted)
unfolding deref
push_to_event_queue event p s posts = do
  r ← deref p s
  ok (posts ++ record { queue = r.event_queue; posted_event = event; posted_rpc = p } ∷ [])

-- The loop, over what Next gives until it returns false.
unfoldable run_completion_queue : List Tag → Service → List Posted → Outcome (Service × List Posted)
unfolding call_method store_ok push_to_event_queue
run_completion_queue [] s posts = ok (s, posts)
run_completion_queue (tag ∷ tags) s posts = do
  s1 ← call_method tag.rpc_ptr (store_ok tag.event tag.success) s
  posts1 ← push_to_event_queue tag.event tag.rpc_ptr s1 posts
  run_completion_queue tags s1 posts1

-- The tag is of an object in flight, whose event queue is given.
pub record IsOf (s : Service) (tag : Tag) (queue : ℕ) : Type 0 where
  pub rpc : Rpc
  pub there : lookup tag.rpc_ptr s.active_rpcs ≡ some rpc
  pub goes_to : rpc.event_queue ≡ queue
  pub known : tag.event ≢ Event.write_needed

pub record Stored (success : Bool) (r r1 : Rpc) : Type 0 where
  pub same_queue : r1.event_queue ≡ r.event_queue

pub store_ok-Stored :
    (event : Event) (success : Bool) (r : Rpc)
    → event ≢ Event.write_needed
    → Returns (Stored success r) (store_ok event success r)
unfolding store_ok
store_ok-Stored Event.new_connection success r n = ground arith
store_ok-Stored Event.read success r n = ground arith
store_ok-Stored Event.write_needed success r n = n refl
store_ok-Stored Event.write success r n = ground arith
store_ok-Stored Event.finish success r n = ground arith
store_ok-Stored Event.done success r n = ground arith

put-IsOf :
    (s : Service) (p : ℕ) (r r1 : Rpc) (tag : Tag) (queue : ℕ)
    → lookup p s.active_rpcs ≡ some r
    → r1.event_queue ≡ r.event_queue
    → IsOf s tag queue
    → IsOf (put p r1 s) tag queue
put-IsOf s p r r1 tag queue there same k = elim (Bool-cases (p == tag.rpc_ptr)) [
  | inl here ↦ record {
    rpc = r1;
    there = ground (arith, lookup-update p tag.rpc_ptr r1 r s.active_rpcs there);
    goes_to = ground (arith, k.there, k.goes_to);
    known = k.known;
  }
  | inr other ↦ record {
    rpc = k.rpc;
    there = ground (arith, lookup-update p tag.rpc_ptr r1 r s.active_rpcs there, k.there);
    goes_to = k.goes_to;
    known = k.known;
  }
]

abbrev post_of : Tag → ℕ → Posted
post_of tag queue = record { queue = queue; posted_event = tag.event; posted_rpc = tag.rpc_ptr }

-- Tags of objects in flight, each with its object's event queue.
abbrev AllOf : Service → List (Tag × ℕ) → Type 0
AllOf s = All (λ e. IsOf s e.0 e.1)

put-AllOf :
    (s : Service) (p : ℕ) (r r1 : Rpc)
    → lookup p s.active_rpcs ≡ some r
    → r1.event_queue ≡ r.event_queue
    → (tags : List (Tag × ℕ)) → AllOf s tags
    → AllOf (put p r1 s) tags
put-AllOf s p r r1 there same [] k = tt
put-AllOf s p r r1 there same (e ∷ tags) k =
    (put-IsOf s p r r1 e.0 e.1 there same k.0, put-AllOf s p r r1 there same tags k.1)

-- One turn of the loop.
record Turn (tag : Tag) (queue : ℕ) (tags : List (Tag × ℕ)) (s1 : Service) : Type 0 where
  sound : Sound none s1
  this_tag : IsOf s1 tag queue
  others : AllOf s1 tags

stored-Turn :
    (tag : Tag) (queue : ℕ) (tags : List (Tag × ℕ)) (s : Service)
    → Sound none s
    → IsOf s tag queue
    → AllOf s tags
    → Returns (Turn tag queue tags) (call_method tag.rpc_ptr (store_ok tag.event tag.success) s)
stored-Turn tag queue tags s v k ks = elim (Outcome-cases (store_ok tag.event tag.success k.rpc)) [
  | inr (x, e) ↦ absurd (rw e at (store_ok-Stored tag.event tag.success k.rpc k.known))
  | inl (r1, e) ↦
      let same : r1.event_queue ≡ k.rpc.event_queue =
        (rw e at (store_ok-Stored tag.event tag.success k.rpc k.known)).same_queue in
      let f : Fit tag.rpc_ptr k.rpc = v.fit tag.rpc_ptr k.rpc (λ h. cc) k.there in
      rw (call_method_lem tag.rpc_ptr s k.there (store_ok tag.event tag.success) r1 e) record {
        sound =
            refit tag.rpc_ptr s r1 k.there v
              (store_ok-Good tag.event tag.success k.rpc r1 f.inv f.awake e);
        this_tag = put-IsOf s tag.rpc_ptr k.rpc r1 tag queue k.there same k;
        others = put-AllOf s tag.rpc_ptr k.rpc r1 k.there same tags ks;
      }
]

-- RunCompletionQueue in a sound service, for tags of objects in flight: it returns, the service
-- stays sound, and every event goes to its object's event queue, in the order of the tags.
run_completion_queue_lem :
    (tags : List (Tag × ℕ)) (s : Service) (posts : List Posted)
    → Sound none s
    → AllOf s tags
    → Returns
        (λ r. Sound none r.0 × (r.1 ≡ posts ++ map (λ e. post_of e.0 e.1) tags))
        (run_completion_queue (map (λ e. e.0) tags) s posts)
unfolding run_completion_queue push_to_event_queue
run_completion_queue_lem [] s posts v k = (v, sym (append-nil posts))
run_completion_queue_lem ((tag, queue) ∷ tags) s posts v k =
    Returns->>= (Turn tag queue tags) _ (call_method tag.rpc_ptr (store_ok tag.event tag.success) s)
      _ (stored-Turn tag queue tags s v k.0 k.1)
      λ s1 t.
        Returns->>= (λ posts1. posts1 ≡ posts ++ post_of tag queue ∷ []) _
          (push_to_event_queue tag.event tag.rpc_ptr s1 posts) _
          (deref-Returns tag.rpc_ptr s1 t.this_tag.there
            (λ posts1. posts1 ≡ posts ++ post_of tag queue ∷ []) _ (rw t.this_tag.goes_to refl))
          λ posts1 e.
            Returns-map _ _ (run_completion_queue (map (λ e. e.0) tags) s1 posts1)
              (run_completion_queue_lem tags s1 posts1 t.sound t.others)
              (λ r g. (
                g.0,
                rw (g.1, e)
                    (append_assoc posts (post_of tag queue ∷ []) (map (λ e. post_of e.0 e.1) tags)),
              ))
