-- ===== src/Running/Tidy.antt =====
-- What holds of the event queues of a running server (async_grpc/rpc.h, server.cc) against the
-- objects in flight of its service.
use async_grpc.Base.{
  Option, ℕ, ◌<◌, ◌≤◌, ◌≡◌, refl, sym, subst, ◌≢◌, inl, inr, none, some, List, [], arith, ◌==◌,
  ==_iff, Bool-cases,
}
use async_grpc.Base.Assoc.{lookup, Distinct, lookup-update, lookup-erase}
use async_grpc.Rpc.Types.{Event, Rpc}
use async_grpc.Service.Defs.{Service}
use async_grpc.Service.Invariant.{put}
use async_grpc.Service.Effects.{drop}
use async_grpc.Service.Growth.{Adds, Unpushed}
use async_grpc.Running.{UniqueEventPtr, events_of, start}
use async_grpc.Running.Events.{AllStale, Touched}
use async_grpc.Running.Held.{Held, unpushed-Held}

-- Each object's events stand in its own queue, as its flags say; of an object that is gone only
-- WRITE_NEEDED events are left; and no event is of an object that is still to come.
pub record Tidy (s : Service) (queues : ℕ → List UniqueEventPtr) : Type 0 where
  pub held :
      (p : ℕ) (r : Rpc)
      → lookup p s.active_rpcs ≡ some r
      → Held s.shutting_down r (events_of p (queues r.event_queue))
  pub elsewhere :
      (p : ℕ) (r : Rpc) (k : ℕ)
      → lookup p s.active_rpcs ≡ some r
      → k ≢ r.event_queue
      → events_of p (queues k) ≡ []
  pub gone : (p k : ℕ) → lookup p s.active_rpcs ≡ none → AllStale (events_of p (queues k))
  pub fresh : (p k : ℕ) → s.next_address ≤ p → events_of p (queues k) ≡ []

-- One object is served, and its events are touched.
module _ (p : ℕ) (s : Service) {r : Rpc} (there : lookup p s.active_rpcs ≡ some r)
    {events : List Event} {queues queues1 : ℕ → List UniqueEventPtr} (v : Tidy s queues)
    (below : p < s.next_address) (t : Touched p r.event_queue events queues queues1) where
  not_fresh : (q k : ℕ) → s.next_address ≤ q → events_of q (queues1 k) ≡ []
  not_fresh q k le = rw (t.others q k (λ e. omega (arith, e, le, below))) (v.fresh q k le)

  elsewhere_here : (k : ℕ) → k ≢ r.event_queue → events_of p (queues1 k) ≡ []
  elsewhere_here k ne = rw (t.away k ne) (v.elsewhere p r k there ne)

  pub Tidy-put :
      (r1 : Rpc)
      → r1.event_queue ≡ r.event_queue
      → Held s.shutting_down r1 events
      → Tidy (put p r1 s) queues1
  Tidy-put r1 same h = record {
    held = λ q r2 e. elim (Bool-cases (p == q)) [
      | inl at ↦
          let at_q : p ≡ q = (==_iff p q).0 at in
          let is_r2 : r1 ≡ r2 = ground (arith, lookup-update p q r1 r s.active_rpcs) in
          subst (λ x. Held s.shutting_down x (events_of q (queues1 x.event_queue))) is_r2
            (subst (λ x. Held s.shutting_down r1 (events_of x (queues1 r1.event_queue))) at_q
              (simp (same, t.here) h))
      | inr other ↦
          rw (t.others q r2.event_queue (λ x. ground arith))
            (v.held q r2 (ground (arith, lookup-update p q r1 r s.active_rpcs)))
    ];
    elsewhere = λ q r2 k e ne. elim (Bool-cases (p == q)) [
      | inl at ↦
          let at_q : p ≡ q = (==_iff p q).0 at in
          let is_r2 : r1 ≡ r2 = ground (arith, lookup-update p q r1 r s.active_rpcs) in
          subst (λ x. events_of x (queues1 k) ≡ []) at_q (elsewhere_here k (λ x. ne (ground arith)))
      | inr other ↦
          rw (t.others q k (λ x. ground arith))
            (v.elsewhere q r2 k (ground (arith, lookup-update p q r1 r s.active_rpcs)) ne)
    ];
    gone = λ q k e.
        rw (t.others q k (λ x. ground (arith, lookup-update p q r1 r s.active_rpcs)))
          (v.gone q k (ground (arith, lookup-update p q r1 r s.active_rpcs)));
    fresh = not_fresh;
  }

  pub Tidy-drop : Distinct s.active_rpcs → AllStale events → Tidy (drop p s) queues1
  Tidy-drop d stale = record {
    held = λ q r2 e.
        rw (t.others q r2.event_queue (λ x. ground (arith, lookup-erase p q s.active_rpcs d)))
          (v.held q r2 (ground (arith, lookup-erase p q s.active_rpcs d)));
    elsewhere = λ q r2 k e ne.
        rw (t.others q k (λ x. ground (arith, lookup-erase p q s.active_rpcs d)))
          (v.elsewhere q r2 k (ground (arith, lookup-erase p q s.active_rpcs d)) ne);
    gone = λ q k e. elim (Bool-cases (p == q)) [
      | inl at ↦
          let at_q : p ≡ q = (==_iff p q).0 at in
          subst (λ x. AllStale (events_of x (queues1 k))) at_q (stale_in k)
      | inr other ↦
          rw (t.others q k (λ x. ground arith))
            (v.gone q k (ground (arith, lookup-erase p q s.active_rpcs d)))
    ];
    fresh = not_fresh;
  }
    where
      stale_in : (k : ℕ) → AllStale (events_of p (queues1 k))
      stale_in k = elim (Bool-cases (k == r.event_queue)) [
        | inl at ↦
            let is_k : r.event_queue ≡ k = sym ((==_iff k r.event_queue).0 at) in
            subst (λ j. AllStale (events_of p (queues1 j))) is_k (rw t.here stale)
        | inr other ↦ rw (elsewhere_here k (λ x. ground arith)) tt
      ]

-- A new object is put forward.
pub Tidy-add :
    {context : Option ℕ} (s t : Service) (queues : ℕ → List UniqueEventPtr)
    → Adds context s t
    → Tidy s queues
    → Tidy t queues
unfolding lookup
Tidy-add s t queues a v = record {
  held = λ q r e. elim (Bool-cases (s.next_address == q)) [
    | inl at ↦
        let is_r : a.rpc ≡ r = ground (arith, a.is_added) in
        rw (v.fresh q r.event_queue (ground arith))
          (unpushed-Held t.shutting_down r (ground (arith, a.unpushed)))
    | inr other ↦ rw a.flag (v.held q r (ground (arith, a.is_added)))
  ];
  elsewhere = λ q r k e ne. elim (Bool-cases (s.next_address == q)) [
    | inl at ↦ v.fresh q k (ground arith)
    | inr other ↦ v.elsewhere q r k (ground (arith, a.is_added)) ne
  ];
  gone = λ q k e. v.gone q k (ground (arith, a.is_added));
  fresh = λ q k le. v.fresh q k (omega (arith, a.next, le));
}

-- The queues are empty at the start.
pub start-Tidy : (s : Service) → Unpushed s → Tidy s (start s).event_queues
unfolding events_of
start-Tidy s u = record {
  held = λ p r e. unpushed-Held s.shutting_down r (u p r e);
  elsewhere = λ p r k e ne. refl;
  gone = λ p k e. tt;
  fresh = λ p k le. refl;
}
