-- ===== src/Service/Invariant.antt =====
-- What holds of a Service (async_grpc/service.cc) between two events, and the rules for its parts.
use async_grpc.Base.{
  ℕ, ◌≤◌, ◌<◌, ◌≡◌, refl, subst, ◌≢◌, ◌⊎◌, inl, inr, Bool, true, false, ◌||◌, Option, none, some,
  Outcome, ok, Returns, ◌>>=◌, Outcome-cases, arith, ◌==◌, if◌then◌else◌, Bool-cases, ==_iff,
}
use async_grpc.Base.Assoc.{
  lookup, update, erase, Distinct, lookup-update, lookup-erase, Distinct-update, Distinct-erase,
}
use async_grpc.Rpc.Types.{Rpc}
use async_grpc.Rpc.Invariant.{Inv, IsAwake}
use async_grpc.ActiveRpcs
use async_grpc.EventQueueSelector.{Selector}
use async_grpc.Service.Defs.{Service, deref, call_method, remove, remove_if_not_pending}

-- An object that stands under its address and waits for its next event.
pub record Fit (p : ℕ) (r : Rpc) : Type 0 where
  pub placed : r.this ≡ p
  pub inv : Inv r
  pub awake : IsAwake r

-- The round robin has a queue to choose.
pub record HasQueues (s : Selector) : Type 0 where
  pub some_thread : 0 < s.num_event_threads
  pub enough : s.num_event_threads ≤ s.event_queue_threads

-- Every object in flight is fit, but for the one that is being served, if there is one.
pub record Sound (served : Option ℕ) (s : Service) : Type 0 where
  pub distinct : Distinct s.active_rpcs
  pub fresh : (q : ℕ) → s.next_address ≤ q → lookup q s.active_rpcs ≡ none
  pub fit : (q : ℕ) (r : Rpc) → served ≢ some q → lookup q s.active_rpcs ≡ some r → Fit q r
  pub queues : HasQueues s.event_queue_selector

abbrev pub put : ℕ → Rpc → Service → Service
put p r s = record s { active_rpcs = update p r s.active_rpcs }

module _ (p : ℕ) (s : Service) {r : Rpc} (there : lookup p s.active_rpcs ≡ some r) where
  -- The object is served from here on.
  pub put-Sound_served :
      (served : Option ℕ) (r1 : Rpc)
      → (served ≡ none) ⊎ (served ≡ some p)
      → Sound served s
      → Sound (some p) (put p r1 s)
  put-Sound_served served r1 h v = record {
    distinct = Distinct-update p r1 s.active_rpcs v.distinct;
    fresh = λ q le. ground (arith, v.fresh q, lookup-update p q r1 r s.active_rpcs);
    fit = λ q r2 ne e. ground (arith, v.fit q r2, lookup-update p q r1 r s.active_rpcs);
    queues = v.queues;
  }

  -- It is fit again.
  pub put-Sound :
      (served : Option ℕ) (r1 : Rpc)
      → (served ≡ none) ⊎ (served ≡ some p)
      → Fit p r1
      → Sound served s
      → Sound none (put p r1 s)
  put-Sound served r1 h f v = record {
    distinct = Distinct-update p r1 s.active_rpcs v.distinct;
    fresh = λ q le. ground (arith, v.fresh q, lookup-update p q r1 r s.active_rpcs);
    fit = λ q r2 ne e. elim (Bool-cases (p == q)) [
      | inl same ↦
          let at_q : p ≡ q = (==_iff p q).0 same in
          let is_r2 : r1 ≡ r2 = ground (arith, lookup-update p q r1 r s.active_rpcs) in
          subst (Fit q) is_r2 (subst (λ k. Fit k r1) at_q f)
      | inr other ↦ v.fit q r2 (ground arith) (ground (arith, lookup-update p q r1 r s.active_rpcs))
    ];
    queues = v.queues;
  }

  -- It is fit as it stands.
  pub served-Sound : Fit p r → Sound (some p) s → Sound none s
  served-Sound f v = record {
    distinct = v.distinct;
    fresh = v.fresh;
    fit = λ q r2 ne e. elim (Bool-cases (p == q)) [
      | inl same ↦
          let at_q : p ≡ q = (==_iff p q).0 same in
          let is_r2 : r ≡ r2 = ground arith in subst (Fit q) is_r2 (subst (λ k. Fit k r) at_q f)
      | inr other ↦ v.fit q r2 (ground arith) e
    ];
    queues = v.queues;
  }

  pub deref_lem : deref p s ≡ ok r
  unfolding deref
  deref_lem = rw there

  pub deref-Returns :
      {A : Type 0} (P : A → Type 0) (f : Rpc → Outcome A)
      → Returns P (f r)
      → Returns P (deref p s >>= f)
  deref-Returns P f h = rw deref_lem h

  pub call_method_lem :
      (method : Rpc → Outcome Rpc) (r1 : Rpc)
      → method r ≡ ok r1
      → call_method p method s ≡ ok (put p r1 s)
  unfolding call_method
  call_method_lem method r1 h = rw (there, call_method) (rw h refl)

  -- A call of a method, given what the method promises.
  pub call_method-Returns :
      (P : Rpc → Type 0) (Q : Service → Type 0) (method : Rpc → Outcome Rpc)
      → Returns P (method r)
      → ((r1 : Rpc) → P r1 → Q (put p r1 s))
      → Returns Q (call_method p method s)
  unfolding call_method
  call_method-Returns P Q method h k = elim (Outcome-cases (method r)) [
    | inl (r1, e) ↦ rw (there, call_method) (rw e (k r1 (rw e at h)))
    | inr (f, e) ↦ absurd (rw e at h)
  ]

  pub remove_lem : remove p s ≡ record s { active_rpcs = erase p s.active_rpcs }
  unfolding remove
  remove_lem = rw (there, ActiveRpcs.remove)

  erase-lookup :
      (q : ℕ) (r2 : Rpc)
      → Distinct s.active_rpcs
      → lookup q (erase p s.active_rpcs) ≡ some r2
      → (p ≢ q) × (lookup q s.active_rpcs ≡ some r2)
  erase-lookup q r2 d e = ground (arith, lookup-erase p q s.active_rpcs)

  erase-Sound :
      (served : Option ℕ)
      → (served ≡ none) ⊎ (served ≡ some p)
      → Sound served s
      → Sound none (record s { active_rpcs = erase p s.active_rpcs })
  erase-Sound served h v = record {
    distinct = Distinct-erase p s.active_rpcs v.distinct;
    fresh = λ q le. ground (arith, v.fresh q, lookup-erase p q s.active_rpcs);
    fit = λ q r2 ne e.
        let (other, at) = erase-lookup q r2 v.distinct e in v.fit q r2 (ground arith) at;
    queues = v.queues;
  }

  pub remove-Sound :
      (served : Option ℕ)
      → (served ≡ none) ⊎ (served ≡ some p)
      → Sound served s
      → Sound none (remove p s)
  remove-Sound served h v = rw remove_lem (erase-Sound served h v)

  -- RemoveIfNotPending.
  pub remove_if_not_pending-Sound : Sound none s → Returns (Sound none) (remove_if_not_pending p s)
  unfolding remove_if_not_pending
  remove_if_not_pending-Sound v =
      rw (there, remove_if_not_pending)
        (if-Sound (
          r.done_event.pending
          || (r.read_event.pending || (r.write_event.pending || r.finish_event.pending))))
    where
      if-Sound :
          (b : Bool)
          → Sound none (if b then s else record s { active_rpcs = erase p s.active_rpcs })
      if-Sound true = v
      if-Sound false = erase-Sound none (inl refl) v
