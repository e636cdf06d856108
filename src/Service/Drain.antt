-- ===== src/Service/Drain.antt =====
-- The send queue of an object in flight (async_grpc/service.cc, HandleWrite) while gRPC returns the
-- writes that were started.
use mathlib.Core.List.{append-nil}
use async_grpc.Base.{
  ℕ, zero, suc, ◌≤◌, ◌≡◌, refl, ap, sym, ◌∙◌, ◌<◌, ◌⊎◌, ltb, Bool-cases, inl, inr, Bool, true,
  false, some, List, [], length, Outcome, ok, Returns, Returns->>=, Returns-map, Outcome-cases,
  arith, ◌>>=◌, if◌then◌else◌,
}
use async_grpc.Base.Assoc.{lookup}
use async_grpc.Rpc.Types.{Name, Rpc, RpcHandlerInfo, Event}
use async_grpc.Rpc.Events.{get_rpc_event}
use async_grpc.Rpc.Lifecycle.{complete}
use async_grpc.Rpc.Sending.{handle_send_queue}
use async_grpc.Rpc.Invariant.{is_connected, is_finished}
use async_grpc.Rpc.Order.{sent, outgoing}
use async_grpc.Rpc.Drain.{
  Orderly, Draining, Round, idle-Round, completed_write, completed, completed_write-Draining, tail,
  tail-length, length_zero,
}
use async_grpc.EventQueueSelector.{Selector}
use async_grpc.Service.Defs.{
  Service, deref, handle_event, handle_write, handle_completion, handle_internal, pop_write_needed,
  remove_if_not_pending,
}
use async_grpc.Service.Invariant.{call_method_lem, HasQueues, put, deref-Returns}
use async_grpc.Service.Handlers.{lookup-put}
use async_grpc.Service.Reach.{Reach, Reach-Sound}

-- An event of the object is handled, if there is one: the return of the write that is outstanding, or
-- else a WRITE_NEEDED event that stands in the event queue.
unfoldable pub round : ℕ → Service → Outcome Service
unfolding deref handle_completion handle_internal
round p s = do
  r ← deref p s
  (if r.write_event.pending
      then handle_completion Event.write p s
      else (if ltb 0 r.write_needed_events then handle_internal p s else ok s))

unfoldable pub rounds : ℕ → ℕ → Service → Outcome Service
unfolding round
rounds zero p s = ok s
rounds (suc n) p s = do s1 ← round p s; rounds n p s1

-- The object is there, and its call has not ended.
record Live (p : ℕ) (r : Rpc) (s : Service) : Type 0 where
  there : lookup p s.active_rpcs ≡ some r
  draining : Draining r
  unfinished : r.done_event.pending ≡ true
  woken : (r.send_queue ≡ []) ⊎ ((r.write_event.pending ≡ true) ⊎ (0 < r.write_needed_events))

-- The same while its event is being handled.
record Standing (p : ℕ) (r : Rpc) (s : Service) : Type 0 where
  there : lookup p s.active_rpcs ≡ some r
  draining : Draining r
  unfinished : r.done_event.pending ≡ true

-- What handling the queue of the object leaves.
record Served (p : ℕ) (r : Rpc) (t : Service) : Type 0 where
  rpc : Rpc
  live : Live p rpc t
  made : Round r rpc

remove-unfinished :
    (p : ℕ) (s : Service) (r : Rpc)
    → lookup p s.active_rpcs ≡ some r
    → r.done_event.pending ≡ true
    → remove_if_not_pending p s ≡ ok s
unfolding remove_if_not_pending
remove-unfinished p s r there d = rw (there, remove_if_not_pending) (rw d refl)

handle_write-Served :
    (success : Bool) (p : ℕ) (s : Service) (r : Rpc)
    → Standing p r s
    → r.write_event.pending ≡ false
    → Returns (Served p r) (handle_write p success s)
unfolding handle_write
handle_write-Served success p s r l idle = elim (Outcome-cases (handle_send_queue r)) [
  | inr (k, e) ↦ absurd (rw e at (idle-Round r l.draining idle))
  | inl (r1, e) ↦
      let k : Round r r1 = rw e at (idle-Round r l.draining idle) in
      let unfinished : r1.done_event.pending ≡ true = ground (arith, k.same_done, l.unfinished) in
      rw (call_method_lem p s l.there handle_send_queue r1 e) (
        rw (remove-unfinished p (put p r1 s) r1 (lookup-put p s r1 l.there) unfinished) record {
          rpc = r1;
          live = record {
            there = lookup-put p s r1 l.there;
            draining = k.draining;
            unfinished = unfinished;
            woken = elim k.going [ inl empty ↦ inl empty | inr writing ↦ inr (inl writing) ];
          };
          made = k;
        })
]

Round-before :
    (r0 r r1 : Rpc)
    → outgoing r ≡ outgoing r0
    → r.rpc_type ≡ r0.rpc_type
    → r.send_queue ≡ r0.send_queue
    → r.done_event ≡ r0.done_event
    → Round r r1
    → Round r0 r1
Round-before r0 r r1 o t q d k = record {
  draining = k.draining;
  same = record { same_outgoing = k.same.same_outgoing ∙ o; same_type = k.same.same_type ∙ t };
  shorter = k.shorter ∙ ap tail q;
  same_done = k.same_done ∙ d;
  going = k.going;
}

handle_internal-Served :
    (p : ℕ) (s : Service) (r : Rpc)
    → Live p r s
    → r.write_event.pending ≡ false
    → Returns (Served p r) (handle_internal p s)
unfolding handle_internal handle_event
handle_internal-Served p s r l idle =
    rw (l.there, handle_internal)
      (Returns-map (Served p (pop_write_needed r)) (Served p r)
        (handle_write p true (put p (pop_write_needed r) s))
        (handle_write-Served true p (put p (pop_write_needed r) s) (pop_write_needed r) standing
          idle)
        (λ t v. record {
          rpc = v.rpc;
          live = v.live;
          made = Round-before r (pop_write_needed r) v.rpc refl refl refl refl v.made;
        }))
  where
    standing : Standing p (pop_write_needed r) (put p (pop_write_needed r) s)
    standing = record {
      there = lookup-put p s (pop_write_needed r) l.there;
      draining = record {
        inv = record {
          follows = l.draining.inv.follows;
          awaited = l.draining.inv.awaited;
          unstarted = l.draining.inv.unstarted;
          served = l.draining.inv.served;
          quiet = l.draining.inv.quiet;
          closing = l.draining.inv.closing;
          whole = l.draining.inv.whole;
        };
        connected = l.draining.connected;
        open_end = l.draining.open_end;
        orderly = l.draining.orderly;
      };
      unfinished = l.unfinished;
    }

dispatched :
    (p : ℕ) (s : Service) (r : Rpc)
    → Standing p r s
    → r.write_event.pending ≡ false
    → Returns (Served p r) (
        deref p s >>= λ r2. get_rpc_event Event.write r2 >>= λ e. handle_event Event.write p e.ok s)
unfolding get_rpc_event handle_event
dispatched p s r l idle =
    deref-Returns p s l.there (Served p r) _ (handle_write-Served r.write_event.ok p s r l idle)

handle_completion-Served :
    (p : ℕ) (s : Service) (r : Rpc)
    → Live p r s
    → r.write_event.pending ≡ true
    → Returns (Served p r) (handle_completion Event.write p s)
unfolding handle_completion completed_write
handle_completion-Served p s r l busy =
    rw (call_method_lem p s l.there (complete Event.write) (completed_write r) (completed r)) (
      Returns-map (Served p (completed_write r)) (Served p r) _
        (dispatched p (put p (completed_write r) s) (completed_write r) back refl)
        (λ t v. record {
          rpc = v.rpc;
          live = v.live;
          made = Round-before r (completed_write r) v.rpc refl refl refl refl v.made;
        }))
  where
    back : Standing p (completed_write r) (put p (completed_write r) s)
    back = record {
      there = lookup-put p s (completed_write r) l.there;
      draining = completed_write-Draining r l.draining busy;
      unfinished = l.unfinished;
    }

round-Served : (p : ℕ) (s : Service) (r : Rpc) → Live p r s → Returns (Served p r) (round p s)
unfolding round
round-Served p s r l = deref-Returns p s l.there (Served p r) _ (by_flag r.write_event.pending refl)
  where
    by_flag :
        (b : Bool)
        → r.write_event.pending ≡ b
        → Returns (Served p r) (
            if b
            then handle_completion Event.write p s
            else (if ltb 0 r.write_needed_events then handle_internal p s else ok s))
    by_flag true busy = handle_completion-Served p s r l busy
    by_flag false idle = elim (Bool-cases (ltb 0 r.write_needed_events)) [
      | inl event ↦ rw event (handle_internal-Served p s r l idle)
      | inr no_event ↦
          let empty : r.send_queue ≡ [] = ground (arith, l.woken) in
          rw no_event record {
            rpc = r;
            live = l;
            made = record {
              draining = l.draining;
              same = record { same_outgoing = refl; same_type = refl };
              shorter = rw empty refl;
              same_done = refl;
              going = inl empty;
            };
          }
    ]

-- The object is in flight with an empty send queue, and all that was to go out has been sent.
pub record Drained (p : ℕ) (r : Rpc) (t : Service) : Type 0 where
  pub rpc : Rpc
  pub there : lookup p t.active_rpcs ≡ some rpc
  pub empty : rpc.send_queue ≡ []
  pub all_sent : sent rpc.log ≡ outgoing r

rounds-Drained :
    (n p : ℕ) (s : Service) (r : Rpc)
    → Live p r s
    → length r.send_queue ≤ n
    → Returns (Drained p r) (rounds n p s)
unfolding rounds
rounds-Drained zero p s r l b =
    let none_left : r.send_queue ≡ [] = length_zero r.send_queue b in
    record {
      rpc = r;
      there = l.there;
      empty = none_left;
      all_sent = rw none_left (sym (append-nil (sent r.log)));
    }
rounds-Drained (suc n) p s r l b =
    Returns->>= (Served p r) (Drained p r) (round p s) _ (round-Served p s r l) λ s1 v.
      Returns-map (Drained p v.rpc) (Drained p r) (rounds n p s1)
        (rounds-Drained n p s1 v.rpc v.live (rw v.made.shorter (tail-length r.send_queue n b)))
        λ t d. record {
          rpc = d.rpc;
          there = d.there;
          empty = d.empty;
          all_sent = d.all_sent ∙ v.made.same.same_outgoing;
        }

-- In every reachable state, of a connected object in flight whose call has not ended, of which no
-- Finish has been started, and with at most n items in its send queue, of which only the last may end
-- the call: if n times gRPC returns the write that is outstanding, or, if there is none, a
-- WRITE_NEEDED event that stands in the event queue is handled, then all of this returns, the object
-- is still in flight, its queue is empty, and what has been sent is what had been sent before and
-- then every item of the queue, in order.
pub reachable-Drained :
    {infos : List (Name × RpcHandlerInfo)} {selector : Selector} {queues : List ℕ} {s : Service}
    (h : HasQueues selector) (reached : Reach infos selector queues s) (n p : ℕ) (r : Rpc)
    → lookup p s.active_rpcs ≡ some r
    → is_connected r.log ≡ true
    → r.done_event.pending ≡ true
    → r.finish_event.pending ≡ false
    → is_finished r.log ≡ false
    → Orderly r.rpc_type r.send_queue
    → length r.send_queue ≤ n
    → Returns (Drained p r) (rounds n p s)
reachable-Drained {s = s} h reached n p r there c d f u o b =
    rounds-Drained n p s r
      (record {
        there = there;
        draining = record {
          inv = ((Reach-Sound h reached).fit p r (λ e. cc) there).inv;
          connected = c;
          open_end = inr f;
          orderly = o;
        };
        unfinished = d;
        woken = elim ((Reach-Sound h reached).fit p r (λ e. cc) there).awake [
          | inl empty ↦ inl empty
          | inr (inl writing) ↦ inr (inl writing)
          | inr (inr (inl finished)) ↦ absurd (ground arith)
          | inr (inr (inr pushed)) ↦ inr (inr pushed)
        ];
      })
      b
