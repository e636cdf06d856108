-- ===== src/Client/Unary/Laws.antt =====
-- What one Write of the unary client (async_grpc/client.h) does, over all its attempts.
use async_grpc.Base.{
  ℕ, suc, ◌<◌, ◌≤◌, ◌≡◌, refl, ap, Bool, Option, none, some, List, [], ◌∷◌, ◌++◌, All, length,
  arith,
}
use async_grpc.Rpc.Types.{Message, Status, is_ok, status_ok}
use async_grpc.Retry.Rule.{GivesUpAt, Ends, retry_with_strategy-Ends}
use async_grpc.Client.Unary.{
  ClientDeed, called, slept, UnaryClient, Writing, reset_context, deadline_of, sleep_for,
  write_impl, reset, write,
}

-- Contexts, the newest first, that are all different, from `lo` on and below `hi`.
abbrev AreFresh : ℕ → ℕ → List ℕ → Type 0
AreFresh lo hi [] = Unit
AreFresh lo hi (i ∷ rest) = (lo ≤ i) × (i < hi) × AreFresh lo i rest

module _ {D T : Type 0} where
  -- The calls among the deeds, by their contexts.
  abbrev pub contexts : List (ClientDeed D T) → List ℕ
  contexts [] = []
  contexts (called k request status response ∷ deeds) = k.ident ∷ contexts deeds
  contexts (slept delay ∷ deeds) = contexts deeds

  -- The answer to the last call.
  abbrev last_answer : List (ClientDeed D T) → Option (Status × Message)
  last_answer [] = none
  last_answer (called k request status response ∷ deeds) = some (status, response)
  last_answer (slept delay ∷ deeds) = last_answer deeds

  -- A call with the request and the deadline.
  abbrev pub IsFor : Message → Option T → ClientDeed D T → Type 0
  IsFor request deadline (called k m status response) = (m ≡ request) × (k.deadline ≡ deadline)
  IsFor request deadline (slept delay) = Unit

  -- The deeds of a Write on `c` that has come to `c1`.
  pub record Deeds (request : Message) (deadline : Option T) (c c1 : UnaryClient D T) : Type 0 where
    pub deeds : List (ClientDeed D T)
    pub added : c1.deeds ≡ deeds ++ c.deeds
    pub suited : All (IsFor request deadline) deeds
    pub fresh : AreFresh c.next_context c1.next_context (contexts deeds)

  -- Before an attempt, after n failed ones.
  record Trying (request : Message) (deadline : Option T) (c : UnaryClient D T) (n : ℕ)
      (c1 : UnaryClient D T) : Type 0 where
    deeds : List (ClientDeed D T)
    added : c1.deeds ≡ deeds ++ c.deeds
    suited : All (IsFor request deadline) deeds
    fresh : AreFresh c.next_context c1.client_context.ident (contexts deeds)
    counted : length (contexts deeds) ≡ n
    ahead : c.next_context ≤ c1.client_context.ident
    newest : c1.next_context ≡ suc c1.client_context.ident
    set : c1.client_context.deadline ≡ deadline

  -- After a Write: what it returned and stored.
  pub record Written (limit : ℕ) (request : Message) (deadline : Option T) (c : UnaryClient D T)
      (result : Bool) (w : Writing D T) : Type 0 where
    pub made : Deeds request deadline c w.client
    pub some_attempt : 0 < length (contexts made.deeds)
    pub within : length (contexts made.deeds) ≤ limit
    pub answered : last_answer made.deeds ≡ some (w.internal_status, w.client.response)
    pub returned : result ≡ is_ok w.internal_status

  module _ (blocking_unary_call : List (ClientDeed D T) → Message → Status × Message)
      (plus : T → D → T) (now : T) (request : Message) (c : UnaryClient D T) (limit : ℕ)
      (stops : GivesUpAt c.retry_strategy limit) where
    abbrev deadline : Option T
    deadline = deadline_of plus now c.timeout

    -- The call that an attempt makes.
    abbrev this_call : UnaryClient D T → ClientDeed D T
    this_call c1 =
        let (status, response) = blocking_unary_call c1.deeds request in
        called c1.client_context request status response

    attempt-Written :
        (n : ℕ) (w : Writing D T)
        → Trying request deadline c n w.client
        → n < limit
        → Written limit request deadline c
            (is_ok (write_impl blocking_unary_call request w).0)
            (write_impl blocking_unary_call request w).1
    unfolding write_impl
    attempt-Written n w v l = record {
      made = record {
        deeds = this_call w.client ∷ v.deeds;
        added = ap (◌∷◌ (this_call w.client)) v.added;
        suited = ((refl, v.set), v.suited);
        fresh = (v.ahead, omega (arith, v.newest), v.fresh);
      };
      some_attempt = omega arith;
      within = omega (arith, v.counted);
      answered = refl;
      returned = refl;
    }

    again-Trying :
        (n : ℕ) (w : Writing D T) (delay : D)
        → Trying request deadline c n w.client
        → Trying request deadline c
            (suc n)
            (reset deadline (sleep_for delay (write_impl blocking_unary_call request w).1)).client
    unfolding write_impl reset
    again-Trying n w delay v = record {
      deeds = slept delay ∷ this_call w.client ∷ v.deeds;
      added = ap (λ deeds. slept delay ∷ this_call w.client ∷ deeds) v.added;
      suited = (tt, ((refl, v.set), v.suited));
      fresh = (v.ahead, omega (arith, v.newest), v.fresh);
      counted = omega (arith, v.counted);
      ahead = omega (arith, v.newest, v.ahead);
      newest = refl;
      set = refl;
    }

    -- One Write of a client whose strategy gives up at the latest after `limit` failed attempts,
    -- with that many rounds: it makes at least one call and at most `limit`, each with the request,
    -- with a context that no other call has used, and with the same deadline, now plus the timeout,
    -- if there is one. It returns whether the last call succeeded, and leaves that call's status and
    -- response.
    pub write-Written :
        (rounds : ℕ)
        → 0 < limit
        → limit ≤ rounds
        → Ends
            (Written limit request deadline c)
            (write blocking_unary_call rounds plus now request c)
    unfolding write
    write-Written rounds l m =
        retry_with_strategy-Ends c.retry_strategy (write_impl blocking_unary_call request) sleep_for
          (some (reset deadline)) limit stops (λ n w. Trying request deadline c n w.client)
          (Written limit request deadline c) attempt-Written again-Trying rounds
          (record { client = reset_context deadline c; internal_status = status_ok })
          record {
            deeds = [];
            added = refl;
            suited = tt;
            fresh = tt;
            counted = refl;
            ahead = omega arith;
            newest = refl;
            set = refl;
          }
          l m
