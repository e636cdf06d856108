-- ===== src/Server/EventLoop.antt =====
-- Server::RunEventQueue (async_grpc/server.cc): the loop of an event queue thread. What Handle does
-- is a parameter: the new state, and the events that it pushes to this queue.
pub mod Laws
use async_grpc.Base.{ℕ, zero, suc, Option, none, some, List, [], ◌∷◌, ◌++◌}
use async_grpc.BlockingQueue.{BlockingQueue, push, pop_with_timeout}

-- The thread's view. `entered` and `handled` are the events that have been in the queue and those
-- that were handled, both in order.
pub record Loop (E S : Type 0) : Type 0 where
  pub state : S
  pub queue : BlockingQueue E
  pub entered : List E
  pub handled : List E

infixl 5 ◌>>=◌
abbrev pub ◌>>=◌ {ℓ κ} : {A : Type ℓ} {B : Type κ} → Option A → (A → Option B) → Option B
none >>= f = none
some a >>= f = f a

-- What other threads push during the next wait of the second loop, if they do.
abbrev next_turn {ℓ} : {E : Type ℓ} → List (List E) → List E × List (List E)
next_turn [] = ([], [])
next_turn (turn ∷ turns) = (turn, turns)

module _ {E S : Type 0} where
  -- Pushes, one after the other. `none` is a push that waits.
  unfoldable push_all : List E → Loop E S → Option (Loop E S)
  unfolding push
  push_all [] l = some l
  push_all (e ∷ es) l = do
    q ← push e l.queue
    push_all es (record l { queue = q; entered = l.entered ++ e ∷ [] })

  -- PopWithTimeout, with what other threads push while it waits.
  unfoldable wait_and_pop : List E → Loop E S → Option (Option E × Loop E S)
  unfolding push_all pop_with_timeout
  wait_and_pop arrivals l = do
    l1 ← push_all arrivals l
    let (rpc_event, q) = pop_with_timeout l1.queue
    some (rpc_event, record l1 { queue = q })

  module _ (handle : E → S → S × List E) where
    -- rpc_event->Handle().
    unfoldable handle_and_push : E → Loop E S → Option (Loop E S)
    unfolding push_all
    handle_and_push e l =
        let (state, pushed) = handle e l.state in
        push_all pushed (record l { state = state; handled = l.handled ++ e ∷ [] })

    -- `if (rpc_event)`.
    unfoldable handle_if : Option E → Loop E S → Option (Loop E S)
    unfolding handle_and_push
    handle_if none l = some l
    handle_if (some e) l = handle_and_push e l

    -- The first loop. Each turn is what other threads push during the wait; after these turns
    -- shutting_down_ is found set.
    unfoldable pub serve : List (List E) → Loop E S → Option (Loop E S)
    unfolding wait_and_pop handle_if
    serve [] l = some l
    serve (turn ∷ turns) l = do
      (rpc_event, l1) ← wait_and_pop turn l
      l2 ← handle_if rpc_event l1
      serve turns l2

    -- The second loop. `none` may also mean that the rounds ran out.
    unfoldable finish_rest : ℕ → List (List E) → Loop E S → Option (Loop E S)
    unfolding wait_and_pop handle_and_push
    finish_rest zero late l = none
    finish_rest (suc rounds) late l = do
      (rpc_event, l1) ← wait_and_pop (next_turn late).0 l
      elim rpc_event [
        | none ↦ some l1
        | some e ↦ handle_and_push e l1 >>= finish_rest rounds (next_turn late).1
      ]

    -- Server::RunEventQueue.
    unfoldable run_event_queue : ℕ → List (List E) → List (List E) → Loop E S → Option (Loop E S)
    unfolding serve finish_rest
    run_event_queue rounds turns late l = do l1 ← serve turns l; finish_rest rounds late l1
