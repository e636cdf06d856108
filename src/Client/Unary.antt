-- ===== src/Client/Unary.antt =====
-- Client<…, NORMAL_RPC> (async_grpc/client.h). gRPC's BlockingUnaryCall is a parameter, which
-- answers by the calls so far; the clock is an argument of Write.
pub mod Laws
use async_grpc.Base.{ℕ, suc, Bool, Option, none, some, List, [], ◌∷◌}
use async_grpc.Rpc.Types.{Message, message, Status, status_ok}
use async_grpc.Retry.{RetryStrategy, retry_with_strategy}

-- ::grpc::ClientContext: which one it is, and its deadline, if one is set. `T` is the type of
-- std::chrono::system_clock::time_point.
pub record ClientContext (T : Type 0) : Type 0 where
  pub ident : ℕ
  pub deadline : Option T

-- What a client does: a call, with its context, its request and its answer, and a sleep.
pub data ClientDeed (D T : Type 0) : Type 0 where
  called : ClientContext T → Message → Status → Message → ClientDeed D T
  slept : D → ClientDeed D T

-- The fields of the class; `next_context` counts the contexts, and `deeds` is kept newest first.
pub record UnaryClient (D T : Type 0) : Type 0 where
  pub client_context : ClientContext T
  pub timeout : Option D
  pub response : Message
  pub retry_strategy : Option (RetryStrategy D)
  pub next_context : ℕ
  pub deeds : List (ClientDeed D T)

-- What the function objects of one Write share: `this`, and the variable `internal_status`.
pub record Writing (D T : Type 0) : Type 0 where
  pub client : UnaryClient D T
  pub internal_status : Status

module _ {D T : Type 0} where
  -- The constructor with a timeout and a retry strategy, and the one without.
  unfoldable pub construct_with : Option D → Option (RetryStrategy D) → UnaryClient D T
  construct_with timeout retry_strategy = record {
    client_context = record { ident = 0; deadline = none };
    timeout = timeout;
    response = message 0;
    retry_strategy = retry_strategy;
    next_context = 1;
    deeds = [];
  }

  unfoldable pub construct : UnaryClient D T
  unfolding construct_with
  construct = construct_with none none

  -- client_context_ = ResetContext(deadline).
  unfoldable reset_context : Option T → UnaryClient D T → UnaryClient D T
  reset_context deadline c = record c {
    client_context = record { ident = c.next_context; deadline = deadline };
    next_context = suc c.next_context;
  }

  -- The deadline of a Write that starts now.
  abbrev pub deadline_of : (T → D → T) → T → Option D → Option T
  deadline_of plus now none = none
  deadline_of plus now (some timeout) = some (plus now timeout)

  -- std::this_thread::sleep_for, noted among the deeds.
  abbrev pub sleep_for : D → Writing D T → Writing D T
  sleep_for delay w = record w {
    client = record (w.client) { deeds = slept delay ∷ w.client.deeds };
  }

  -- The second function object of Write.
  unfoldable pub reset : Option T → Writing D T → Writing D T
  unfolding reset_context
  reset deadline w = record w { client = reset_context deadline w.client }

  module _ (blocking_unary_call : List (ClientDeed D T) → Message → Status × Message) where
    -- MakeBlockingUnaryCall.
    unfoldable make_blocking_unary_call : Message → UnaryClient D T → Status × UnaryClient D T
    make_blocking_unary_call request c =
        let (status, response) = blocking_unary_call c.deeds request in
        (
          status,
          record c {
            response = response;
            deeds = called c.client_context request status response ∷ c.deeds;
          },
        )

    -- WriteImpl, which sets `internal_status`, as the first function object of Write calls it.
    unfoldable pub write_impl : Message → Writing D T → Status × Writing D T
    unfolding make_blocking_unary_call
    write_impl request w =
        let (status, c) = make_blocking_unary_call request w.client in
        (status, record { client = c; internal_status = status })

    -- Write: what it returns, and beside the client the status that it stores. `plus` adds a
    -- duration to a time_point; the rounds bound the attempts.
    unfoldable pub write :
        ℕ → (T → D → T) → T → Message → UnaryClient D T → Option (Bool × Writing D T)
    unfolding retry_with_strategy write_impl reset
    write rounds plus now request c =
        let deadline = deadline_of plus now c.timeout in
        retry_with_strategy rounds c.retry_strategy (write_impl request) sleep_for
          (some (reset deadline))
          (record { client = reset_context deadline c; internal_status = status_ok })
