-- ===== src/AsyncClient/QueueTests.antt =====
-- Two asynchronous clients on one queue (async_grpc/completion_queue_pool.cc).
use async_grpc.Base.{
  ℕ, ◌≡◌, refl, sym, inl, inr, true, false, some, none, List, [], ◌∷◌, Returns, ◌==◌, Bool-cases,
  arith,
}
use async_grpc.Base.Assoc.{lookup}
use async_grpc.Rpc.Types.{message, status_ok}
use async_grpc.AsyncClient.{
  AsyncClient, finish, read, write, start_call, start_finish, handle_unary_event,
  handle_streaming_event, handle_write_event, handle_read_event, operate,
}
use async_grpc.AsyncClient.Streaming.{started_client}
use async_grpc.AsyncClient.Queue.{
  AnyClient, unary, streaming, ClientTag, Serves, Alone, run_client_queue, run_client_queue-Alone,
  handle_all, tags_of, handle_client_event,
}

abbrev asked : AsyncClient
asked = record (started_client true) { operations = start_finish ∷ start_call ∷ [] }

abbrev two_clients : List (ℕ × AnyClient)
two_clients = (1, unary asked) ∷ (2, streaming (started_client true)) ∷ []

-- The stream starts, the unary call ends, and the stream goes on to its end.
abbrev mixed_tags : List ClientTag
mixed_tags =
    record { async_client = 2; event = write; success = true; response = none; status = none }
    ∷ record {
      async_client = 1;
      event = finish;
      success = true;
      response = some (message 9);
      status = some status_ok;
    }
    ∷ record {
      async_client = 2;
      event = read;
      success = true;
      response = some (message 4);
      status = none;
    }
    ∷ record { async_client = 2; event = read; success = false; response = none; status = none }
    ∷ record {
      async_client = 2;
      event = finish;
      success = true;
      response = none;
      status = some status_ok;
    }
    ∷ []

mixed_tags-Serves : Serves mixed_tags two_clients
unfolding lookup handle_all tags_of handle_client_event handle_unary_event handle_streaming_event
    handle_write_event handle_read_event operate
mixed_tags-Serves = record {
  there = ((_, refl), ((_, refl), ((_, refl), ((_, refl), ((_, refl), tt)))));
  fine = λ p c at. elim (Bool-cases (1 == p)) [
    | inl first ↦
        let is_unary : unary asked ≡ c = ground arith in
        let other : (2 == p) ≡ false = ground arith in rw (first, other, sym is_unary) tt
    | inr other ↦ elim (Bool-cases (2 == p)) [
      | inl second ↦
          let is_streaming : streaming (started_client true) ≡ c = ground arith in
          rw (other, second, sym is_streaming) tt
      | inr neither ↦ absurd (ground arith)
    ]
  ];
}

run_client_queue-Alone_example :
    Returns (Alone mixed_tags two_clients) (run_client_queue mixed_tags two_clients)
run_client_queue-Alone_example = run_client_queue-Alone mixed_tags two_clients mixed_tags-Serves
