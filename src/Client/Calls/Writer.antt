-- ===== src/Client/Calls/Writer.antt =====
-- Any calls of the methods of the client-streaming client (async_grpc/client.h).
use async_grpc.Base.{◌≡◌, refl, Bool, true, List, [], ◌∷◌, ◌++◌, map, Outcome, ok, ◌>>=◌, onto}
use async_grpc.Rpc.Types.{Message, message, Status, status_ok}
use async_grpc.Client.ClientStreaming
use async_grpc.Client.ClientStreaming.{ClientStreaming, WriterDeed}
use async_grpc.Client.Calls.{run, run-after}

-- A call of a method, with what gRPC answers it.
pub data WriterCall : Type 0 where
  write : Bool → Message → WriterCall
  writes_done : Bool → WriterCall
  finish : Status → Message → WriterCall

-- What a method returns.
pub data WriterAnswer : Type 0 where
  wrote : Bool → Status → WriterAnswer
  done : Bool → WriterAnswer
  finished : Status → WriterAnswer

abbrev pub call : WriterCall → ClientStreaming → Outcome (WriterAnswer × ClientStreaming)
call (write accepted m) c = do (b, s, c1) ← ClientStreaming.write accepted m c; ok (wrote b s, c1)
call (writes_done accepted) c = do
  (b, c1) ← ClientStreaming.stream_writes_done accepted c
  ok (done b, c1)
call (finish status m) c = do
  (s, c1) ← ClientStreaming.stream_finish status m c
  ok (finished s, c1)

-- What each call returns, and what it has gRPC do.
abbrev pub answer : WriterCall → WriterAnswer
answer (write accepted m) = wrote true status_ok
answer (writes_done accepted) = done accepted
answer (finish status m) = finished status

abbrev pub deed : WriterCall → WriterDeed
deed (write accepted m) = WriterDeed.wrote m
deed (writes_done accepted) = WriterDeed.ended_writes
deed (finish status m) = WriterDeed.finished

-- The response after the calls, newest first.
abbrev latest_response : List WriterCall → Message
latest_response [] = message 0
latest_response (write accepted m ∷ h) = latest_response h
latest_response (writes_done accepted ∷ h) = latest_response h
latest_response (finish status m ∷ h) = m

-- The client after the calls, newest first.
abbrev pub after : List WriterCall → ClientStreaming
after [] = ClientStreaming.construct
after (x ∷ h) = record {
  client_writer = true;
  response = latest_response (x ∷ h);
  deeds = map deed (x ∷ h) ++ ClientStreaming.created_writer ∷ [];
}

made_deeds :
    (h : List WriterCall)
    → ClientStreaming.instantiate_client_writer_if_needed (after h) ≡ record {
      client_writer = true;
      response = latest_response h;
      deeds = map deed h ++ ClientStreaming.created_writer ∷ [];
    }
unfolding ClientStreaming.instantiate_client_writer_if_needed ClientStreaming.construct
made_deeds [] = refl
made_deeds (x ∷ h) = refl

call-after :
    (x : WriterCall) (h : List WriterCall) → call x (after h) ≡ ok (answer x, after (x ∷ h))
unfolding ClientStreaming.write ClientStreaming.stream_writes_done ClientStreaming.stream_finish
call-after (write accepted m) h = rw (made_deeds h) refl
call-after (writes_done accepted) h = rw (made_deeds h) refl
call-after (finish status m) h = rw (made_deeds h) refl

-- Any calls of the methods of a new client-streaming client, in any order and whatever gRPC answers,
-- return: the first call makes the writer, no later one does, and each has gRPC do its own
-- operation, in order. What gRPC answers is what they return, except that every Write returns true
-- and stores OK; the response is that of the last StreamFinish.
pub run_writer-construct :
    (xs : List WriterCall)
    → run call xs ClientStreaming.construct ≡ ok (map answer xs, after (onto xs []))
run_writer-construct xs = run-after call answer after call-after xs []
