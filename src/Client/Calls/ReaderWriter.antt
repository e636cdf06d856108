-- ===== src/Client/Calls/ReaderWriter.antt =====
-- Any calls of the methods of the bidirectional client (async_grpc/client.h).
use async_grpc.Base.{
  ◌≡◌, refl, Bool, true, Option, List, [], ◌∷◌, ◌++◌, map, Outcome, ok, ◌>>=◌, onto,
}
use async_grpc.Rpc.Types.{Message, Status, status_ok}
use async_grpc.Client.Bidi
use async_grpc.Client.Bidi.{Bidi, BidiDeed}
use async_grpc.Client.Calls.{run, run-after}

-- A call of a method, with what gRPC answers it.
pub data BidiCall : Type 0 where
  write : Bool → Message → BidiCall
  writes_done : Bool → BidiCall
  finish : Status → BidiCall
  read : Option Message → BidiCall

-- What a method returns.
pub data BidiAnswer : Type 0 where
  wrote : Bool → Status → BidiAnswer
  done : Bool → BidiAnswer
  finished : Status → BidiAnswer
  was_read : Option Message → BidiAnswer

abbrev pub call : BidiCall → Bidi → Outcome (BidiAnswer × Bidi)
call (write accepted m) c = do (b, s, c1) ← Bidi.write accepted m c; ok (wrote b s, c1)
call (writes_done accepted) c = do (b, c1) ← Bidi.stream_writes_done accepted c; ok (done b, c1)
call (finish status) c = do (s, c1) ← Bidi.stream_finish status c; ok (finished s, c1)
call (read response) c = do (m, c1) ← Bidi.stream_read response c; ok (was_read m, c1)

-- What each call returns, and what it has gRPC do.
abbrev pub answer : BidiCall → BidiAnswer
answer (write accepted m) = wrote true status_ok
answer (writes_done accepted) = done accepted
answer (finish status) = finished status
answer (read response) = was_read response

abbrev pub deed : BidiCall → BidiDeed
deed (write accepted m) = BidiDeed.wrote m
deed (writes_done accepted) = BidiDeed.ended_writes
deed (finish status) = BidiDeed.finished
deed (read response) = BidiDeed.read

-- The client after the calls, newest first.
abbrev pub after : List BidiCall → Bidi
after [] = Bidi.construct
after (x ∷ h) = record {
  client_reader_writer = true;
  deeds = map deed (x ∷ h) ++ Bidi.created_reader_writer ∷ [];
}

made_deeds :
    (h : List BidiCall)
    → Bidi.instantiate_client_reader_writer_if_needed (after h) ≡ record {
      client_reader_writer = true;
      deeds = map deed h ++ Bidi.created_reader_writer ∷ [];
    }
unfolding Bidi.instantiate_client_reader_writer_if_needed Bidi.construct
made_deeds [] = refl
made_deeds (x ∷ h) = refl

call-after : (x : BidiCall) (h : List BidiCall) → call x (after h) ≡ ok (answer x, after (x ∷ h))
unfolding Bidi.write Bidi.stream_writes_done Bidi.stream_finish Bidi.stream_read
call-after (write accepted m) h = rw (made_deeds h) refl
call-after (writes_done accepted) h = rw (made_deeds h) refl
call-after (finish status) h = rw (made_deeds h) refl
call-after (read response) h = rw (made_deeds h) refl

-- Any calls of the methods of a new bidirectional client, in any order and whatever gRPC answers,
-- return: the first call makes the reader-writer, no later one does, and each has gRPC do its own
-- operation, in order. What gRPC answers is what they return, except that every Write returns true
-- and stores OK.
pub run_bidi-construct :
    (xs : List BidiCall) → run call xs Bidi.construct ≡ ok (map answer xs, after (onto xs []))
run_bidi-construct xs = run-after call answer after call-after xs []
