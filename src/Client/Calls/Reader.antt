-- ===== src/Client/Calls/Reader.antt =====
-- Any calls of the methods of the server-streaming client (async_grpc/client.h).
use async_grpc.Base.{
  ◌≡◌, refl, Bool, true, false, Option, none, some, List, [], ◌∷◌, ◌++◌, map, Outcome, ok, fault,
  ◌>>=◌, check_failed, onto, if◌then◌else◌,
}
use async_grpc.Rpc.Types.{Message, Status, status_ok}
use async_grpc.Client.ServerStreaming
use async_grpc.Client.ServerStreaming.{ServerStreaming, ReaderDeed}
use async_grpc.Client.Calls.{run, run-after}

-- A call of a method, with what gRPC answers it.
pub data ReaderCall : Type 0 where
  write : Message → ReaderCall
  read : Option Message → ReaderCall
  finish : Status → ReaderCall

-- What a method returns.
pub data ReaderAnswer : Type 0 where
  wrote : Bool → Status → ReaderAnswer
  was_read : Option Message → ReaderAnswer
  finished : Status → ReaderAnswer

abbrev pub call : ReaderCall → ServerStreaming → Outcome (ReaderAnswer × ServerStreaming)
call (write m) c = let (b, s, c1) = ServerStreaming.write m c in ok (wrote b s, c1)
call (read response) c = do (m, c1) ← ServerStreaming.stream_read response c; ok (was_read m, c1)
call (finish status) c = do (s, c1) ← ServerStreaming.stream_finish status c; ok (finished s, c1)

-- What each call returns, and what it has gRPC do.
abbrev pub answer : ReaderCall → ReaderAnswer
answer (write m) = wrote true status_ok
answer (read response) = was_read response
answer (finish status) = finished status

abbrev pub deed : ReaderCall → ReaderDeed
deed (write m) = ReaderDeed.created_reader m
deed (read response) = ReaderDeed.read
deed (finish status) = ReaderDeed.finished

-- The client after the calls, newest first, the oldest of which has made a reader.
abbrev pub reading : ServerStreaming → List ReaderCall → ServerStreaming
reading c h = record { client_reader = true; deeds = map deed h ++ c.deeds }

call-reading :
    (c : ServerStreaming) (x : ReaderCall) (h : List ReaderCall)
    → call x (reading c h) ≡ ok (answer x, reading c (x ∷ h))
unfolding ServerStreaming.write ServerStreaming.stream_read ServerStreaming.stream_finish
call-reading c (write m) h = refl
call-reading c (read response) h = refl
call-reading c (finish status) h = refl

-- The first call, if there is one, is a Write.
abbrev starts_with_write : List ReaderCall → Bool
starts_with_write [] = true
starts_with_write (write m ∷ xs) = true
starts_with_write (read response ∷ xs) = false
starts_with_write (finish status ∷ xs) = false

-- The client after the calls.
abbrev after_all : List ReaderCall → ServerStreaming
after_all [] = ServerStreaming.construct
after_all (x ∷ xs) = reading ServerStreaming.construct (onto (x ∷ xs) [])

-- Whatever is called, also what the client is not made for: a second Write on the same context.
run_all-construct :
    (xs : List ReaderCall)
    → run call xs ServerStreaming.construct
      ≡ (if starts_with_write xs then ok (map answer xs, after_all xs) else fault check_failed)
unfolding run ServerStreaming.construct ServerStreaming.write ServerStreaming.stream_read
    ServerStreaming.stream_finish
run_all-construct [] = refl
run_all-construct (write m ∷ xs) =
    rw
      (run-after call answer (reading ServerStreaming.construct)
        (call-reading ServerStreaming.construct) xs (write m ∷ []))
      refl
run_all-construct (read response ∷ xs) = refl
run_all-construct (finish status ∷ xs) = refl

-- What follows the Write of an invocation.
pub data Later : Type 0 where
  reads : Option Message → Later
  finishes : Status → Later

abbrev pub later : Later → ReaderCall
later (reads response) = read response
later (finishes status) = finish status

-- The one invocation that a client is made for: its Write, unless that is forgotten, and then any
-- calls of StreamRead and StreamFinish.
abbrev pub invocation : Option Message → List Later → List ReaderCall
invocation none xs = map later xs
invocation (some m) xs = write m ∷ map later xs

abbrev pub result : Option Message → List Later → Outcome (List ReaderAnswer × ServerStreaming)
result none [] = ok ([], ServerStreaming.construct)
result none (x ∷ xs) = fault check_failed
result (some m) xs = ok (
  map answer (invocation (some m) xs),
  reading ServerStreaming.construct (onto (invocation (some m) xs) []),
)

-- One invocation of a new server-streaming client, whatever gRPC answers. Behind a Write, any calls of
-- StreamRead and StreamFinish return: the Write makes one reader, with its request, and returns true
-- and an OK status, which gRPC has no part in, and each other call has gRPC do its own operation, in
-- order, and returns what gRPC answers. Without a Write, the first of them fails a CHECK.
pub run_reader-construct :
    (request : Option Message) (xs : List Later)
    → run call (invocation request xs) ServerStreaming.construct ≡ result request xs
unfolding run ServerStreaming.construct
run_reader-construct none [] = refl
run_reader-construct none (reads response ∷ xs) = run_all-construct (read response ∷ map later xs)
run_reader-construct none (finishes status ∷ xs) = run_all-construct (finish status ∷ map later xs)
run_reader-construct (some m) xs = run_all-construct (write m ∷ map later xs)
