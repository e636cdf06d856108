-- ===== src/Client/Bidi.antt =====
-- Client<…, BIDI_STREAMING> (async_grpc/client.h). What gRPC's ClientReaderWriter answers is an
-- argument of each method.
use async_grpc.Base.{
  Bool, true, false, Option, List, [], ◌∷◌, Outcome, ok, fault, ◌>>=◌, null_dereference,
  if◌then◌else◌,
}
use async_grpc.Rpc.Types.{Message, Status, status_ok, is_ok}

-- What the client has gRPC do: make the reader-writer, read, write, end the stream of requests, and
-- finish the call.
pub data BidiDeed : Type 0 where
  created_reader_writer : BidiDeed
  read : BidiDeed
  wrote : Message → BidiDeed
  ended_writes : BidiDeed
  finished : BidiDeed

-- The fields of the class: whether client_reader_writer_ is set. `deeds` is kept newest first.
pub record Bidi : Type 0 where
  pub client_reader_writer : Bool
  pub deeds : List BidiDeed

unfoldable pub construct : Bidi
construct = record { client_reader_writer = false; deeds = [] }

-- InstantiateClientReaderWriterIfNeeded.
unfoldable pub instantiate_client_reader_writer_if_needed : Bidi → Bidi
instantiate_client_reader_writer_if_needed c =
    if c.client_reader_writer
    then c
    else record { client_reader_writer = true; deeds = created_reader_writer ∷ c.deeds }

-- A call through client_reader_writer_.
unfoldable pub through : BidiDeed → Bidi → Outcome Bidi
through deed c =
    if c.client_reader_writer
    then ok (record c { deeds = deed ∷ c.deeds })
    else fault null_dereference

-- StreamRead: `none` is the end of the stream, where Read returns false.
unfoldable pub stream_read : Option Message → Bidi → Outcome (Option Message × Bidi)
unfolding instantiate_client_reader_writer_if_needed through
stream_read response c = do
  c1 ← through read (instantiate_client_reader_writer_if_needed c)
  ok (response, c1)

-- WriteImpl, which does not touch the status that it is handed.
unfoldable pub write_impl : Bool → Message → Status → Bidi → Outcome (Bool × Status × Bidi)
unfolding instantiate_client_reader_writer_if_needed through
write_impl accepted request status c = do
  c1 ← through (wrote request) (instantiate_client_reader_writer_if_needed c)
  ok (accepted, status, c1)

-- Write: what it returns and the status that it stores.
unfoldable pub write : Bool → Message → Bidi → Outcome (Bool × Status × Bidi)
unfolding write_impl
write accepted request c = do
  (result, internal_status, c1) ← write_impl accepted request status_ok c
  ok (is_ok internal_status, internal_status, c1)

-- StreamWritesDone.
unfoldable pub stream_writes_done : Bool → Bidi → Outcome (Bool × Bidi)
unfolding instantiate_client_reader_writer_if_needed through
stream_writes_done accepted c = do
  c1 ← through ended_writes (instantiate_client_reader_writer_if_needed c)
  ok (accepted, c1)

-- StreamFinish.
unfoldable pub stream_finish : Status → Bidi → Outcome (Status × Bidi)
unfolding instantiate_client_reader_writer_if_needed through
stream_finish status c = do
  c1 ← through finished (instantiate_client_reader_writer_if_needed c)
  ok (status, c1)
