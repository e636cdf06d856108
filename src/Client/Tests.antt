-- ===== src/Client/Tests.antt =====
-- The synchronous clients (async_grpc/client.h) on concrete calls.
use async_grpc.Base.{
  ℕ, ◌+◌, ◌≡◌, true, false, none, some, List, [], ◌∷◌, ok, map, onto, is_empty, arith,
  if◌then◌else◌,
}
use async_grpc.Rpc.Types.{Message, message, Status, status_ok}
use async_grpc.Retry.{
  RetryStrategy, create_retry_strategy, create_limited_retry_indicator,
  create_constant_delay_calculator,
}
use async_grpc.Retry.Rule.{GivesUpAt, Ends}
use async_grpc.Client.Unary.{ClientDeed, UnaryClient, construct_with, write, deadline_of}
use async_grpc.Client.Unary.Laws.{Written, write-Written}
use async_grpc.Client.ClientStreaming
use async_grpc.Client.ServerStreaming
use async_grpc.Client.Bidi
use async_grpc.Client.Calls.{run}
use async_grpc.Client.Calls.Writer
use async_grpc.Client.Calls.Writer.{WriterCall, run_writer-construct}
use async_grpc.Client.Calls.Reader
use async_grpc.Client.Calls.Reader.{
  Later, reads, finishes, invocation, result, run_reader-construct,
}
use async_grpc.Client.Calls.ReaderWriter
use async_grpc.Client.Calls.ReaderWriter.{BidiCall, run_bidi-construct}

-- ::grpc::UNAVAILABLE.
abbrev unavailable : Status
unavailable = record { error_code = 14; error_message = "" }

-- Two attempts, ten time units apart.
unfoldable twice : RetryStrategy ℕ
unfolding create_retry_strategy create_limited_retry_indicator create_constant_delay_calculator
twice =
    create_retry_strategy (create_limited_retry_indicator 2) (create_constant_delay_calculator 10)

twice-GivesUpAt : GivesUpAt (some twice) 2
unfolding twice
twice-GivesUpAt n status l = ground arith

-- A server that answers from the second attempt on.
abbrev answers : List (ClientDeed ℕ ℕ) → Message → Status × Message
answers deeds m = if is_empty deeds then (unavailable, message 0) else (status_ok, message 9)

abbrev patient : UnaryClient ℕ ℕ
patient = construct_with (some 30) (some twice)

write-Written_example :
    Ends
      (Written 2 (message 1) (deadline_of ◌+◌ 1000 patient.timeout) patient)
      (write answers 2 ◌+◌ 1000 (message 1) patient)
unfolding construct_with twice
write-Written_example =
    write-Written answers ◌+◌ 1000 (message 1) patient 2 twice-GivesUpAt 2 (omega arith)
      (omega arith)

abbrev writer_calls : List WriterCall
writer_calls =
    WriterCall.write true (message 1)
    ∷ WriterCall.write false (message 2)
    ∷ WriterCall.writes_done true
    ∷ WriterCall.finish status_ok (message 3)
    ∷ []

run_writer-construct_example :
    run Writer.call writer_calls ClientStreaming.construct
    ≡ ok (map Writer.answer writer_calls, Writer.after (onto writer_calls []))
run_writer-construct_example = run_writer-construct writer_calls

abbrev later_calls : List Later
later_calls = reads (some (message 1)) ∷ reads none ∷ finishes status_ok ∷ []

run_reader-construct_example :
    run Reader.call (invocation (some (message 2)) later_calls) ServerStreaming.construct
    ≡ result (some (message 2)) later_calls
run_reader-construct_example = run_reader-construct (some (message 2)) later_calls

abbrev bidi_calls : List BidiCall
bidi_calls =
    BidiCall.write false (message 1) ∷ BidiCall.read none ∷ BidiCall.finish unavailable ∷ []

run_bidi-construct_example :
    run ReaderWriter.call bidi_calls Bidi.construct
    ≡ ok (map ReaderWriter.answer bidi_calls, ReaderWriter.after (onto bidi_calls []))
run_bidi-construct_example = run_bidi-construct bidi_calls
