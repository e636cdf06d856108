-- ===== src/AsyncClient/Streaming.antt =====
-- The asynchronous client of a server-streaming method (async_grpc/async_client.h).
use async_grpc.Base.{
  onto, sym, subst, ℕ, zero, suc, ◌≡◌, refl, ap, Bool, true, false, none, some, List, [], ◌∷◌, ◌++◌,
  map, Outcome, ok, ◌>>=◌, Returns, Returns->>=, Returns-map, arith, if◌then◌else◌, length,
  replicate, All,
}
use async_grpc.Rpc.Types.{Message, message, Status, status_ok}
use async_grpc.AsyncClient.{
  AsyncClient, CallbackCall, Operation, finish, read, write, start_call, start_read, start_finish,
  construct, write_streaming, handle_streaming_event, operate, call_back, call_back_last,
  write_failed, finish_failed,
}

-- What gRPC hands back, with what it fills before: the call is started or not, a message or the end
-- of the stream, and the status of the whole call.
pub data Delivery : Type 0 where
  started : Bool → Delivery
  arrived : Message → Delivery
  no_more : Delivery
  concluded : Bool → Status → Delivery

unfoldable deliver : Delivery → AsyncClient → Outcome AsyncClient
unfolding handle_streaming_event
deliver (started success) c = handle_streaming_event write success c
deliver (arrived m) c = handle_streaming_event read true (record c { response = m })
deliver no_more c = handle_streaming_event read false c
deliver (concluded success status) c =
    handle_streaming_event finish success (record c { finish_status = status })

unfoldable pub deliver_all : List Delivery → AsyncClient → Outcome AsyncClient
unfolding deliver
deliver_all [] c = ok c
deliver_all (d ∷ ds) c = do c1 ← deliver d c; deliver_all ds c1

-- The call of the callback for a message, and the last one.
abbrev for_message : Message → CallbackCall
for_message m = record { status = status_ok; response = some m }

abbrev the_last : Status → CallbackCall
the_last status = record { status = status; response = none }

-- The rest of a stream: its messages, the end, and the conclusion.
abbrev pub rest_of_stream : List Message → Bool → Status → List Delivery
rest_of_stream [] success status = no_more ∷ concluded success status ∷ []
rest_of_stream (m ∷ ms) success status = arrived m ∷ rest_of_stream ms success status

-- What a client has done once such a rest is delivered.
abbrev after_read : Bool → Message → AsyncClient → AsyncClient
after_read callback m c = record c {
  response = m;
  calls = if callback then for_message m ∷ c.calls else c.calls;
  operations = start_read ∷ c.operations;
}

pub record Streamed (callback : Bool) (ms : List Message) (success : Bool)
    (before after : AsyncClient) : Type 0 where
  called : after.calls ≡ (
      if callback
      then the_last (if success then status_ok else finish_failed)
        ∷ onto (map for_message ms) before.calls
      else before.calls)
  ended : after.callback ≡ false
  read_all :
      after.operations ≡ start_finish ∷ (replicate (length ms) start_read ++ before.operations)

replicate-snoc {ℓ} :
    {A : Type ℓ} (n : ℕ) (x : A) (xs : List A) → replicate n x ++ x ∷ xs ≡ x ∷ (replicate n x ++ xs)
replicate-snoc zero x xs = refl
replicate-snoc (suc n) x xs = ap (◌∷◌ x) (replicate-snoc n x xs)

rest-Streamed :
    (callback : Bool) (ms : List Message) (success : Bool) (status : Status) (c : AsyncClient)
    → c.callback ≡ callback
    → c.response_reader ≡ true
    → Returns (Streamed callback ms success c) (deliver_all (rest_of_stream ms success status) c)
unfolding deliver_all
rest-Streamed true [] success status c e r = ground arith
rest-Streamed false [] success status c e r = ground arith
rest-Streamed true (m ∷ ms) success status c e r = ground (
  arith,
  rest-Streamed true ms success status (after_read true m c) e r,
  replicate-snoc (length ms) start_read c.operations,
)
rest-Streamed false (m ∷ ms) success status c e r = ground (
  arith,
  rest-Streamed false ms success status (after_read false m c) e r,
  replicate-snoc (length ms) start_read c.operations,
)

-- The client once WriteAsync has started the call, and once it reads.
abbrev pub started_client : Bool → AsyncClient
started_client callback = record {
  callback = callback;
  response_reader = true;
  response = message 0;
  finish_status = status_ok;
  operations = start_call ∷ [];
  calls = [];
}

abbrev pub reading : Bool → AsyncClient
reading callback = record (started_client callback) { operations = start_read ∷ start_call ∷ [] }

-- A call that gRPC starts and whose messages it delivers to the end, for every number of messages.
-- The client starts the call, reads once more than there are messages and asks for the end of the
-- call. A callback is called once for each message, in order, with an OK status and the message,
-- then once with no response, and is dropped. The status of that last call is OK exactly if the
-- tag of the end succeeds: the status that gRPC gives the call does not occur in it.
pub stream_call_backs :
    (callback : Bool) (ms : List Message) (success : Bool) (status : Status)
    → Returns (Streamed callback ms success (reading callback)) (
        write_streaming (construct callback)
        >>= deliver_all (started true ∷ rest_of_stream ms success status))
unfolding write_streaming construct deliver_all
stream_call_backs callback ms success status =
    rest-Streamed callback ms success status (reading callback) refl refl

-- A call that gRPC fails to start: the callback is called once, with the status of the failed
-- write and no response, and not again when the call is finished, whatever gRPC says of it.
failed_write_call_back :
    (callback success : Bool) (status : Status)
    → Returns
        (λ c.
          (c.calls ≡ (if callback then the_last write_failed ∷ [] else []))
          × (c.operations ≡ start_finish ∷ start_call ∷ []))
        (write_streaming (construct callback)
          >>= deliver_all (started false ∷ concluded success status ∷ []))
unfolding write_streaming construct deliver_all
failed_write_call_back true success status = (refl, refl)
failed_write_call_back false success status = (refl, refl)

abbrev HasResponse : CallbackCall → Type 0
HasResponse k = ¬ (k.response ≡ none)

-- Only the newest call may be without a response, and only once the callback is dropped.
abbrev pub OneLast : Bool → List CallbackCall → Type 0
OneLast true calls = All HasResponse calls
OneLast false [] = Unit
OneLast false (k ∷ ks) = All HasResponse ks

record Reading (c : AsyncClient) : Type 0 where
  reader : c.response_reader ≡ true
  one_last : OneLast c.callback c.calls

operate-Reading : (o : Operation) (c : AsyncClient) → Reading c → Returns Reading (operate o c)
unfolding operate
operate-Reading o c v = simp (v.reader) record { reader = refl; one_last = v.one_last }

call_back_last-Reading :
    (status : Status) (c : AsyncClient) → Reading c → Reading (call_back_last status c)
call_back_last-Reading status c v = by_flag c.callback refl
  where
    by_flag :
        (b : Bool)
        → c.callback ≡ b
        → Reading (if b then record (call_back status none c) { callback = false } else c)
    by_flag true e = record {
      reader = v.reader;
      one_last = subst (λ b. OneLast b c.calls) e v.one_last;
    }
    by_flag false e = v

call_back_message-Reading :
    (m : Message) (c : AsyncClient)
    → Reading c
    → Reading (
        if c.callback
        then call_back status_ok (some m) (record c { response = m })
        else (record c { response = m }))
call_back_message-Reading m c v = by_flag c.callback refl
  where
    by_flag :
        (b : Bool)
        → c.callback ≡ b
        → Reading (
            if b
            then call_back status_ok (some m) (record c { response = m })
            else (record c { response = m }))
    by_flag true e = record {
      reader = v.reader;
      one_last =
          subst (λ b. OneLast b (for_message m ∷ c.calls)) (sym e)
            (λ h. ground arith, subst (λ b. OneLast b c.calls) e v.one_last);
    }
    by_flag false e = record { reader = v.reader; one_last = v.one_last }

deliver-Reading : (d : Delivery) (c : AsyncClient) → Reading c → Returns Reading (deliver d c)
unfolding deliver handle_streaming_event
deliver-Reading (started true) c v = operate-Reading start_read c v
deliver-Reading (started false) c v =
    let w = call_back_last-Reading write_failed c v in
    operate-Reading start_finish
      (record (call_back_last write_failed c) { finish_status = write_failed })
      record { reader = w.reader; one_last = w.one_last }
deliver-Reading (arrived m) c v = operate-Reading start_read _ (call_back_message-Reading m c v)
deliver-Reading no_more c v =
    operate-Reading start_finish (record c { finish_status = status_ok })
      record { reader = v.reader; one_last = v.one_last }
deliver-Reading (concluded success status) c v =
    call_back_last-Reading (if success then status_ok else finish_failed)
      (record c { finish_status = status }) record { reader = v.reader; one_last = v.one_last }

deliver_all-Reading :
    (ds : List Delivery) (c : AsyncClient) → Reading c → Returns Reading (deliver_all ds c)
unfolding deliver_all
deliver_all-Reading [] c v = v
deliver_all-Reading (d ∷ ds) c v =
    Returns->>= Reading Reading (deliver d c) (deliver_all ds) (deliver-Reading d c v)
      (deliver_all-Reading ds)

-- Whatever gRPC delivers after the call is started, and in whatever order, the client never faults,
-- and only the newest call of its callback may be one without a response: once the callback has
-- been told the end it is never called again.
pub deliver_all-OneLast :
    (callback : Bool) (ds : List Delivery)
    → Returns
        (λ c. OneLast c.callback c.calls)
        (write_streaming (construct callback) >>= deliver_all ds)
unfolding write_streaming construct
deliver_all-OneLast callback ds =
    Returns-map Reading (λ c. OneLast c.callback c.calls) (deliver_all ds (started_client callback))
      (deliver_all-Reading ds (started_client callback) (by_flag callback)) λ c v. v.one_last
  where
    by_flag : (b : Bool) → Reading (started_client b)
    by_flag true = record { reader = refl; one_last = tt }
    by_flag false = record { reader = refl; one_last = tt }
