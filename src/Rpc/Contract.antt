-- ===== src/Rpc/Contract.antt =====
-- What gRPC asks of the order in which an Rpc (async_grpc/rpc.h) starts its operations: the abstract
-- specification of the object's log. gRPC's documentation of the asynchronous server API states it.
use async_grpc.Base.{Bool, true, false, not, ◌&&◌, ◌||◌, Option, none, some, List, [], ◌∷◌}
use async_grpc.Rpc.Types.{
  RpcType, normal_rpc, client_streaming, server_streaming, bidi_streaming, Event, Interface,
  response_writer, reader, reader_writer, writer, Entry,
}

-- One call as gRPC sees it: which operations are outstanding, and how far it has come.
pub record Call : Type 0 where
  pub awaiting_done : Bool
  pub requested : Bool
  pub connected : Bool
  pub reading : Bool
  pub writing : Bool
  pub finishing : Bool

abbrev no_call : Call
no_call = record {
  awaiting_done = false;
  requested = false;
  connected = false;
  reading = false;
  writing = false;
  finishing = false;
}

-- The interface that a call of the given type is requested with.
abbrev pub serves : RpcType → Interface → Bool
serves normal_rpc response_writer = true
serves client_streaming reader = true
serves server_streaming writer = true
serves bidi_streaming reader_writer = true
serves _ _ = false

abbrev can_read : Interface → Bool
can_read reader = true
can_read reader_writer = true
can_read _ = false

abbrev can_write : Interface → Bool
can_write writer = true
can_write reader_writer = true
can_write _ = false

abbrev guarded : Bool → Call → Option Call
guarded true c = some c
guarded false c = none

-- A connected call with no write and no finish outstanding.
abbrev may_send : Call → Bool
may_send c = c.connected && not (c.writing || c.finishing)

-- One entry of the log: `none` if it may not be started, or come back, beside what is outstanding.
-- That a call has been finished before is not looked at here, but by `allows`.
unfoldable pub apply : Entry → Call → Option Call
apply Entry.async_notify_when_done c =
    guarded (not (c.awaiting_done || (c.requested || c.connected)))
      (record c { awaiting_done = true })
apply (Entry.request_async t i) c =
    guarded (serves t i && (c.awaiting_done && not (c.requested || c.connected)))
      (record c { requested = true })
apply (Entry.start_read i) c =
    guarded (can_read i && (c.connected && not c.reading)) (record c { reading = true })
apply (Entry.start_write i m) c = guarded (can_write i && may_send c) (record c { writing = true })
apply (Entry.finish i s) c = guarded (can_write i && may_send c) (record c { finishing = true })
apply (Entry.finish_unary i m s) c =
    guarded (not (can_write i) && may_send c) (record c { finishing = true })
apply (Entry.finish_with_error i s) c =
    guarded (not (can_write i) && may_send c) (record c { finishing = true })
apply (Entry.completed Event.new_connection) c =
    guarded c.requested (record c { requested = false; connected = true })
apply (Entry.completed Event.read) c = guarded c.reading (record c { reading = false })
apply (Entry.completed Event.write_needed) c = none
apply (Entry.completed Event.write) c = guarded c.writing (record c { writing = false })
apply (Entry.completed Event.finish) c = guarded c.finishing (record c { finishing = false })
apply (Entry.completed Event.done) c = guarded c.awaiting_done (record c { awaiting_done = false })

abbrev apply_after : Entry → Option Call → Option Call
apply_after e none = none
apply_after e (some c) = apply e c

-- A log, the newest entry first: the call as it stands, or `none` if one of its entries may not stand
-- beside what was outstanding.
unfoldable pub replay : List Entry → Option Call
unfolding apply
replay [] = some no_call
replay (e ∷ l) = apply_after e (replay l)

-- What writes to the client, and what ends the call.
abbrev pub ends : Entry → Bool
ends (Entry.finish i s) = true
ends (Entry.finish_unary i m s) = true
ends (Entry.finish_with_error i s) = true
ends _ = false

abbrev pub sends : Entry → Bool
sends (Entry.start_write i m) = true
sends e = ends e

abbrev pub is_finished : List Entry → Bool
is_finished [] = false
is_finished (Entry.finish i s ∷ l) = true
is_finished (Entry.finish_unary i m s ∷ l) = true
is_finished (Entry.finish_with_error i s ∷ l) = true
is_finished (_ ∷ l) = is_finished l

-- Nothing has been written, and no second end asked for, after the end of the call.
abbrev pub ends_once : List Entry → Bool
ends_once [] = true
ends_once (e ∷ l) = not (sends e && is_finished l) && ends_once l

abbrev is_call : Option Call → Bool
is_call none = false
is_call (some c) = true

-- What gRPC allows: both.
unfoldable pub allows : List Entry → Bool
unfolding replay
allows l = is_call (replay l) && ends_once l
