-- ===== src/Rpc/Invariant.antt =====
-- What holds of an Rpc (async_grpc/rpc.cc) between two events.
use async_grpc.Base.{ℕ, ◌<◌, ◌≡◌, refl, ◌⊎◌, Bool, true, false, Option, none, some, List, [], ◌∷◌}
use async_grpc.Rpc.Types.{Event, Callback, RpcHandlerInfo, Entry, Rpc}
use async_grpc.Rpc.Construct.{initialize_readers_and_writers, construct}
pub use async_grpc.Rpc.Contract.{is_finished}
use async_grpc.Rpc.Contract.{Call, replay}

-- Whether the call has been connected, and whether it has been told to finish.
abbrev pub is_connected : List Entry → Bool
is_connected [] = false
is_connected (Entry.completed Event.new_connection ∷ l) = true
is_connected (_ ∷ l) = is_connected l

abbrev has_handler : Option (List Callback) → Bool
has_handler none = false
has_handler (some past) = true

-- The call that the flags of the object stand for.
abbrev pub view : Rpc → Call
view r = record {
  awaiting_done = r.done_event.pending;
  requested = r.new_connection_event.pending;
  connected = is_connected r.log;
  reading = r.read_event.pending;
  writing = r.write_event.pending;
  finishing = r.finish_event.pending;
}

pub record Inv (r : Rpc) : Type 0 where
  pub follows : replay r.log ≡ some (view r)
  pub awaited :
      r.new_connection_event.pending ≡ true
      → (r.done_event.pending ≡ true) × (is_connected r.log ≡ false)
  pub unstarted :
      is_connected r.log ≡ false
      → (r.read_event.pending ≡ false)
        × (r.write_event.pending ≡ false)
        × (r.finish_event.pending ≡ false)
  pub served : has_handler r.handler ≡ is_connected r.log
  pub quiet : is_connected r.log ≡ false → r.send_queue ≡ []
  pub closing : r.finish_event.pending ≡ true → is_finished r.log ≡ true
  pub whole : r.interfaces ≡ initialize_readers_and_writers r.rpc_type

-- Nothing waits in the send queue without something that will send it.
abbrev pub IsAwake : Rpc → Type 0
IsAwake r =
    (r.send_queue ≡ [])
    ⊎ ((r.write_event.pending ≡ true) ⊎ ((is_finished r.log ≡ true) ⊎ (0 < r.write_needed_events)))

construct-Inv :
    (this i c q : ℕ) (context : Option ℕ) (info : RpcHandlerInfo)
    → Inv (construct this i c q context info)
unfolding construct replay
construct-Inv this i c q context info = record {
  follows = refl;
  awaited = λ h. cc;
  unstarted = λ h. (refl, refl, refl);
  served = refl;
  quiet = λ h. refl;
  closing = λ h. cc;
  whole = refl;
}
