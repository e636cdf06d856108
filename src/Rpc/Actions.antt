-- ===== src/Rpc/Actions.antt =====
-- What the calls of a handler do to its Rpc (async_grpc/rpc.cc, Write and Finish), in closed form.
use mathlib.Core.List.{append-nil, append_assoc}
use async_grpc.Base.{
  ℕ, ◌+◌, ◌≡◌, none, some, List, [], ◌∷◌, ◌++◌, map, Outcome, ok, length, arith, Outcome-cases, inl,
  inr,
}
use async_grpc.Rpc.Types.{status_ok, Callback, Action, send, finish_rpc, SendItem, Rpc}
use async_grpc.Rpc.Calls.{
  perform_actions, write, finish, enqueue_message, call_handler, instantiate_handler,
}

-- The item that an action enqueues.
abbrev pub item_of : Action → SendItem
item_of (send m) = record { msg = some m; status = status_ok }
item_of (finish_rpc s) = record { msg = none; status = s }

-- The object after the actions: each enqueues one item and posts one event.
abbrev pub after_actions : List Action → Rpc → Rpc
after_actions acts r = record r {
  send_queue = r.send_queue ++ map item_of acts;
  write_needed_events = r.write_needed_events + length acts;
}

module _ (weak_ptr_factory : ℕ → Outcome ℕ) where
  pub perform_actions_lem :
      (acts : List Action) (r : Rpc)
      → weak_ptr_factory r.this ≡ ok r.this
      → perform_actions weak_ptr_factory acts r ≡ ok (after_actions acts r)
  unfolding perform_actions
  perform_actions_lem [] r h = ground (arith, append-nil r.send_queue)
  perform_actions_lem (send m ∷ next) r h = ground (
    arith,
    perform_actions_lem next (after_actions (send m ∷ []) r),
    append_assoc r.send_queue (item_of (send m) ∷ []) (map item_of next),
  )
  perform_actions_lem (finish_rpc s ∷ next) r h = ground (
    arith,
    perform_actions_lem next (after_actions (finish_rpc s ∷ []) r),
    append_assoc r.send_queue (item_of (finish_rpc s) ∷ []) (map item_of next),
  )

  -- Whatever the factory gives, actions that return have enqueued their items.
  pub perform_actions-eq_ok :
      (acts : List Action) (r r' : Rpc)
      → perform_actions weak_ptr_factory acts r ≡ ok r'
      → r' ≡ after_actions acts r
  unfolding perform_actions write finish enqueue_message
  perform_actions-eq_ok [] r r' e = ground (arith, append-nil r.send_queue)
  perform_actions-eq_ok (send m ∷ next) r r' e = elim (Outcome-cases (weak_ptr_factory r.this)) [
    | inr (f, n) ↦ absurd (ground arith)
    | inl (weak, n) ↦ ground (
      arith,
      perform_actions-eq_ok next (after_actions (send m ∷ []) r) r',
      append_assoc r.send_queue (item_of (send m) ∷ []) (map item_of next),
    )
  ]
  perform_actions-eq_ok (finish_rpc s ∷ next) r r' e =
      elim (Outcome-cases (weak_ptr_factory r.this)) [
        | inr (f, n) ↦ absurd (ground arith)
        | inl (weak, n) ↦ ground (
          arith,
          perform_actions-eq_ok next (after_actions (finish_rpc s ∷ []) r) r',
          append_assoc r.send_queue (item_of (finish_rpc s) ∷ []) (map item_of next),
        )
      ]

  -- A callback adds to what the handler has seen, and then the handler acts.
  pub call_handler_lem :
      (c : Callback) (past : List Callback) (r : Rpc)
      → weak_ptr_factory r.this ≡ ok r.this
      → r.handler ≡ some past
      → call_handler weak_ptr_factory c r
        ≡ ok (
            after_actions
              (r.rpc_handler_factory (c ∷ past))
              (record r { handler = some (c ∷ past) }))
  unfolding call_handler
  call_handler_lem c past r h e =
      rw (e, call_handler)
        (perform_actions_lem (r.rpc_handler_factory (c ∷ past))
          (record r { handler = some (c ∷ past) }) h)

  -- The factory runs Initialize, and its calls of the Rpc come before the handler is in place.
  pub instantiate_handler_lem :
      (r : Rpc)
      → weak_ptr_factory r.this ≡ ok r.this
      → instantiate_handler weak_ptr_factory none r
        ≡ ok (record (after_actions (r.rpc_handler_factory (Callback.initialize ∷ [])) r) {
          handler = some (Callback.initialize ∷ []);
        })
  unfolding instantiate_handler
  instantiate_handler_lem r h =
      rw (perform_actions_lem (r.rpc_handler_factory (Callback.initialize ∷ [])) r h)
