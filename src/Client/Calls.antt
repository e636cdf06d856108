-- ===== src/Client/Calls.antt =====
-- Sequences of calls of the methods of a client (async_grpc/client.h), and when the client's state
-- is a function of the calls that it has had.
pub mod Writer
pub mod Reader
pub mod ReaderWriter
use async_grpc.Base.{◌≡◌, refl, List, [], ◌∷◌, map, Outcome, ok, ◌>>=◌, onto}

module _ {C A S : Type 0} (call : C → S → Outcome (A × S)) where
  -- The calls, one after the other, and what they return.
  unfoldable pub run : List C → S → Outcome (List A × S)
  run [] c = ok ([], c)
  run (x ∷ xs) c = do (answer, c1) ← call x c; (answers, c2) ← run xs c1; ok (answer ∷ answers, c2)

  -- `after` says what the state is after any calls, which come newest first.
  module _ (answer : C → A) (after : List C → S)
      (tracks : (x : C) (h : List C) → call x (after h) ≡ ok (answer x, after (x ∷ h))) where
    run-after : (xs h : List C) → run xs (after h) ≡ ok (map answer xs, after (onto xs h))
    unfolding run
    run-after [] h = refl
    run-after (x ∷ xs) h = rw (tracks x h) (rw (run-after xs (x ∷ h)) refl)
