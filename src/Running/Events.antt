-- ===== src/Running/Events.antt =====
-- The events of one object in the event queues of a running server (async_grpc/rpc.h, rpc.cc).
use mathlib.Core.List.{append-nil}
use async_grpc.Base.{
  ℕ, zero, suc, ◌+◌, ◌<◌, ◌≡◌, refl, ◌≢◌, ◌⊎◌, inl, inr, Bool, true, false, ◌&&◌, List, [], ◌∷◌,
  ◌++◌, arith, ◌==◌, if◌then◌else◌, replicate, All, Bool-cases,
}
use async_grpc.Rpc.Types.{Event}
use async_grpc.Running.{
  UniqueEventPtr, event_of, rpc_of, new_event, push_events, pop_event, events_of, count, index,
}

pub count-append : (e : Event) (xs ys : List Event) → count e (xs ++ ys) ≡ count e xs + count e ys
unfolding count
count-append e [] ys = omega arith
count-append e (x ∷ xs) ys = ground (arith, count-append e xs ys)

abbrev pub pushes : ℕ → List Event
pushes n = replicate n Event.write_needed

pub count-pushes : (e : Event) (n : ℕ) → count e (pushes n) ≡ (if 2 == index e then n else 0)
unfolding count
count-pushes e zero = ground arith
count-pushes e (suc n) = ground (arith, count-pushes e n)

-- DONE stands only behind the connection, if that has not been handled yet.
unfoldable pub is_ordered : Bool → List Event → Bool
is_ordered connected [] = true
is_ordered connected (Event.new_connection ∷ xs) = is_ordered true xs
is_ordered connected (Event.done ∷ xs) = connected && is_ordered connected xs
is_ordered connected (_ ∷ xs) = is_ordered connected xs

ordered_connected :
    (c : Bool) (xs : List Event) → is_ordered c xs ≡ true → is_ordered true xs ≡ true
unfolding is_ordered
ordered_connected true xs o = o
ordered_connected false [] o = refl
ordered_connected false (Event.new_connection ∷ xs) o = o
ordered_connected false (Event.read ∷ xs) o = ordered_connected false xs o
ordered_connected false (Event.write_needed ∷ xs) o = ordered_connected false xs o
ordered_connected false (Event.write ∷ xs) o = ordered_connected false xs o
ordered_connected false (Event.finish ∷ xs) o = ordered_connected false xs o
ordered_connected false (Event.done ∷ xs) o = absurd (ground arith)

pub ordered_pushes :
    (c : Bool) (xs : List Event) (n : ℕ)
    → is_ordered c xs ≡ true
    → is_ordered c (xs ++ pushes n) ≡ true
unfolding is_ordered
ordered_pushes c [] zero o = refl
ordered_pushes c [] (suc n) o = ordered_pushes c [] n refl
ordered_pushes c (Event.new_connection ∷ xs) n o = ordered_pushes true xs n o
ordered_pushes c (Event.read ∷ xs) n o = ordered_pushes c xs n o
ordered_pushes c (Event.write_needed ∷ xs) n o = ordered_pushes c xs n o
ordered_pushes c (Event.write ∷ xs) n o = ordered_pushes c xs n o
ordered_pushes c (Event.finish ∷ xs) n o = ordered_pushes c xs n o
ordered_pushes c (Event.done ∷ xs) n o = ground (arith, ordered_pushes c xs n)

pub ordered_push :
    (c : Bool) (xs : List Event) (e : Event)
    → is_ordered c xs ≡ true
    → (e ≡ Event.done → (c ≡ true) ⊎ (0 < count Event.new_connection xs))
    → is_ordered c (xs ++ e ∷ []) ≡ true
unfolding is_ordered count
ordered_push c [] Event.new_connection o h = refl
ordered_push c [] Event.read o h = refl
ordered_push c [] Event.write_needed o h = refl
ordered_push c [] Event.write o h = refl
ordered_push c [] Event.finish o h = refl
ordered_push c [] Event.done o h = ground (arith, h refl)
ordered_push c (Event.new_connection ∷ xs) e o h = ordered_push true xs e o (λ x. inl refl)
ordered_push c (Event.read ∷ xs) e o h = ordered_push c xs e o h
ordered_push c (Event.write_needed ∷ xs) e o h = ordered_push c xs e o h
ordered_push c (Event.write ∷ xs) e o h = ordered_push c xs e o h
ordered_push c (Event.finish ∷ xs) e o h = ordered_push c xs e o h
ordered_push c (Event.done ∷ xs) e o h = ground (arith, ordered_push c xs e)

-- Nothing but WRITE_NEEDED.
abbrev pub AllStale : List Event → Type 0
AllStale = All λ e. e ≡ Event.write_needed

pub none_left :
    (xs : List Event) → ((e : Event) → e ≢ Event.write_needed → count e xs ≡ 0) → AllStale xs
unfolding count
none_left [] h = tt
none_left (Event.write_needed ∷ xs) h = (refl, none_left xs (λ e n. ground (arith, h e n)))
none_left (Event.new_connection ∷ xs) h = absurd (ground (arith, h Event.new_connection (λ e. cc)))
none_left (Event.read ∷ xs) h = absurd (ground (arith, h Event.read (λ e. cc)))
none_left (Event.write ∷ xs) h = absurd (ground (arith, h Event.write (λ e. cc)))
none_left (Event.finish ∷ xs) h = absurd (ground (arith, h Event.finish (λ e. cc)))
none_left (Event.done ∷ xs) h = absurd (ground (arith, h Event.done (λ e. cc)))

pub events_of-append :
    (p : ℕ) (xs ys : List UniqueEventPtr)
    → events_of p (xs ++ ys) ≡ events_of p xs ++ events_of p ys
unfolding events_of
events_of-append p [] ys = refl
events_of-append p (x ∷ xs) ys = ground (arith, events_of-append p xs ys)

events_of-new_events :
    (p q n : ℕ) → events_of q (replicate n (new_event p)) ≡ (if p == q then pushes n else [])
unfolding events_of
events_of-new_events p q zero = ground arith
events_of-new_events p q (suc n) = ground (arith, events_of-new_events p q n)

-- The queues have changed only in what one queue holds of one object's events.
pub record Touched (p k : ℕ) (events : List Event) (queues queues1 : ℕ → List UniqueEventPtr)
    : Type 0 where
  pub here : events_of p (queues1 k) ≡ events
  pub others : (q j : ℕ) → q ≢ p → events_of q (queues1 j) ≡ events_of q (queues j)
  pub away : (j : ℕ) → j ≢ k → queues1 j ≡ queues j

module _ (p k : ℕ) (queues : ℕ → List UniqueEventPtr) where
  pub Touched-refl : Touched p k (events_of p (queues k)) queues queues
  Touched-refl = record { here = refl; others = λ q j n. refl; away = λ j n. refl }

  -- Some of its own events are pushed.
  pub Touched-push :
      (n : ℕ) (events : List Event) (queues1 : ℕ → List UniqueEventPtr)
      → Touched p k events queues queues1
      → Touched p k (events ++ pushes n) queues (push_events k (replicate n (new_event p)) queues1)
  unfolding push_events
  Touched-push n events queues1 t = record {
    here = ground (
      arith,
      events_of-append p (queues1 k) (replicate n (new_event p)),
      events_of-new_events p p n,
      t.here,
    );
    others = λ q j ne. ground (
      arith,
      events_of-append q (queues1 j) (replicate n (new_event p)),
      events_of-new_events p q n,
      append-nil (events_of q (queues1 j)),
      t.others q j ne,
    );
    away = λ j ne. ground (arith, t.away j ne);
  }

  -- An event of it is pushed.
  pub Touched-return :
      (x : UniqueEventPtr)
      → rpc_of x.event ≡ p
      → Touched p k
          (events_of p (queues k) ++ event_of x.event ∷ [])
          queues
          (push_events k (x ∷ []) queues)
  unfolding push_events events_of
  Touched-return x is_p = record {
    here = ground (arith, events_of-append p (queues k) (x ∷ []));
    others = λ q j ne.
        ground (arith, events_of-append q (queues j) (x ∷ []), append-nil (events_of q (queues j)));
    away = λ j ne. ground arith;
  }

  -- Its event is taken from the front.
  pub Touched-pop :
      (x : UniqueEventPtr) (rest : List UniqueEventPtr)
      → queues k ≡ x ∷ rest
      → rpc_of x.event ≡ p
      → Touched p k (events_of p rest) queues (pop_event k rest queues)
  unfolding pop_event events_of
  Touched-pop x rest at is_p = record {
    here = ground arith;
    others =
        λ q j ne. elim (Bool-cases (j == k)) [ inl same ↦ ground arith | inr other ↦ ground arith ];
    away = λ j ne. ground arith;
  }
