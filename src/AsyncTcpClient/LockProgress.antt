-- ===== src/AsyncTcpClient/LockProgress.antt =====
-- Threads of `AsyncTCPClient` of which none runs a handler of a cancelled session: one of them can
-- always go on.
use boost_asio_study.AsyncTcpClient.Locks.{
  Mutex, active_sessions_guard, cancel_guard, LockOp, acquire, release, handler_locks, cancel_locks,
  complete_locks, emulate_locks, Threads, owner, Step, lock, unlock, Reach, started,
}
use boost_asio_study.Base.{
  zero, suc, ap, subst, ℕ, Bool, true, false, List, [], ◌∷◌, ◌++◌, Option, none, some, map, ◌≡◌,
  inl, inr, refl, arith, get_elem?, ◌∙◌, Option-cases,
}
use boost_asio_study.AsyncTcpClient.LockOrder.{
  holds, holds_at, Ordered, OrderedAt, IsOrdered, mutex_eq_refl, releases_next, Reach-IsKept,
  in_order,
}

abbrev CanStep : Threads → Type 0
CanStep s = (s' : Threads) × Step s s'

module _ (s : Threads) (v : IsOrdered s) where
  can_release :
      (t : ℕ) (m : Mutex) (p : List LockOp)
      → get_elem? s.programs t ≡ some (release m ∷ p)
      → CanStep s
  unfolding holds
  can_release t m p ready =
      let held : owner m s.held ≡ some t = v.owns m t (rw ready (rw (mutex_eq_refl m))) in
      (_, unlock s t m p ready held)

  -- The thread that holds a `m_cancel_guard` can go on.
  holder_of_cancel :
      (i u : ℕ) (p : Option (List LockOp))
      → get_elem? s.programs u ≡ p
      → owner (cancel_guard i) s.held ≡ some u
      → CanStep s
  unfolding holds
  holder_of_cancel i u none found taken = absurd (ground (arith, v.owned (cancel_guard i) u))
  holder_of_cancel i u (some []) found taken = absurd (ground (arith, v.owned (cancel_guard i) u))
  holder_of_cancel i u (some (op ∷ p)) found taken =
      let held : holds (cancel_guard i) (op ∷ p) ≡ true =
        subst (λ q. holds_at (cancel_guard i) q ≡ true) found (v.owned (cancel_guard i) u taken) in
      let (m, e) = releases_next i op p (subst OrderedAt found (v.ordered u)) held in
      can_release u m p (found ∙ ap (λ (o : LockOp). some (o ∷ p)) e)

  can_acquire_cancel :
      (t i : ℕ) (p : List LockOp)
      → get_elem? s.programs t ≡ some (acquire (cancel_guard i) ∷ p)
      → CanStep s
  can_acquire_cancel t i p ready = elim (Option-cases (owner (cancel_guard i) s.held)) [
    | inl free ↦ (_, lock s t (cancel_guard i) p ready free)
    | inr (u, taken) ↦ holder_of_cancel i u (get_elem? s.programs u) refl taken
  ]

  -- The thread that holds `m_active_sessions_guard` can go on, or the one that it waits for.
  holder_of_sessions :
      (u : ℕ) (p : Option (List LockOp))
      → get_elem? s.programs u ≡ p
      → owner active_sessions_guard s.held ≡ some u
      → CanStep s
  unfolding holds
  holder_of_sessions u none found taken = absurd (ground (arith, v.owned active_sessions_guard u))
  holder_of_sessions u (some []) found taken =
      absurd (ground (arith, v.owned active_sessions_guard u))
  holder_of_sessions u (some (release m ∷ p)) found taken = can_release u m p found
  holder_of_sessions u (some (acquire (cancel_guard i) ∷ p)) found taken =
      can_acquire_cancel u i p found
  holder_of_sessions u (some (acquire active_sessions_guard ∷ p)) found taken =
      absurd (ground (arith, v.owned active_sessions_guard u))

  can_step :
      (t : ℕ) (op : LockOp) (p : List LockOp) → get_elem? s.programs t ≡ some (op ∷ p) → CanStep s
  can_step t (release m) p ready = can_release t m p ready
  can_step t (acquire (cancel_guard i)) p ready = can_acquire_cancel t i p ready
  can_step t (acquire active_sessions_guard) p ready =
      elim (Option-cases (owner active_sessions_guard s.held)) [
        | inl free ↦ (_, lock s t active_sessions_guard p ready free)
        | inr (u, taken) ↦ holder_of_sessions u (get_elem? s.programs u) refl taken
      ]

-- The calls and handlers of a thread: with the session that `cancelRequest` finds, and with the session
-- of a handler and whether its operation failed.
pub data LockCall : Type 0 where
  emulates completes : LockCall
  cancels : Option ℕ → LockCall
  handles : ℕ → Bool → LockCall

-- None of the sessions that are handled is cancelled.
abbrev locks_of : LockCall → List LockOp
locks_of emulates = emulate_locks
locks_of completes = complete_locks
locks_of (cancels found) = cancel_locks found
locks_of (handles i has_failed) = handler_locks i has_failed false

abbrev pub all_locks : List LockCall → List LockOp
all_locks [] = []
all_locks (call ∷ calls) = locks_of call ++ all_locks calls

-- Between two calls a thread holds nothing.
record IsIdle (p : List LockOp) : Type 0 where
  idle : (m : Mutex) → holds m p ≡ false
  in_order : Ordered p

-- A mutex taken and let go again, around nothing.
pair-IsIdle : (n : Mutex) (p : List LockOp) → IsIdle p → IsIdle (acquire n ∷ (release n ∷ p))
unfolding holds Ordered
pair-IsIdle n p v = record {
  idle = λ m. ground (arith, v.idle m);
  in_order =
      (rw (mutex_eq_refl n), λ i ne. rw ne (v.idle (cancel_guard i)), (v.idle n, v.in_order));
}

cancel-IsIdle : (i : ℕ) (p : List LockOp) → IsIdle p → IsIdle (cancel_locks (some i) ++ p)
unfolding holds Ordered cancel_locks
cancel-IsIdle i p v =
    let after = pair-IsIdle active_sessions_guard p v in
    record {
      idle = λ m. ground (arith, v.idle m);
      in_order = (
        refl,
        λ j ne. ground (arith, v.idle (cancel_guard j)),
        (
          rw (mutex_eq_refl (cancel_guard i)),
          λ j ne. ground (arith, v.idle (cancel_guard j)),
          (v.idle (cancel_guard i), (v.idle active_sessions_guard, v.in_order)),
        ),
      );
    }

add_call-IsIdle : (call : LockCall) (p : List LockOp) → IsIdle p → IsIdle (locks_of call ++ p)
unfolding cancel_locks handler_locks
add_call-IsIdle emulates p v = pair-IsIdle active_sessions_guard p v
add_call-IsIdle completes p v = pair-IsIdle active_sessions_guard p v
add_call-IsIdle (cancels none) p v = pair-IsIdle active_sessions_guard p v
add_call-IsIdle (cancels (some i)) p v = cancel-IsIdle i p v
add_call-IsIdle (handles i true) p v = pair-IsIdle active_sessions_guard p v
add_call-IsIdle (handles i false) p v = pair-IsIdle (cancel_guard i) p v

all_locks-IsIdle : (calls : List LockCall) → IsIdle (all_locks calls)
unfolding holds Ordered
all_locks-IsIdle [] = record { idle = λ m. refl; in_order = tt }
all_locks-IsIdle (call ∷ calls) = add_call-IsIdle call (all_locks calls) (all_locks-IsIdle calls)

holds-started :
    (threads : List (List LockCall)) (t : ℕ) (m : Mutex)
    → holds_at m (get_elem? (map all_locks threads) t) ≡ false
holds-started [] t m = refl
holds-started (calls ∷ threads) zero m = (all_locks-IsIdle calls).idle m
holds-started (calls ∷ threads) (suc t) m = holds-started threads t m

ordered-started :
    (threads : List (List LockCall)) (t : ℕ) → OrderedAt (get_elem? (map all_locks threads) t)
ordered-started [] t = tt
ordered-started (calls ∷ threads) zero = (all_locks-IsIdle calls).in_order
ordered-started (calls ∷ threads) (suc t) = ordered-started threads t

started-IsOrdered : (threads : List (List LockCall)) → IsOrdered (started (map all_locks threads))
unfolding owner
started-IsOrdered threads = record {
  ordered = ordered-started threads;
  owned = λ m t h. cc;
  owns = λ m t h. cc (holds-started threads t m);
}

-- Any number of threads, with any calls and handlers in any order, of which none handles a session that
-- was cancelled: in every state that they can come to in which some thread is not done, some thread can
-- take a step, so there is no deadlock.
pub lock_progress :
    (threads : List (List LockCall)) (s : Threads) (t : ℕ) (op : LockOp) (p : List LockOp)
    → Reach (started (map all_locks threads)) s
    → get_elem? s.programs t ≡ some (op ∷ p)
    → (s' : Threads) × Step s s'
lock_progress threads s t op p reached unfinished =
    can_step s (Reach-IsKept in_order (started-IsOrdered threads) reached) t op p unfinished
