-- ===== src/AsyncTcpClient/Accesses/RaceFree.antt =====
-- What the mutexes of `AsyncTCPClient` protect.
use boost_asio_study.IdMap.{IdMap}
use boost_asio_study.AsyncTcpClient.Accesses.{
  Shared, active_sessions, was_cancelled, Op, reads, writes, Running, started, Reach, IsRace,
}
use boost_asio_study.AsyncTcpClient.Accesses.Erasure.{erased, erase, erase-Reach, map-get_elem?}
use boost_asio_study.AsyncTcpClient.Accesses.Guarded.{
  in_pairs, Guarded, GuardedAt, Call, all_ops, started-IsKept, guarded-started, Reach-Guarded,
  Needs,
}
use boost_asio_study.AsyncTcpClient.LockOrder.{holds, IsKept, Reach-IsKept}
use boost_asio_study.AsyncTcpClient.Locks.{Mutex, active_sessions_guard, cancel_guard, owner}
use boost_asio_study.Base.{ℕ, true, List, ◌∷◌, some, map, ◌≡◌, subst, inl, inr, arith, get_elem?}

module _ (s : Running) (kept : IsKept in_pairs (erase s))
    (guarded : (u : ℕ) → GuardedAt (get_elem? s.programs u)) where
  -- A location that is accessed under a mutex, by a thread that is about to access it.
  module _ (x : Shared) (m : Mutex)
      (needs : (p : List Op) → Needs x p → holds m (erased p) ≡ true) where
    reader_owns :
        (t : ℕ) (p : List Op)
        → get_elem? s.programs t ≡ some (reads x ∷ p)
        → owner m s.held ≡ some t
    unfolding Guarded erased
    reader_owns t p ready =
        let mine : Guarded (reads x ∷ p) = subst GuardedAt ready (guarded t) in
        kept.owns m t (rw (map-get_elem? s.programs t (reads x ∷ p) ready) (needs p mine.0))

    writer_owns :
        (t : ℕ) (p : List Op)
        → get_elem? s.programs t ≡ some (writes x ∷ p)
        → owner m s.held ≡ some t
    unfolding Guarded erased
    writer_owns t p ready =
        let mine : Guarded (writes x ∷ p) = subst GuardedAt ready (guarded t) in
        kept.owns m t (rw (map-get_elem? s.programs t (writes x ∷ p) ready) (needs p mine.0))

    one_at_once : (t u : ℕ) → ¬ IsRace x t u s
    one_at_once t u race = ground (arith, race.apart, writer_owns t race.t_rest race.writing, other)
      where
        other : owner m s.held ≡ some u
        other = elim race.accessing [
          | inl reading ↦ reader_owns u race.u_rest reading
          | inr writing ↦ writer_owns u race.u_rest writing
        ]

-- Whatever is in the map at first, any number of threads, with any calls and handlers in any order but the handler of a read that
-- succeeds: in no state that they can come to are two threads about to access the map of active
-- sessions, or one session's `m_was_cancelled`, of which one writes it.
pub accesses_apart :
    (active : IdMap) (threads : List (List Call)) (s : Running) (i t u : ℕ)
    → Reach (started active (map all_ops threads)) s
    → (¬ IsRace active_sessions t u s) × (¬ IsRace (was_cancelled i) t u s)
accesses_apart active threads s i t u reached =
    let kept : IsKept in_pairs (erase s) =
      Reach-IsKept in_pairs (started-IsKept active threads) (erase-Reach reached) in
    let guarded = Reach-Guarded (guarded-started threads) reached in
    (
      one_at_once s kept guarded active_sessions active_sessions_guard (λ p h. h) t u,
      one_at_once s kept guarded (was_cancelled i) (cancel_guard i) (λ p h. h) t u,
    )
