-- ===== src/AsyncTcpClient/Accesses/Tests.antt =====
-- The theorems about the accesses of `AsyncTCPClient` at concrete threads.
use boost_asio_study.IdMap.{IdMap, find_id}
use boost_asio_study.AsyncTcpClient.Accesses.{
  change, finds, apply, Allows, active_sessions, was_cancelled, socket, Running, started, Reach,
  here, next, lock, read, IsRace, cancel_ops, handler_ops,
}
use boost_asio_study.AsyncTcpClient.Accesses.Guarded.{cancels, handles, all_ops}
use boost_asio_study.AsyncTcpClient.Accesses.Races.{cancel_and_read, read_handler_races}
use boost_asio_study.AsyncTcpClient.Accesses.RaceFree.{accesses_apart}
use boost_asio_study.AsyncTcpClient.Locks.{active_sessions_guard, cancel_guard, owner}
use boost_asio_study.Base.{map, false, [], ◌∷◌, some, refl}

read_handler_races_example :
    (s : Running) × Reach (cancel_and_read ((9, 4) ∷ []) 9 4 [] [] []) s × IsRace (socket 4) 0 1 s
unfolding find_id
read_handler_races_example = read_handler_races ((9, 4) ∷ []) 9 4 [] [] [] refl

-- A thread that is about to write the flag, and one in front of a handler of the same session.
abbrev one_active : IdMap
one_active = (9, 0) ∷ []

abbrev two_threads : Running
two_threads =
    started one_active
      (map all_ops ((cancels 9 (some 0) ∷ []) ∷ (handles 9 0 false false ∷ []) ∷ []))

about_to_write : (s : Running) × Reach two_threads s
unfolding Allows apply find_id cancel_ops handler_ops owner
about_to_write = (
  _,
  next
      (next
        (next (next here (lock two_threads 0 active_sessions_guard _ refl refl))
          (read _ 0 active_sessions _ refl))
        (change _ 0 (finds 9 (some 0)) _ refl refl))
      (lock _ 0 (cancel_guard 0) _ refl refl),
)

accesses_apart_example :
    (¬ IsRace active_sessions 0 1 about_to_write.0)
    × (¬ IsRace (was_cancelled 0) 0 1 about_to_write.0)
accesses_apart_example =
    accesses_apart one_active ((cancels 9 (some 0) ∷ []) ∷ (handles 9 0 false false ∷ []) ∷ [])
      about_to_write.0 0 0 1 about_to_write.1
