-- ===== src/AsyncTcpClient/Accesses/Races.antt =====
-- The data races of `AsyncTCPClient`.
use boost_asio_study.IdMap.{IdMap, find_id}
use boost_asio_study.AsyncTcpClient.Accesses.{
  change, finds, apply, Allows, active_sessions, was_cancelled, socket, Op, complete_ops,
  read_handler_ops, cancel_ops, Running, started, lock, read, write, Reach, here, next, IsRace,
}
use boost_asio_study.AsyncTcpClient.Locks.{active_sessions_guard, cancel_guard, owner, unlocked}
use boost_asio_study.Base.{◌≡◌, ℕ, false, List, ◌∷◌, ◌++◌, some, refl, inr}

module _ (active : IdMap) (id i : ℕ) (after more : List Op) (others : List (List Op)) where
  abbrev pub cancel_and_read : Running
  cancel_and_read =
      started active
        ((cancel_ops id (some i) ++ after) ∷ (read_handler_ops id i false ++ more) ∷ others)

  -- A session is in the map. One thread runs `cancelRequest` on its id, while another one runs the handler of its read, which
  -- succeeded and takes no lock of the session. They can come to a state in which the first one,
  -- which has found the session, is about to call `cancel` of `m_sock`, and the second one `shutdown`.
  pub read_handler_races :
      find_id id active ≡ some i → (s : Running) × Reach cancel_and_read s × IsRace (socket i) 0 1 s
  unfolding Allows apply cancel_ops read_handler_ops complete_ops owner unlocked
  read_handler_races there = (
    _,
    next
        (next
          (next
            (next (next here (lock _ 0 active_sessions_guard _ refl refl))
              (read _ 0 active_sessions _ refl))
            (change _ 0 (finds id (some i)) _ refl there))
          (lock _ 0 (cancel_guard i) _ refl refl))
        (write _ 0 (was_cancelled i) _ refl),
    record { apart = refl; t_rest = _; u_rest = _; writing = refl; accessing = inr refl },
  )
