-- ===== src/AsyncTcpClient/Tests.antt =====
-- `AsyncTCPClient` on concrete requests, and the theorems at concrete inputs.
use boost_asio_study.IdMap.{find_id, assign_id, erase_id}
use boost_asio_study.Asio.{failed}
use boost_asio_study.Asio.Sample.{
  sample, sample-IsErrors, no_error, connection_reset, received, failed_by,
}
use boost_asio_study.Base.{
  map, ℕ, List, [], ◌∷◌, none, some, ◌≡◌, ◌<◌, refl, arith, codes, get_elem?, if◌then◌else◌, true,
  false,
}
use boost_asio_study.AsyncTcpClient.{
  length, on_read, on_written, on_request_complete, unless_done, on_connected, erase_all, store,
  complete_pending, complete_at, cancel_session, cancel_found, emulate_long_computation_op, Session,
  new_session, connected_handler, Client, Running, new_client, dispatch, shutdown_both, erase,
  call_back, tag, complete, cancel_request, request_text,
}
use boost_asio_study.AsyncTcpClient.Callbacks.{callbacks_at, over_at, session_callbacks}
use boost_asio_study.AsyncTcpClient.Deadlock.{IsDeadlocked, cancel_deadlock}
use boost_asio_study.AsyncTcpClient.LockProgress.{LockCall, handles, all_locks, lock_progress}
use boost_asio_study.AsyncTcpClient.Locks.{
  acquire, Step, lock, owner, here, next, release, active_sessions_guard, cancel_guard,
  cancel_locks, handler_locks, Threads, Reach, started,
}
use boost_asio_study.AsyncTcpClient.Program.{
  unless_thrown, start_threads, threads_started, World, main_calls, perform_calls, main, returned,
}
use boost_asio_study.AsyncTcpClient.MainRuns.{main_returns}
use boost_asio_study.AsyncTcpClient.Registry.{IsRegistered, FreshIds, active-IsRegistered}
use boost_asio_study.AsyncTcpClient.CancelRequest.{shared_id_lost}
use boost_asio_study.AsyncTcpClient.Aborts.{cancelled_reported}
use boost_asio_study.AsyncTcpClient.Runs.{Event, requests, cancels, completes, run, trace_of, step}

-- Two requests, of which the first is cancelled and the second answered.
abbrev events : List Event
events =
    requests no_error 10 1
    ∷ completes 0 (received [])
    ∷ requests no_error 11 2
    ∷ cancels no_error 1
    ∷ completes 0 (received [])
    ∷ completes 1 (received [])
    ∷ completes 1 (received [])
    ∷ completes 1 (received (codes "done\nmore"))
    ∷ []

session_callbacks_example :
    callbacks_at 1 (trace_of sample events new_client)
    ≡ over_at (get_elem? (run sample events new_client).sessions 1)
session_callbacks_example = session_callbacks sample events 1

active-IsRegistered_example : IsRegistered (run sample events new_client)
unfolding FreshIds new_session step emulate_long_computation_op cancel_request cancel_found
    cancel_session complete complete_at complete_pending store erase_all find_id assign_id erase_id
    dispatch on_connected unless_done on_request_complete
active-IsRegistered_example = active-IsRegistered sample events (refl, (refl, tt))

-- The session of a request that was cancelled.
abbrev cancelled_session : Session
cancelled_session = record (new_session sample (request_text 10) 1) { was_cancelled = true }

cancelled_reported_example :
    (complete sample 0
      (received [])
      (run sample (requests no_error 10 1 ∷ cancels no_error 1 ∷ []) new_client)).trace
    ≡ tag 0 (
        shutdown_both
        ∷ erase cancelled_session.id
        ∷ call_back cancelled_session.id
            (dispatch sample connected_handler (received []) cancelled_session).session.response
            (if failed no_error then no_error else sample.operation_aborted)
        ∷ [])
unfolding run step emulate_long_computation_op cancel_request cancel_found cancel_session find_id
    assign_id new_session
cancelled_reported_example =
    cancelled_reported sample sample-IsErrors (requests no_error 10 1 ∷ cancels no_error 1 ∷ []) 0
      (record { session = cancelled_session; pending = some connected_handler }) connected_handler
      (received []) refl refl refl

abbrev waiting : Running
waiting = record {
  session = new_session sample (request_text 10) 1;
  pending = some connected_handler;
}

-- One client with one request, and one with two requests under one id.
abbrev one_waits : Client
one_waits = run sample (requests no_error 10 1 ∷ []) new_client

one_waits-IsRegistered : IsRegistered one_waits
unfolding FreshIds run step emulate_long_computation_op find_id
one_waits-IsRegistered = active-IsRegistered sample (requests no_error 10 1 ∷ []) (refl, tt)

abbrev two_wait : Client
two_wait = record { sessions = waiting ∷ waiting ∷ []; active = (1, 1) ∷ [] }

shared_id_lost_example :
    let after = (complete sample 0 (failed_by connection_reset) two_wait).client in
    (get_elem? after.sessions 1 ≡ some waiting)
    × (cancel_request no_error 1 after ≡ record { client = after; trace = []; thrown = none })
unfolding new_session
shared_id_lost_example =
    shared_id_lost sample two_wait 0 1 waiting waiting connected_handler connected_handler
      (failed_by connection_reset) no_error refl refl refl refl refl refl refl

cancel_deadlock_example :
    (d : Threads) × Reach (started (cancel_locks (some 0) ∷ handler_locks 0 false true ∷ [])) d
    × ((s : Threads)
        → Reach d s
        → IsDeadlocked 0 1 active_sessions_guard
            (cancel_guard 0)
            (release (cancel_guard 0) ∷ release active_sessions_guard ∷ [])
            (release active_sessions_guard ∷ release (cancel_guard 0) ∷ [])
            s)
unfolding cancel_locks handler_locks
cancel_deadlock_example =
    cancel_deadlock (cancel_locks (some 0) ∷ handler_locks 0 false true ∷ []) 0 1 0 [] [] refl refl
      refl

threads_started_example :
    (4 < 255 → start_threads 5 4 1 0 ≡ some 4)
    × ((rounds : ℕ) → start_threads rounds 255 1 0 ≡ none)
threads_started_example = threads_started 4

abbrev cancels_call : LockCall
cancels_call = LockCall.cancels (some 0)

-- The first thread has locked `m_active_sessions_guard` in `cancelRequest`.
abbrev one_locked : Threads
one_locked = record {
  programs =
      (acquire (cancel_guard 0) ∷ release (cancel_guard 0) ∷ release active_sessions_guard ∷ [])
      ∷ (acquire (cancel_guard 0) ∷ release (cancel_guard 0) ∷ [])
      ∷ [];
  held = (active_sessions_guard, 0) ∷ [];
}

one_locked-Reach :
    Reach (started (map all_locks ((cancels_call ∷ []) ∷ (handles 0 false ∷ []) ∷ []))) one_locked
unfolding cancel_locks handler_locks owner
one_locked-Reach = next here (
    lock (started (map all_locks ((cancels_call ∷ []) ∷ (handles 0 false ∷ []) ∷ []))) 0
      active_sessions_guard _ refl refl)

lock_progress_example : (s' : Threads) × Step one_locked s'
lock_progress_example =
    lock_progress ((cancels_call ∷ []) ∷ (handles 0 false ∷ []) ∷ []) one_locked 0
      (acquire (cancel_guard 0)) (release (cancel_guard 0) ∷ release active_sessions_guard ∷ [])
      one_locked-Reach refl

-- The first request is cancelled before it is connected, the second one fails, and the third one is
-- answered.
abbrev sample_world : World
sample_world = record {
  opened = λ id. no_error;
  cancelled = no_error;
  first = [];
  second = (0, received []) ∷ (1, failed_by connection_reset) ∷ [];
  last = (2, received []) ∷ (2, received []) ∷ (2, received (codes "done\n")) ∷ [];
}

main_returns_example :
    let r = perform_calls sample (main_calls sample_world) new_client in
    (main sample sample_world ≡ returned 0)
    × (find_id 2 r.client.active ≡ none)
    × (length r.client.sessions ≡ 3)
    × (callbacks_at 1 r.trace ≡ 1)
unfolding perform_calls main_calls unless_thrown step run emulate_long_computation_op new_session
    cancel_request cancel_found cancel_session complete complete_at complete_pending store erase_all
    find_id assign_id erase_id dispatch on_connected on_written on_read unless_done
    on_request_complete
main_returns_example =
    main_returns sample sample_world 2 1 refl refl refl refl (refl, (refl, (refl, tt)))
      (omega arith)
