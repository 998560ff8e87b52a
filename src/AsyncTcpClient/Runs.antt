-- ===== src/AsyncTcpClient/Runs.antt =====
-- Runs of `AsyncTCPClient`: its calls, by any thread, and the completions, in any order.
use boost_asio_study.Asio.{ErrorCode, Errors, Completion}
use boost_asio_study.Base.{ℕ, List, [], ◌∷◌, ◌++◌}
use boost_asio_study.AsyncTcpClient.{
  Client, Trace, Result, emulate_long_computation_op, cancel_request, complete,
}

-- `emulateLongComputationOp` with what `open` throws, the seconds and the id; `cancelRequest` with
-- what `cancel` throws, and the id; the completion of what is pending for a session.
pub data Event : Type 0 where
  requests : ErrorCode → ℕ → ℕ → Event
  cancels : ErrorCode → ℕ → Event
  completes : ℕ → Completion → Event

unfoldable pub step : Errors → Event → Client → Result
step e (requests opened duration_sec request_id) c =
    emulate_long_computation_op e opened duration_sec request_id c
step e (cancels cancelled request_id) c = cancel_request cancelled request_id c
step e (completes i completion) c = complete e i completion c

-- An exception leaves a call, and the other threads go on.
unfoldable pub run : Errors → List Event → Client → Client
run e [] c = c
run e (event ∷ events) c = run e events (step e event c).client

unfoldable pub trace_of : Errors → List Event → Client → Trace
trace_of e [] c = []
trace_of e (event ∷ events) c = let r = step e event c in r.trace ++ trace_of e events r.client
