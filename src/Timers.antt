-- ===== src/Timers.antt =====
-- Chapter-06, Section-02, 06-02-01-timer.cpp: two timers, of which the handler of the first cancels
-- the second. The two run on one thread; which expiry or handler comes next is up to the `io_service`.
pub mod Runs
mod Tests
use boost_asio_study.Asio.{ErrorCode, Errors, failed, code_eq}
use boost_asio_study.Base.{ℕ, not, List, [], ◌∷◌, ◌++◌, if◌then◌else◌}

-- A timer waits, or has completed with a code so that its handler is to run, or the handler has run.
pub data Timer : Type 0 where
  armed called : Timer
  fired : ErrorCode → Timer

-- The line that a handler prints.
pub data Line : Type 0 where
  expired cancelled : ℕ → Line
  error : ErrorCode → Line

pub record Timers : Type 0 where
  pub one : Timer
  pub two : Timer
  pub printed : List Line

abbrev pub both_armed : Timers
both_armed = record { one = armed; two = armed; printed = [] }

unfoldable pub line : Errors → ℕ → ErrorCode → Line
line e n ec =
    if not (failed ec)
    then expired n
    else if code_eq ec e.operation_aborted
    then cancelled n
    else error ec

-- `t2.cancel()`, which does nothing to a timer that has completed.
unfoldable pub cancel : Errors → Timer → Timer
cancel e armed = fired e.operation_aborted
cancel e t = t

unfoldable pub expire : Errors → Timer → Timer
expire e armed = fired e.success
expire e t = t

-- The handlers run if their timer has completed.
unfoldable pub run_one : Errors → Timer → Timers → Timers
run_one e (fired ec) t = record {
  one = called;
  two = cancel e t.two;
  printed = t.printed ++ line e 1 ec ∷ [];
}
run_one e other t = t

unfoldable pub run_two : Errors → Timer → Timers → Timers
run_two e (fired ec) t = record t { two = called; printed = t.printed ++ line e 2 ec ∷ [] }
run_two e other t = t

pub data Event : Type 0 where
  expires_one expires_two runs_one runs_two : Event

unfoldable pub step : Errors → Event → Timers → Timers
step e expires_one t = record t { one = expire e t.one }
step e expires_two t = record t { two = expire e t.two }
step e runs_one t = run_one e t.one t
step e runs_two t = run_two e t.two t

unfoldable pub main : Errors → List Event → Timers → Timers
main e [] t = t
main e (event ∷ events) t = main e events (step e event t)
