-- ===== src/LoopServer.antt =====
-- The synchronous servers: Chapter-04, Section-01, 04-01-01-loop_sync_server.cpp, Section-02,
-- 04-02-01-parallel_sync_tcp_server.cpp, and Chapter-05, Section-04, 05-04-01-ssl_loop_sync_server.cpp.
-- The counting loop and the sleep of `HandleClient` leave no trace.
pub mod Clients
pub mod Silent
pub mod Stops
pub mod Threads
mod Tests
use boost_asio_study.Asio.{ErrorCode, Errors, failed}
use boost_asio_study.Base.{ℕ, Bool, true, false, List, [], ◌∷◌, ◌++◌, Bytes, codes, if◌then◌else◌}
use boost_asio_study.Calls.{
  Call, bind, listen_default, handshake, read_until, write, ssl_context, set_options,
  set_password_callback, use_file, Check, returned, escapes, End, exited, terminated, waits,
  Performed, Program, perform, caught,
}

-- What the service of one client has called, whether it has returned, whether an exception has left
-- it, and whether it has deleted itself.
pub record Handled : Type 0 where
  pub made : List Call
  pub finished : Bool
  pub escaped : Bool
  pub deleted : Bool

abbrev pub handle_calls : List Call
handle_calls = read_until (codes "\n") ∷ write (codes "Response\n") ∷ []

abbrev pub is_finished : End → Bool
is_finished (exited n) = true
is_finished _ = false

abbrev pub is_escaped : End → Bool
is_escaped terminated = true
is_escaped _ = false

abbrev handled : Performed → Handled
handled p = record {
  made = p.made;
  finished = is_finished p.end;
  escaped = is_escaped p.end;
  deleted = false;
}

-- `HandleClient` of the loop server: its exceptions are caught and printed.
unfoldable pub handle_client : Errors → List ErrorCode → Handled
handle_client e results = handled (perform e (caught handle_calls) results)

-- `HandleClient` of the parallel server, on its own thread: at the end, also after an exception,
-- `delete this`.
unfoldable pub handle_client_parallel : Errors → List ErrorCode → Handled
handle_client_parallel e results =
    let p = perform e (caught handle_calls) results in
    record (handled p) { deleted = is_finished p.end }

-- `HandleClient` of the SSL server
unfoldable pub handle_client_ssl : Errors → List ErrorCode → Handled
handle_client_ssl e results = handled (perform e (caught (handshake ∷ handle_calls)) results)

-- One round of `while (!m_stop.load())`: what the test sees, what `accept` throws, or no error, and the
-- results of the calls of the service.
pub record Round : Type 0 where
  pub stop : Bool
  pub accepted : ErrorCode
  pub client : List ErrorCode

-- The clients that were handled, and the end of `Run`: it returned, an exception left its thread or
-- that of a client, which ends the process, or it waits.
pub data RunEnd : Type 0 where
  stopped aborted waiting : RunEnd

pub record Served : Type 0 where
  pub handled : List Handled
  pub end : RunEnd

abbrev pub add_handled : Handled → Served → Served
add_handled h s = record { handled = h ∷ s.handled; end = s.end }

-- The loop of `Run` with `Acceptor::Accept` that handles the client itself, so that an exception of the
-- service would leave the thread of `Run`.
unfoldable pub serve : (List ErrorCode → Handled) → List Round → Served
serve handle [] = record { handled = []; end = waiting }
serve handle (round ∷ rounds) =
    let h = handle round.client in
    let rest = serve handle rounds in
    if round.stop
    then record { handled = []; end = stopped }
    else if failed round.accepted
    then record { handled = []; end = aborted }
    else if h.finished
    then add_handled h rest
    else record { handled = h ∷ []; end = if h.escaped then aborted else waiting }

-- The loop of `Run` with `Acceptor::Accept` that starts a thread for each client and detaches it. An
-- exception of the service would leave that thread.
unfoldable pub serve_parallel : (List ErrorCode → Handled) → List Round → Served
serve_parallel handle [] = record { handled = []; end = waiting }
serve_parallel handle (round ∷ rounds) =
    let h = handle round.client in
    let rest = serve_parallel handle rounds in
    if round.stop
    then record { handled = []; end = stopped }
    else if failed round.accepted
    then record { handled = []; end = aborted }
    else if h.escaped
    then record { handled = h ∷ []; end = aborted }
    else add_handled h rest

-- The constructors of the acceptors, in the thread of `Run`, where no exception is caught.
abbrev pub new_acceptor : Program
new_acceptor = (bind 3333, escapes) ∷ (listen_default, escapes) ∷ []

abbrev pub new_ssl_acceptor : Program
new_ssl_acceptor =
    (bind 3333, escapes)
    ∷ (ssl_context, escapes)
    ∷ (set_options, escapes)
    ∷ (set_password_callback, escapes)
    ∷ (use_file (codes "server.crt"), escapes)
    ∷ (use_file (codes "server.key"), escapes)
    ∷ (use_file (codes "dhparams.pem"), escapes)
    ∷ (listen_default, escapes)
    ∷ []

-- `get_password`
get_password : Bytes
get_password = codes "pass"

-- `Run`, on the results of the constructor
unfoldable pub run_after : Performed → Served → Served
run_after p s = elim (p.end) [
  | exited n ↦ s
  | terminated ↦ record { handled = []; end = aborted }
  | waits ↦ record { handled = []; end = waiting }
]

pub run : Errors → List ErrorCode → List Round → Served
run e constructed rounds =
    run_after (perform e new_acceptor constructed) (serve (handle_client e) rounds)

pub run_parallel : Errors → List ErrorCode → List Round → Served
run_parallel e constructed rounds =
    run_after (perform e new_acceptor constructed)
      (serve_parallel (handle_client_parallel e) rounds)

pub run_ssl : Errors → List ErrorCode → List Round → Served
run_ssl e constructed rounds =
    run_after (perform e new_ssl_acceptor constructed) (serve (handle_client_ssl e) rounds)

-- `main`, which starts the thread of `Run`, and after its sleep sets `m_stop` and joins the thread
abbrev pub main_end : Served → End
main_end s = elim (s.end) [ stopped ↦ exited 0 | aborted ↦ terminated | waiting ↦ waits ]

pub main : Errors → List ErrorCode → List Round → End
main e constructed rounds = main_end (run e constructed rounds)

pub main_parallel : Errors → List ErrorCode → List Round → End
main_parallel e constructed rounds = main_end (run_parallel e constructed rounds)

pub main_ssl : Errors → List ErrorCode → List Round → End
main_ssl e constructed rounds = main_end (run_ssl e constructed rounds)
