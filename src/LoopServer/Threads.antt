-- ===== src/LoopServer/Threads.antt =====
-- `Server` of the synchronous servers with its two threads: that of `main`, which calls `Start` and,
-- after its sleep, `Stop`, and that of `Run`. They share `m_stop`, an atomic.
pub mod Interleavings
pub mod Waits
use boost_asio_study.Asio.{ErrorCode, Errors, failed}
use boost_asio_study.Base.{ℕ, suc, Bool, true, false, List, [], ◌∷◌, ◌++◌, ◌≡◌, All, if◌then◌else◌}
use boost_asio_study.Calls.{Program, perform, exited, terminated}
use boost_asio_study.LoopServer.{
  Handled, handle_client, handle_client_parallel, handle_client_ssl, Round, Served, serve,
  serve_parallel, new_acceptor, new_ssl_acceptor,
}
use boost_asio_study.LoopServer.Clients.{handle_client_parallel_kept, Accepts}
use boost_asio_study.LoopServer.Stops.{stopped_after, serve-stop, serve_parallel-stop}

-- What the three servers differ in: the calls of the acceptor's constructor, the service of a client,
-- what has to be true of the results of its calls before `Accept` returns, and the loop of `Run`.
pub record Kind : Type 1 where
  pub constructs : Program
  pub handle : List ErrorCode → Handled
  pub Returns : List ErrorCode → Type 0
  pub serves : List Round → Served
  pub serves-stop :
      (before after : List Round) (last : Round)
      → All Accepts before
      → All (λ r. Returns r.client) before
      → last.stop ≡ true
      → serves (before ++ last ∷ after) ≡ stopped_after handle before

-- `Acceptor::Accept` handles the client itself, and returns when the service does.
abbrev pub loop_server : Errors → Kind
loop_server e = record {
  constructs = new_acceptor;
  handle = handle_client e;
  Returns = λ results. (handle_client e results).finished ≡ true;
  serves = serve (handle_client e);
  serves-stop = serve-stop (handle_client e);
}

abbrev ssl_server : Errors → Kind
ssl_server e = record {
  constructs = new_ssl_acceptor;
  handle = handle_client_ssl e;
  Returns = λ results. (handle_client_ssl e results).finished ≡ true;
  serves = serve (handle_client_ssl e);
  serves-stop = serve-stop (handle_client_ssl e);
}

-- `StartHandlingClient` starts a thread, detaches it, and returns.
abbrev parallel_server : Errors → Kind
parallel_server e = record {
  constructs = new_acceptor;
  handle = handle_client_parallel e;
  Returns = λ results. Unit;
  serves = serve_parallel (handle_client_parallel e);
  serves-stop = λ before after last acc _ stop.
      serve_parallel-stop (handle_client_parallel e) before after last
        (handle_client_parallel_kept e) acc stop;
}

-- Where the thread of `Run` is: in the acceptor's constructor, before the test of `m_stop`, in `accept`,
-- with a client, behind the loop; or an exception has left it, which ends the process.
pub data Worker : Type 0 where
  constructing testing accepting handling left aborted : Worker

-- Where `main` is: in its sleep, in `join`, or behind it.
pub data Main : Type 0 where
  sleeping joining returned : Main

-- `constructed` has the results of the constructor's calls, `rounds` the clients that were handled, and
-- `late` counts the connections accepted since `m_stop` is set.
pub record Server : Type 0 where
  pub m_stop : Bool
  pub main : Main
  pub worker : Worker
  pub constructed : List ErrorCode
  pub rounds : List Round
  pub late : ℕ

-- `Server()` and `Start`
abbrev pub start : Server
start = record {
  m_stop = false;
  main = sleeping;
  worker = constructing;
  constructed = [];
  rounds = [];
  late = 0;
}

-- A round of `Run` that came to a client, with the results of the client's calls.
abbrev pub accepted_round : ErrorCode → List ErrorCode → Round
accepted_round ec results = record { stop = false; accepted = ec; client = results }

-- One step of either thread.
pub data Step (e : Errors) (k : Kind) : Server → Server → Type 1 where
  construct :
      {s : Server} (results : List ErrorCode)
      → s.worker ≡ constructing
      → (perform e k.constructs results).end ≡ exited 0
      → Step e k s (record s { worker = testing; constructed = results })
  construct_throws :
      {s : Server} (results : List ErrorCode)
      → s.worker ≡ constructing
      → (perform e k.constructs results).end ≡ terminated
      → Step e k s (record s { worker = aborted })
  test_go :
      {s : Server}
      → s.worker ≡ testing
      → s.m_stop ≡ false
      → Step e k s (record s { worker = accepting })
  test_stop :
      {s : Server} → s.worker ≡ testing → s.m_stop ≡ true → Step e k s (record s { worker = left })
  accept :
      {s : Server}
      → s.worker ≡ accepting
      → Step e k s (record s { worker = handling; late = if s.m_stop then suc s.late else s.late })
  accept_throws : {s : Server} → s.worker ≡ accepting → Step e k s (record s { worker = aborted })
  handle :
      {s : Server} (ec : ErrorCode) (results : List ErrorCode)
      → s.worker ≡ handling
      → failed ec ≡ false
      → k.Returns results
      → Step e k s
          (record s { worker = testing; rounds = s.rounds ++ accepted_round ec results ∷ [] })
  store : {s : Server} → s.main ≡ sleeping → Step e k s (record s { m_stop = true; main = joining })
  join :
      {s : Server} → s.main ≡ joining → s.worker ≡ left → Step e k s (record s { main = returned })

pub data Reach (e : Errors) (k : Kind) (s : Server) : Server → Type 1 where
  here : Reach e k s s
  next : {t u : Server} → Reach e k s t → Step e k t u → Reach e k s u
