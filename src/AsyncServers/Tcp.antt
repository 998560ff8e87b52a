-- ===== src/AsyncServers/Tcp.antt =====
-- The asynchronous TCP server, 04-03-01-async_tcp_server.cpp, with all its clients.
use boost_asio_study.Asio.{ErrorCode, failed}
use boost_asio_study.AsyncServers.{ServiceKind, Serving, Event, stops_io, start, run}
use boost_asio_study.AsyncServers.Halts.{stopped_keeps}
use boost_asio_study.AsyncServers.Independence.{alone, run-alone, addressed, heard, run-heard}
use boost_asio_study.AsyncTcpServer.{
  new_acceptor, new_service, start_handling, Acceptor, AcceptorAction, Outcome, delete_service, log,
  read_until, write, sent_handler,
}
use boost_asio_study.AsyncTcpServer.Accepts.{counts, listener}
use boost_asio_study.AsyncTcpServer.Exchange
use boost_asio_study.AsyncTcpServer.Exchange.{continue_pending, logged, exchange, received_only}
use boost_asio_study.Base.{
  ℕ, ◌+◌, false, List, [], ◌∷◌, ◌++◌, none, some, codes, length, get_or, ◌≡◌, refl, ◌∙◌, ap,
  if◌then◌else◌, arith,
}
use boost_asio_study.Listener

-- The handlers of a service throw nothing.
abbrev pub tcp_service : ServiceKind Outcome ErrorCode
tcp_service = record {
  begun = start_handling new_service;
  continue = λ ec o. continue_pending o.pending ec o;
  is_fatal = λ o. false;
}

abbrev pub tcp_start : Serving Acceptor AcceptorAction Outcome
tcp_start = start listener tcp_service new_acceptor

abbrev pub tcp_run : List (Event ErrorCode) → Serving Acceptor AcceptorAction Outcome
tcp_run events = run listener tcp_service events tcp_start

-- The service at a position.
abbrev pub tcp_at : List (Event ErrorCode) → ℕ → Outcome
tcp_at events i = get_or (tcp_run events).services i (start_handling new_service)

abbrev pub tcp_addressed : ℕ → List (Event ErrorCode) → List ErrorCode
tcp_addressed i events = addressed listener tcp_service i events tcp_start

alone-run :
    (codes : List ErrorCode) (o : Outcome)
    → alone listener tcp_service codes o ≡ Exchange.run codes o
unfolding alone Exchange.run
alone-run [] o = refl
alone-run (ec ∷ codes) o = alone-run codes (continue_pending o.pending ec o)

tcp_at-run :
    (events : List (Event ErrorCode)) (i : ℕ)
    → tcp_at events i ≡ Exchange.run (tcp_addressed i events) (start_handling new_service)
tcp_at-run events i =
    run-alone listener tcp_service i events tcp_start
    ∙ alone-run (tcp_addressed i events) (start_handling new_service)

-- Any number of clients, with the completions of their services, the accepts and the calls of
-- `Stop` in any order: the services are as many as the connections that were accepted, one accept is
-- pending or the socket that listens was closed, once; and a service of which two operations, or
-- more, have completed has done what it does alone: it has read, has written its response unless the
-- read failed, and has been deleted, exactly once and as the last thing.
pub clients_served :
    (events : List (Event ErrorCode)) (i : ℕ) (received sent : ErrorCode) (later : List ErrorCode)
    → tcp_addressed i events ≡ received ∷ sent ∷ later
    → let x = tcp_run events in
      (length x.services
        ≡ Listener.connections listener
            (heard listener tcp_service events tcp_start)
            (Listener.started listener new_acceptor))
      × (x.listening.pending + (counts x.listening.actions).closes ≡ 1)
      × ((tcp_at events i).pending ≡ none)
      × ((tcp_at events i).actions
          ≡ read_until (codes "\n")
            ∷ (if failed received
                then log received ∷ delete_service ∷ []
                else write (codes "Response\n") ∷ (logged sent ++ delete_service ∷ [])))
clients_served events i received sent later own =
    let (same, many) = run-heard listener tcp_service events tcp_start in
    let heard_events = heard listener tcp_service events tcp_start in
    let served = rw (← own) at (exchange received sent later) in
    (
      omega (arith, many),
      rw same ((Listener.listening_lem listener heard_events new_acceptor).0),
      rw (tcp_at-run events i) served.0,
      rw (tcp_at-run events i) served.1,
    )

-- `m_ios.stop()` in `Server::Stop` abandons the clients: whatever completes after it, no accept and
-- no service goes on, and a service whose response was being sent at that time is never deleted.
pub stop_abandons :
    (before after : List (Event ErrorCode)) (i : ℕ) (received : ErrorCode)
    → tcp_addressed i before ≡ received ∷ []
    → failed received ≡ false
    → let events = before ++ stops_io ∷ after in
      ((tcp_run events).services ≡ (tcp_run before).services)
      × ((tcp_run events).listening ≡ (tcp_run before).listening)
      × ((tcp_at events i).pending ≡ some sent_handler)
      × ((tcp_at events i).actions ≡ read_until (codes "\n") ∷ write (codes "Response\n") ∷ [])
stop_abandons before after i received own fine =
    let (same, listening, none_more) = stopped_keeps listener tcp_service before after tcp_start in
    let events = before ++ stops_io ∷ after in
    let left : tcp_at events i ≡ Exchange.run (received ∷ []) (start_handling new_service) =
      tcp_at-run events i
      ∙ ap (λ cs. Exchange.run cs (start_handling new_service)) (none_more i ∙ own) in
    let (pending, actions) = received_only received fine in
    (same, listening, rw left pending, rw left actions)
