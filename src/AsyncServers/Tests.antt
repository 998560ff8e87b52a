-- ===== src/AsyncServers/Tests.antt =====
-- The theorems about the servers with all its clients at concrete runs.
use boost_asio_study.Asio.{ErrorCode, failed}
use boost_asio_study.Asio.Sample.{no_error, connection_reset}
use boost_asio_study.AsyncServers.{Event, listens, completes, stops_io, any_fatal, react, step, run}
use boost_asio_study.AsyncServers.Independence.{addressed, heard}
use boost_asio_study.AsyncServers.Tcp.{
  tcp_run, tcp_at, tcp_start, tcp_service, clients_served, stop_abandons,
}
use boost_asio_study.AsyncTcpServer.{
  new_acceptor, delete_service, read_until, write, sent_handler, on_accept, stop, start, log,
}
use boost_asio_study.AsyncTcpServer.Accepts.{counts, listener}
use boost_asio_study.AsyncTcpServer.Exchange.{logged}
use boost_asio_study.Base.{
  true, false, List, [], ◌∷◌, ◌++◌, none, some, codes, length, ◌+◌, ◌≡◌, refl, if◌then◌else◌,
}
use boost_asio_study.AsyncTcpServer
use boost_asio_study.HttpAcceptor
use boost_asio_study.PoolServer.{World}
use boost_asio_study.Listener
use boost_asio_study.Listener.{accepted, stops}

-- Two clients, of which the first is served and the read of the second fails.
abbrev two_clients : List (Event ErrorCode)
two_clients =
    listens (accepted no_error)
    ∷ listens (accepted connection_reset)
    ∷ listens (accepted no_error)
    ∷ completes 0 no_error
    ∷ completes 1 connection_reset
    ∷ listens stops
    ∷ completes 0 no_error
    ∷ []

clients_served_example :
    let x = tcp_run two_clients in
    (length x.services
      ≡ Listener.connections listener
          (heard listener tcp_service two_clients tcp_start)
          (Listener.started listener new_acceptor))
    × (x.listening.pending + (counts x.listening.actions).closes ≡ 1)
    × ((tcp_at two_clients 0).pending ≡ none)
    × ((tcp_at two_clients 0).actions
        ≡ read_until (codes "\n")
          ∷ (if failed no_error
              then log no_error ∷ delete_service ∷ []
              else write (codes "Response\n") ∷ (logged no_error ++ delete_service ∷ [])))
unfolding run step react any_fatal addressed counts Listener.started_by Listener.step on_accept stop
    start
clients_served_example = clients_served two_clients 0 no_error no_error [] refl

abbrev one_sending : List (Event ErrorCode)
one_sending = listens (accepted no_error) ∷ completes 0 no_error ∷ listens stops ∷ []

abbrev behind_stop : List (Event ErrorCode)
behind_stop = completes 0 no_error ∷ listens (accepted no_error) ∷ []

stop_abandons_example :
    let events = one_sending ++ stops_io ∷ behind_stop in
    ((tcp_run events).services ≡ (tcp_run one_sending).services)
    × ((tcp_run events).listening ≡ (tcp_run one_sending).listening)
    × ((tcp_at events 0).pending ≡ some sent_handler)
    × ((tcp_at events 0).actions ≡ read_until (codes "\n") ∷ write (codes "Response\n") ∷ [])
unfolding run step react any_fatal addressed counts Listener.started_by Listener.step on_accept stop
    start
stop_abandons_example = stop_abandons one_sending behind_stop 0 no_error refl refl

-- A machine with four cores, on which nothing fails.
abbrev four_cores : World
four_cores = record {
  bound = no_error;
  listening = no_error;
  hardware_concurrency = 4;
  creates = λ n. true;
  pool_dies = false;
}
