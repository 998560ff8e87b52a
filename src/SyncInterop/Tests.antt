-- ===== src/SyncInterop/Tests.antt =====
-- The theorem about the synchronous clients and their servers at concrete results.
use boost_asio_study.Asio.Sample.{sample, no_error}
use boost_asio_study.AsyncTcpServer
use boost_asio_study.AsyncTcpServer.{start_handling, new_service, delete_service}
use boost_asio_study.AsyncTcpServer.Exchange
use boost_asio_study.Base.{
  ℕ, zero, suc, false, All, length-replicate, [], ◌∷◌, Bytes, codes, replicate, ◌≡◌, refl, arith,
}
use boost_asio_study.Calls.{handshake, read_until, write, exited, perform}
use boost_asio_study.LoopServer.{handle_client, handle_client_parallel, handle_client_ssl}
use boost_asio_study.SyncClients.Ssl
use boost_asio_study.SyncClients.Tcp
use boost_asio_study.SyncInterop.{failed, Succeeds, IsLine, calls_of, sync_exchanges}

replicate-All : (n : ℕ) → All (λ ec. failed ec ≡ false) (replicate n no_error)
replicate-All zero = tt
replicate-All (suc n) = (refl, replicate-All n)

no_errors : (n : ℕ) → Succeeds n (replicate n no_error)
no_errors n = (omega (arith, length-replicate n no_error), replicate-All n)

sync_exchanges_example :
    let exchange = Exchange.run (no_error ∷ no_error ∷ []) (start_handling new_service) in
    IsLine (Tcp.request_text 10)
    × IsLine (Ssl.request_text 10)
    × (perform sample Tcp.main (replicate 7 no_error)
        ≡ record { made = calls_of Tcp.main; end = exited 0 })
    × (perform sample Ssl.main (replicate 11 no_error)
        ≡ record { made = calls_of Ssl.main; end = exited 0 })
    × (response : Bytes) × ((handle_client sample (replicate 2 no_error)).made
        ≡ read_until (codes "\n") ∷ write response ∷ [])
    × ((handle_client_parallel sample (replicate 2 no_error)).made
        ≡ read_until (codes "\n") ∷ write response ∷ [])
    × (exchange.actions
        ≡ AsyncTcpServer.read_until (codes "\n")
          ∷ AsyncTcpServer.write response
          ∷ delete_service
          ∷ [])
    × ((handle_client_ssl sample (replicate 3 no_error)).made
        ≡ handshake ∷ read_until (codes "\n") ∷ write response ∷ [])
    × (Tcp.receive_response response ≡ codes "Response")
    × (Ssl.receive_response response ≡ codes "Response")
sync_exchanges_example =
    sync_exchanges sample 10 (replicate 7 no_error) (replicate 2 no_error) (replicate 11 no_error)
      (replicate 3 no_error) no_error no_error (no_errors 7) (no_errors 2) (no_errors 11)
      (no_errors 3) refl refl
