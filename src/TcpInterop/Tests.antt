-- ===== src/TcpInterop/Tests.antt =====
-- The theorem about client and server at a concrete exchange.
use boost_asio_study.Asio.Sample.{sample, sample-IsErrors, no_error, received}
use boost_asio_study.AsyncTcpClient
use boost_asio_study.AsyncTcpClient.{
  new_client, request_text, tag, open_socket, connect, shutdown_both, erase, call_back,
}
use boost_asio_study.AsyncTcpClient.Runs.{requests, completes, trace_of}
use boost_asio_study.AsyncTcpServer.Exchange.{exchange}
use boost_asio_study.Base.{[], ◌∷◌, ◌++◌, Bytes, codes, Lacks, ◌≡◌, refl}
use boost_asio_study.TcpInterop.{request_served}

request_served_example :
    ((line : Bytes) × (request_text 10 ≡ line ++ b'\n' ∷ []) × Lacks b'\n' line)
    × (trace_of sample
          (requests no_error 10 1
            ∷ completes 0 (received [])
            ∷ completes 0 (received [])
            ∷ completes 0 (received (codes "Response\n"))
            ∷ [])
          new_client
        ≡ tag 0 (
            open_socket
            ∷ connect
            ∷ AsyncTcpClient.write (request_text 10)
            ∷ AsyncTcpClient.read_until (codes "\n")
            ∷ shutdown_both
            ∷ erase 1
            ∷ call_back 1 (codes "Response") no_error
            ∷ []))
request_served_example =
    request_served sample sample-IsErrors new_client no_error 10 1 (received []) (received [])
      (received (codes "Response\n")) no_error no_error (codes "Response\n") refl refl refl refl
      refl refl (exchange no_error no_error []).1 refl
