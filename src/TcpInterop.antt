-- ===== src/TcpInterop.antt =====
-- The asynchronous TCP client of 03-03-01-multi_thread_async_tcp_client.cpp with the service of the
-- asynchronous TCP server of 04-03-01-async_tcp_server.cpp.
mod Tests
use boost_asio_study.Asio.{ErrorCode, Errors, IsErrors, Completion, failed}
use boost_asio_study.AsyncTcpClient.{
  Client, request_text, tag, open_socket, connect, shutdown_both, erase, call_back,
}
use boost_asio_study.AsyncTcpClient
use boost_asio_study.AsyncTcpClient.Results.{request_answered}
use boost_asio_study.AsyncTcpClient.Runs.{requests, completes, trace_of}
use boost_asio_study.AsyncTcpServer
use boost_asio_study.AsyncTcpServer.{start_handling, new_service, delete_service}
use boost_asio_study.AsyncTcpServer.Exchange.{run, exchange}
use boost_asio_study.Base.{
  ℕ, List, [], ◌∷◌, ◌++◌, Bytes, codes, length, Lacks, Lacks-append, false, ◌≡◌, ◌≢◌, refl, arith,
  sym, ◌∙◌, append_assoc,
}
use boost_asio_study.Decimal.{to_string, to_string-AllDigits, AllDigits}

pub digits-Lacks : (bytes : Bytes) → AllDigits bytes → Lacks b'\n' bytes
digits-Lacks [] h = tt
digits-Lacks (c ∷ cs) h = (ground (arith, h.0), digits-Lacks cs h.1)

-- What the service writes when neither of its operations fails.
service_response :
    (received sent : ErrorCode) (response : Bytes)
    → failed received ≡ false
    → failed sent ≡ false
    → (run (received ∷ sent ∷ []) (start_handling new_service)).actions
      ≡ AsyncTcpServer.read_until (codes "\n")
        ∷ (AsyncTcpServer.write response ∷ (delete_service ∷ []))
    → response ≡ codes "Response\n"
service_response received sent response received_ok sent_ok served =
    let exchanged = sym served ∙ (exchange received sent []).1 in
    let plain = rw (received_ok, sent_ok) at exchanged in cc

-- The request of the client is one line, so that the server's read up to a newline gets all of it.
-- And if neither side meets an error: what the client reads, if it is what the service writes,
-- is answered to the callback as `Response` with no error.
pub request_served :
    (e : Errors) (documented : IsErrors e) (c : Client) (opened : ErrorCode) (duration_sec id : ℕ)
    (connected written read : Completion) (received sent : ErrorCode) (response : Bytes)
    → failed opened ≡ false
    → failed connected.ec ≡ false
    → failed written.ec ≡ false
    → failed read.ec ≡ false
    → failed received ≡ false
    → failed sent ≡ false
    → (run (received ∷ sent ∷ []) (start_handling new_service)).actions
      ≡ AsyncTcpServer.read_until (codes "\n")
        ∷ (AsyncTcpServer.write response ∷ (delete_service ∷ []))
    → read.received ≡ response
    → ((line : Bytes) × (request_text duration_sec ≡ line ++ b'\n' ∷ []) × Lacks b'\n' line)
      × (let i = length c.sessions in
          trace_of e
            (requests opened duration_sec id
              ∷ completes i connected
              ∷ completes i written
              ∷ completes i read
              ∷ [])
            c
          ≡ tag i (
              open_socket
              ∷ connect
              ∷ AsyncTcpClient.write (request_text duration_sec)
              ∷ AsyncTcpClient.read_until (codes "\n")
              ∷ shutdown_both
              ∷ erase id
              ∷ call_back id (codes "Response") e.success
              ∷ []))
unfolding request_text
request_served e documented c opened d id connected written read received sent response open_ok
      connected_ok written_ok read_ok received_ok sent_ok served arrived =
    let written_response : response ≡ codes "Response\n" =
      service_response received sent response received_ok sent_ok served in
    (
      (
        codes "EMULATE_LONG_CALC_OP " ++ to_string d,
        refl,
        Lacks-append b'\n' (codes "EMULATE_LONG_CALC_OP ") (to_string d) (omega arith)
            (digits-Lacks (to_string d) (to_string-AllDigits d)),
      ),
      request_answered e documented c opened d id connected written read (codes "Response") []
          open_ok connected_ok written_ok read_ok (omega arith) (arrived ∙ written_response),
    )
