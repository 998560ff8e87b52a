-- ===== src/SyncInterop.antt =====
-- The synchronous clients of Chapter-03, Section-01 and Chapter-05, Section-03 with the servers that
-- speak their protocol: the loop, parallel and asynchronous servers of Chapter-04, and the SSL server.
mod Tests
use boost_asio_study.Asio.{ErrorCode, Errors, failed}
use boost_asio_study.AsyncTcpServer
use boost_asio_study.AsyncTcpServer.{start_handling, new_service, delete_service}
use boost_asio_study.AsyncTcpServer.Exchange
use boost_asio_study.AsyncTcpServer.Exchange.{exchange}
use boost_asio_study.Base.{
  ap, ℕ, ◌≤◌, true, false, List, [], ◌∷◌, ◌++◌, map, length, Bytes, codes, All, Lacks, Lacks-append,
  ◌≡◌, refl, arith,
}
use boost_asio_study.Calls.{
  Performed, Call, Check, returned, escapes, ignored, until_eof, handshake, read_until, write,
  exited, Program, perform, passes, caught,
}
use boost_asio_study.Decimal.{to_string, to_string-AllDigits}
use boost_asio_study.LoopServer.{handle_client, handle_client_parallel, handle_client_ssl}
use boost_asio_study.Stream.{getline, open_stream}
use boost_asio_study.Stream.Laws.{getline_found}
use boost_asio_study.SyncClients.Ssl
use boost_asio_study.SyncClients.Tcp
use boost_asio_study.TcpInterop.{digits-Lacks}

-- A result for each of so many calls, and no error.
abbrev pub Succeeds : ℕ → List ErrorCode → Type 0
Succeeds calls results = (calls ≤ length results) × All (λ ec. failed ec ≡ false) results

-- A call whose error is not what the program waits for.
abbrev IsPlain : Call × Check → Type 0
IsPlain (call, until_eof) = ⊥
IsPlain (call, _) = Unit

plain-passes :
    (e : Errors) (call : Call) (check : Check) (ec : ErrorCode)
    → IsPlain (call, check)
    → failed ec ≡ false
    → passes e check ec ≡ true
unfolding passes
plain-passes e call returned ec h fine = rw fine
plain-passes e call escapes ec h fine = rw fine
plain-passes e call ignored ec h fine = refl
plain-passes e call until_eof ec h fine = absurd h

abbrev pub calls_of : Program → List Call
calls_of = map (λ c. c.0)

-- With no error every call is made, in order, and the program comes to its end.
perform_to_end :
    (e : Errors) (q : Program) (results : List ErrorCode)
    → All IsPlain q
    → Succeeds (length q) results
    → perform e q results ≡ record { made = calls_of q; end = exited 0 }
unfolding perform
perform_to_end e [] results plain h = refl
perform_to_end e ((call, check) ∷ q) [] plain h = absurd (omega (arith, h.0))
perform_to_end e ((call, check) ∷ q) (ec ∷ results) plain h =
    rw
      (
        plain-passes e call check ec plain.0 h.1.0,
        perform_to_end e q results plain.1 (omega (arith, h.0), h.1.1),
      )
      refl

-- A request as both clients write it is one line, so that a server that reads up to a newline gets
-- all of it.
abbrev IsLine : Bytes → Type 0
IsLine bytes = (line : Bytes) × (bytes ≡ line ++ b'\n' ∷ []) × Lacks b'\n' line

request_line : (d : ℕ) → IsLine (codes "EMULATE_LONG_COMP_OP " ++ (to_string d ++ codes "\n"))
request_line d = (
  codes "EMULATE_LONG_COMP_OP " ++ to_string d,
  refl,
  Lacks-append b'\n' (codes "EMULATE_LONG_COMP_OP ") (to_string d) (omega arith)
      (digits-Lacks (to_string d) (to_string-AllDigits d)),
)

-- What the handlers of a server call when no call fails.
handled :
    (e : Errors) (calls : List Call) (results : List ErrorCode)
    → All IsPlain (caught calls)
    → Succeeds (length (caught calls)) results
    → (perform e (caught calls) results).made ≡ calls_of (caught calls)
handled e calls results plain h =
    ap (λ (p : Performed). p.made) (perform_to_end e (caught calls) results plain h)

-- What `std::getline` makes of the response.
response_line : (getline b'\n' [] (open_stream (codes "Response\n"))).0 ≡ codes "Response"
response_line = rw (getline_found b'\n' [] (codes "Response") [] (omega arith))

-- The synchronous client with each of the three TCP servers, and the SSL client with the SSL server,
-- when no call and no operation fails: both `main`s make all their calls and return 0. A request, of
-- any duration, is one line, which is what each server reads before it writes. All four servers
-- write the same bytes, and each client makes `Response` of them.
pub sync_exchanges :
    (e : Errors) (d : ℕ) (client server ssl_client ssl_server : List ErrorCode)
    (received sent : ErrorCode)
    → Succeeds (length Tcp.main) client
    → Succeeds 2 server
    → Succeeds (length Ssl.main) ssl_client
    → Succeeds 3 ssl_server
    → failed received ≡ false
    → failed sent ≡ false
    → let exchange = Exchange.run (received ∷ sent ∷ []) (start_handling new_service) in
      IsLine (Tcp.request_text d)
      × IsLine (Ssl.request_text d)
      × (perform e Tcp.main client ≡ record { made = calls_of Tcp.main; end = exited 0 })
      × (perform e Ssl.main ssl_client ≡ record { made = calls_of Ssl.main; end = exited 0 })
      × (response : Bytes) × ((handle_client e server).made
          ≡ read_until (codes "\n") ∷ write response ∷ [])
      × ((handle_client_parallel e server).made ≡ read_until (codes "\n") ∷ write response ∷ [])
      × (exchange.actions
          ≡ AsyncTcpServer.read_until (codes "\n")
            ∷ AsyncTcpServer.write response
            ∷ delete_service
            ∷ [])
      × ((handle_client_ssl e ssl_server).made
          ≡ handshake ∷ read_until (codes "\n") ∷ write response ∷ [])
      × (Tcp.receive_response response ≡ codes "Response")
      × (Ssl.receive_response response ≡ codes "Response")
unfolding handle_client handle_client_parallel handle_client_ssl Tcp.request_text Ssl.request_text
    Tcp.receive_response Ssl.receive_response
sync_exchanges e d client server ssl_client ssl_server received sent h1 h2 h3 h4 fine fine' =
    let calls : List Call = read_until (codes "\n") ∷ write (codes "Response\n") ∷ [] in
    let served = exchange received sent [] in
    (
      request_line d,
      request_line d,
      perform_to_end e Tcp.main client (tt, (tt, (tt, (tt, (tt, (tt, (tt, tt))))))) h1,
      perform_to_end e Ssl.main ssl_client (omega arith) h3,
      codes "Response\n",
      handled e calls server (tt, (tt, tt)) h2,
      handled e calls server (tt, (tt, tt)) h2,
      rw (fine, fine') at served.1,
      handled e (handshake ∷ calls) ssl_server (tt, (tt, (tt, tt))) h4,
      response_line,
      response_line,
    )
