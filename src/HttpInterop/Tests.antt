-- ===== src/HttpInterop/Tests.antt =====
-- The two programs together, at a concrete response.
use boost_asio_study.Asio.Sample.{sample, no_error, received}
use boost_asio_study.Base.{true, [], ◌∷◌, ◌++◌, some, codes, arith, false, none, ◌≡◌, refl, Bytes}
use boost_asio_study.HttpClient
use boost_asio_study.HttpClient.{Request, invalid_response, on_status_line_received}
use boost_asio_study.HttpServer.{Service, new_service, World}
use boost_asio_study.HttpClient.{log, call_back, finished}
use boost_asio_study.HttpClient.Asking.{IsReady, asked}
use boost_asio_study.HttpClient.Exchange.{left_over}
use boost_asio_study.HttpClient.Lifecycle.{completes, run}
use boost_asio_study.HttpServer.Lifecycle.{started, run as serve}
use boost_asio_study.HttpServer.Responses.{answer_for}
use boost_asio_study.HttpServer.Serving.{Serves, response_text}
use boost_asio_study.HttpInterop.Exchange.{exchange_rejected}
use boost_asio_study.Stream.{is_space}

abbrev empty_world : World
empty_world = record {
  shutdown_result = λ side. no_error;
  exists = λ path. false;
  open_file = λ path. none;
}

abbrev missing : Service
missing = record new_service { response_status_code = 404 }

abbrev request : Request
request = record (HttpClient.create_request 1) {
  host = codes "localhost";
  uri = codes "/a";
  callback = true;
}

request-IsReady : IsReady request
request-IsReady = record {
  has_port = omega arith;
  has_host = omega arith;
  has_uri = omega arith;
  has_callback = refl;
  live = refl;
  nothing_sent = refl;
  nothing_received = refl;
}

-- The request reaches the server in one piece but for its last two bytes.
exchange_rejected_example :
    let request_line = received (codes "GET /a HTTP/1.1\r\nHOST: localhost\r\n") in
    let answered = received (codes "HTTP/1.1404 Not Found\r\n\r\n") in
    Serves (some (codes "HTTP/1.1404 Not Found\r\n\r\n")) (
      serve sample started (
        (empty_world, request_line)
        ∷ (empty_world, received (codes "\r\n"))
        ∷ (empty_world, received [])
        ∷ []))
    × (rest : Bytes) × (run sample (HttpClient.execute sample request) (
          completes no_error (received [])
          ∷ completes no_error (received [])
          ∷ completes no_error (received [])
          ∷ completes no_error answered
          ∷ [])
        ≡ record {
          actions =
              asked request
              ++ log (invalid_response sample)
                ∷ call_back (invalid_response sample) (left_over request rest)
                ∷ [];
          exit = finished;
        })
unfolding response_text answer_for is_space HttpClient.request_text
exchange_rejected_example =
    exchange_rejected sample empty_world request request-IsReady b'/' (codes "a")
      (codes "HOST: localhost\r\n") (codes "HTTP/1.1404 Not Found\r\n\r\n")
      (received (codes "GET /a HTTP/1.1\r\nHOST: localhost\r\n")) (received (codes "\r\n"))
      (received []) no_error (received []) (received []) (received [])
      (received (codes "HTTP/1.1404 Not Found\r\n\r\n")) refl (refl, (refl, tt)) (omega arith) refl
      refl refl refl refl refl refl refl refl refl refl refl refl refl
