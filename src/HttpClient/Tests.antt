-- ===== src/HttpClient/Tests.antt =====
-- Runs of `HTTPRequest` on concrete responses, and the theorems at concrete inputs.
use boost_asio_study.Asio.{ErrorCode, Fault, endless_loop}
use boost_asio_study.Asio.Sample.{sample, sample-IsErrors, no_error, received}
use boost_asio_study.Base.{some, ℕ, true, List, [], ◌∷◌, none, ◌≡◌, ◌⊎◌, refl, arith, Bytes, codes}
use boost_asio_study.Decimal.{to_string}
use boost_asio_study.HttpText.{render}
use boost_asio_study.HttpClient.{
  Request, create_request, Handler, resolved_handler, awaits, finished, faulted, stop, execute,
  cancel, dispatch, header_loop, start_loop, on_headers_received,
}
use boost_asio_study.HttpClient.Blocks.{stray_endless}
use boost_asio_study.HttpClient.Cancel.{IsStopped, cancel_stops}
use boost_asio_study.HttpClient.Asking.{IsReady}
use boost_asio_study.HttpClient.Exchange
use boost_asio_study.HttpClient.Exchange.{exchanged, response_received}
use boost_asio_study.HttpClient.Lifecycle.{Event, completes, run, completions, request_callbacks}
use boost_asio_study.HttpClient.Rounds.{callbacks}
use boost_asio_study.HttpClient.Mutex.{execute_ops, cancel_ops, handler_ops}
use boost_asio_study.HttpClient.Mutex.Free.{IsFree, mutex_released}
use boost_asio_study.HttpClient.Closing.{
  main_end, returned, terminated, waits, Dies, Hangs, main_ends,
}
use boost_asio_study.HttpClient.Program.{configured, main}

-- `main` with a host that the callback is set for.
abbrev request_one : Request
request_one = record (create_request 1) {
  host = codes "localhost";
  uri = codes "/index.html";
  callback = true;
}

abbrev with_buffer : Bytes → Request
with_buffer bytes = record request_one {
  response = record (request_one.response) { response_buf = bytes };
}

abbrev succeeds : Bytes → Event
succeeds bytes = completes no_error (received bytes)

-- A response that arrives in three parts, and the end of the stream.
abbrev whole_run : List Event
whole_run =
    succeeds []
    ∷ succeeds []
    ∷ succeeds []
    ∷ succeeds (codes "HTTP/1.1 200 OK\r\nA: 1\r\n")
    ∷ succeeds (codes "\r\nhel")
    ∷ completes no_error (record { ec = sample.eof; received = codes "lo" })
    ∷ []

request_callbacks_example :
    let o = run sample (execute sample request_one) whole_run in
    ((h : Handler) (r' : Request) → o.exit ≡ awaits h r' → callbacks o.actions ≡ 0)
    × (o.exit ≡ finished → callbacks o.actions ≡ 1)
    × ((f : Fault) → o.exit ≡ faulted f → callbacks o.actions ≡ 0)
request_callbacks_example = request_callbacks sample request_one whole_run

cancel_stops_example :
    IsStopped
      (dispatch sample no_error resolved_handler (cancel none request_one).request (received []))
cancel_stops_example =
    cancel_stops sample sample-IsErrors none no_error resolved_handler request_one (received [])
      (λ q. cc)

stray_endless_example :
    (on_headers_received sample no_error (with_buffer (codes "a\r\r\n\r\nbody"))
      ≡ stop (faulted endless_loop))
    × ((fuel : ℕ) → header_loop fuel (start_loop (codes "a\r\r\n\r\nbody") []) ≡ none)
unfolding render
stray_endless_example =
    stray_endless sample no_error (with_buffer (codes "a\r\r\n\r\nbody")) [] (codes "a") b'b'
      (codes "ody") refl tt (λ q. cc) (omega arith) (omega arith) refl

request_one-IsReady : IsReady request_one
request_one-IsReady = record {
  has_port = omega arith;
  has_host = omega arith;
  has_uri = omega arith;
  has_callback = refl;
  live = refl;
  nothing_sent = refl;
  nothing_received = refl;
}

-- The run above: the first read also gets the header field, and the second one a part of the body.
response_received_example : run sample (execute sample request_one) whole_run ≡ record {
  actions = exchanged sample request_one (
      Exchange.answered request_one 200
        (codes "OK")
        ((codes "A", codes " 1") ∷ [])
        (codes "hello"));
  exit = finished;
}
unfolding to_string render
response_received_example =
    response_received sample sample-IsErrors request_one request_one-IsReady 200 (codes "OK")
      ((codes "A", codes " 1") ∷ []) (codes "hello") (codes "A: 1\r\n") (codes "hel") no_error
      (received []) (received []) (received []) (received (codes "HTTP/1.1 200 OK\r\nA: 1\r\n"))
      (received (codes "\r\nhel")) (record { ec = sample.eof; received = codes "lo" }) (omega arith)
      (omega arith) (omega arith) refl refl refl refl refl refl refl refl refl refl

main_ends_example :
    let r = main sample (some no_error) whole_run [] whole_run in
    let c = cancel (some no_error) (configured 2) in
    ((main_end r ≡ returned 0)
      × (c.thrown ≡ none)
      × (callbacks r.one.actions ≡ 1)
      × (callbacks r.two.actions ≡ 1))
    ⊎ ((main_end r ≡ terminated)
        × ((((ec : ErrorCode) × (c.thrown ≡ some ec)) ⊎ Dies r.one.exit) ⊎ Dies r.two.exit))
    ⊎ ((main_end r ≡ waits) × (c.thrown ≡ none) × (Hangs r.one.exit ⊎ Hangs r.two.exit))
unfolding completions
main_ends_example =
    main_ends sample (some no_error) whole_run [] whole_run (omega arith) (omega arith)

mutex_released_example :
    IsFree (execute sample request_one).actions (execute_ops sample request_one)
    × IsFree (cancel (some no_error) request_one).actions (cancel_ops (some no_error) request_one)
    × IsFree
        (dispatch sample no_error resolved_handler request_one (received [])).actions
        (handler_ops sample no_error resolved_handler request_one (received []))
mutex_released_example =
    mutex_released sample no_error resolved_handler request_one (received []) (some no_error)
