-- ===== src/HttpClient/Exchange.antt =====
-- One exchange from `execute` to the callback, with a response in any three parts.
use boost_asio_study.Asio.{ErrorCode, Errors, IsErrors, Completion}
use boost_asio_study.Base.{
  ◌≢◌, ℕ, ◌<◌, true, false, List, [], ◌∷◌, ◌++◌, some, ◌≡◌, ◌∙◌, ap, arith, Bytes, Lacks, All,
}
use boost_asio_study.Decimal.{to_string, ulong_mod}
use boost_asio_study.HttpText.{Field, render, assign_all}
use boost_asio_study.HttpClient.{
  log, invalid_response, http_version, Request, Action, read_until, read_all, call_back,
  status_handler, headers_handler, body_handler, awaits, finished, crlf, request_text, execute,
  dispatch, receive, on_response_body_received, on_finish,
}
use boost_asio_study.HttpClient.Blocks.{headers_stored}
use boost_asio_study.HttpClient.Headers.{IsLine}
use boost_asio_study.HttpClient.Lifecycle.{completes, run}
use boost_asio_study.HttpClient.Status.{wrong_version, status_line, status_stored}
use boost_asio_study.HttpClient.Asking.{IsReady, at, run_step, run_nil, asked, run-asked}
use boost_asio_study.Stream.{is_space}
use boost_asio_study.Stream.Laws.{IsWord}

status_step :
    (e : Errors) (sr : ErrorCode) (r : Request) (c : Completion) (n : ℕ) (message rest : Bytes)
    → c.ec.value ≡ 0
    → r.was_cancelled ≡ false
    → n < ulong_mod
    → Lacks b'\r' message
    → r.response.response_buf ≡ []
    → c.received ≡ status_line (to_string n) message rest
    → dispatch e sr status_handler r c
      ≡ at (read_until (crlf ++ crlf) ∷ []) (
          awaits headers_handler (record r {
            response = record (r.response) {
              status_code = some n;
              status_message = b' ' ∷ message;
              response_buf = rest;
            };
          }))
unfolding dispatch
status_step e sr r c n message rest h live small hm empty same =
    status_stored e c.ec (receive r c.received) n message rest h live small hm (simp (empty, same))

headers_step :
    (e : Errors) (sr : ErrorCode) (r : Request) (c : Completion) (fs : List Field) (body : Bytes)
    → c.ec.value ≡ 0
    → r.was_cancelled ≡ false
    → All IsLine fs
    → r.response.response_buf ++ c.received ≡ render fs (crlf ++ body)
    → dispatch e sr headers_handler r c
      ≡ at (read_all ∷ []) (
          awaits body_handler (record r {
            response = record (r.response) {
              headers = assign_all fs r.response.headers;
              response_buf = body;
            };
          }))
unfolding dispatch
headers_step e sr r c fs body h live hf same =
    headers_stored e c.ec (receive r c.received) fs body h live hf same

body_step :
    (e : Errors) (documented : IsErrors e) (sr : ErrorCode) (r : Request) (c : Completion)
    → c.ec ≡ e.eof
    → dispatch e sr body_handler r c ≡ at (call_back e.success (receive r c.received) ∷ []) finished
unfolding dispatch on_response_body_received on_finish
body_step e documented sr r c h = ground (
  arith,
  documented.success_value,
  ap (λ (x : ErrorCode). x.value) h,
  ap (λ (x : ErrorCode). x.category) h,
)

-- The request when its text was sent and this much of the response is not read.
abbrev pub left_over : Request → Bytes → Request
left_over r bytes = record r {
  request_buf = request_text r.uri r.host;
  response = record (r.response) { response_buf = bytes };
}

-- A response whose first word is not `HTTP/1.1` ends the exchange: the callback gets
-- `invalid_response`, and what is behind that word stays in the buffer.
pub response_refused :
    (e : Errors) (r : Request) (ready : IsReady r) (sr : ErrorCode)
    (resolved connected sent first : Completion) (v : ℕ) (vs : Bytes) (c : ℕ) (rest : Bytes)
    → sr.value ≡ 0
    → resolved.ec.value ≡ 0
    → connected.ec.value ≡ 0
    → sent.ec.value ≡ 0
    → first.ec.value ≡ 0
    → IsWord (v ∷ vs)
    → v ∷ vs ≢ http_version
    → is_space c ≡ true
    → first.received ≡ v ∷ (vs ++ c ∷ rest)
    → let refused = invalid_response e in
      run e (execute e r) (
        completes sr resolved
        ∷ completes sr connected
        ∷ completes sr sent
        ∷ completes sr first
        ∷ [])
      ≡ record {
        actions = asked r ++ log refused ∷ call_back refused (left_over r (c ∷ rest)) ∷ [];
        exit = finished;
      }
unfolding on_finish
response_refused e r ready sr resolved connected sent first v vs c rest up h1 h2 h3 h4 w ne blank
      same =
    let r1 : Request = record r { request_buf = request_text r.uri r.host } in
    let refused : dispatch e sr status_handler r1 first
        ≡ on_finish (invalid_response e) (left_over r (c ∷ rest)) =
      unfold dispatch in
      wrong_version e first.ec (receive r1 first.received) v vs c rest h4 w ne blank
        (simp (ready.nothing_received, same)) in
    run-asked e r ready sr resolved connected sent _ up h1 h2 h3
    ∙ run_step e sr status_handler r1 first _ _ _ [] refused
    ∙ run_nil e _

-- The request as the callback gets it.
abbrev pub answered : Request → ℕ → Bytes → List Field → Bytes → Request
answered r n message fs body = record r {
  request_buf = request_text r.uri r.host;
  response = record (r.response) {
    status_code = some n;
    status_message = b' ' ∷ message;
    headers = assign_all fs r.response.headers;
    response_buf = body;
  };
}

-- All that the request does for it.
abbrev pub exchanged : Errors → Request → Request → List Action
exchanged e r r' = asked r ++ read_until (crlf ++ crlf) ∷ read_all ∷ call_back e.success r' ∷ []

-- A request that is set up, and whose operations do not fail until the end of the stream; and a
-- response of a status line, header fields, an empty line and a body, that arrives in any three
-- parts of which the first has the status line, and the first two the header fields: the request
-- is sent as its text, and the callback is called once, with no error, and with the status code, the
-- message with a blank in front of it, the fields and the body of the response. These are all the
-- operations, in order.
pub response_received :
    (e : Errors) (documented : IsErrors e) (r : Request) (ready : IsReady r) (n : ℕ)
    (message : Bytes) (fs : List Field) (body : Bytes) (line_rest body_start : Bytes)
    (sr : ErrorCode) (resolved connected sent first second last : Completion)
    → n < ulong_mod
    → Lacks b'\r' message
    → All IsLine fs
    → sr.value ≡ 0
    → resolved.ec.value ≡ 0
    → connected.ec.value ≡ 0
    → sent.ec.value ≡ 0
    → first.ec.value ≡ 0
    → second.ec.value ≡ 0
    → last.ec ≡ e.eof
    → first.received ≡ status_line (to_string n) message line_rest
    → line_rest ++ second.received ≡ render fs (crlf ++ body_start)
    → body_start ++ last.received ≡ body
    → run e (execute e r) (
        completes sr resolved
        ∷ completes sr connected
        ∷ completes sr sent
        ∷ completes sr first
        ∷ completes sr second
        ∷ completes sr last
        ∷ [])
      ≡ record { actions = exchanged e r (answered r n message fs body); exit = finished }
response_received e documented r ready n message fs body line_rest body_start sr resolved connected
      sent first second last small hm hf up h1 h2 h3 h4 h5 h6 q1 q2 q3 =
    let r1 : Request = record r { request_buf = request_text r.uri r.host } in
    let r2 : Request = record r1 {
      response = record (r.response) {
        status_code = some n;
        status_message = b' ' ∷ message;
        response_buf = line_rest;
      };
    } in
    let r3 : Request = answered r n message fs body_start in
    run-asked e r ready sr resolved connected sent _ up h1 h2 h3
    ∙ run_step e sr status_handler r1 first _ _ _ _ (
        status_step e sr r1 first n message line_rest h4 ready.live small hm ready.nothing_received
          q1)
    ∙ run_step e sr headers_handler r2 second _ _ _ _
        (headers_step e sr r2 second fs body_start h5 ready.live hf q2)
    ∙ run_step e sr body_handler r3 last _ _ _ [] (body_step e documented sr r3 last h6)
    ∙ run_nil e _
    ∙ ap (λ (b : Bytes). at (exchanged e r (answered r n message fs b)) finished) q3
