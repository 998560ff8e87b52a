-- ===== src/HttpClient/Asking.antt =====
-- A request from `execute` to the first read of the response.
use boost_asio_study.Asio.{ErrorCode, Errors, Completion, shutdown_send}
use boost_asio_study.Base.{
  append_assoc, codes, ◌<◌, true, false, List, [], ◌∷◌, ◌++◌, ◌≡◌, refl, ◌∙◌, arith, Bytes, length,
}
use boost_asio_study.Decimal.{to_string}
use boost_asio_study.HttpText.{render}
use boost_asio_study.HttpClient.{
  http_version, Request, Action, resolve, connect, write, shutdown, read_until, Handler,
  resolved_handler, connected_handler, sent_handler, status_handler, Exit, awaits, Outcome, act,
  stop, crlf, request_text, execute, dispatch, on_host_name_resolved, on_connection_established,
  on_request_sent, unless_failed, unless_cancelled,
}
use boost_asio_study.HttpClient.Lifecycle.{Event, completes, run, continue}

-- A request that `main` has set up, and that has not been executed or cancelled.
pub record IsReady (r : Request) : Type 0 where
  pub has_port : 0 < r.port
  pub has_host : 0 < length r.host
  pub has_uri : 0 < length r.uri
  pub has_callback : r.callback ≡ true
  pub live : r.was_cancelled ≡ false
  pub nothing_sent : r.request_buf ≡ []
  pub nothing_received : r.response.response_buf ≡ []

abbrev pub at : List Action → Exit → Outcome
at done x = record { actions = done; exit = x }

-- A completion for which the next handler is known.
pub run_step :
    (e : Errors) (sr : ErrorCode) (h : Handler) (r : Request) (c : Completion) (more : List Action)
    (x : Exit) (done : List Action) (events : List Event)
    → dispatch e sr h r c ≡ at more x
    → run e (at done (awaits h r)) (completes sr c ∷ events) ≡ run e (at (done ++ more) x) events
unfolding run continue
run_step e sr h r c more x done events same = rw same

pub run_nil : (e : Errors) (o : Outcome) → run e o [] ≡ o
unfolding run
run_nil e o = refl

execute_started :
    (e : Errors) (r : Request)
    → IsReady r
    → execute e r ≡ at (resolve r.host (to_string r.port) ∷ []) (awaits resolved_handler r)
unfolding execute unless_cancelled
execute_started e r v = ground (arith, v.has_port)

resolved_step :
    (e : Errors) (sr : ErrorCode) (r : Request) (c : Completion)
    → c.ec.value ≡ 0
    → r.was_cancelled ≡ false
    → dispatch e sr resolved_handler r c ≡ act connect (stop (awaits connected_handler r))
unfolding dispatch on_host_name_resolved unless_failed unless_cancelled
resolved_step e sr r c h live = rw (h, live)

connected_step :
    (e : Errors) (sr : ErrorCode) (r : Request) (c : Completion)
    → c.ec.value ≡ 0
    → r.was_cancelled ≡ false
    → r.request_buf ≡ []
    → dispatch e sr connected_handler r c
      ≡ act
          (write (request_text r.uri r.host))
          (stop (awaits sent_handler (record r { request_buf = request_text r.uri r.host })))
unfolding dispatch on_connection_established unless_failed unless_cancelled
connected_step e sr r c h live empty = simp (h, live, empty)

sent_step :
    (e : Errors) (sr : ErrorCode) (r : Request) (c : Completion)
    → sr.value ≡ 0
    → c.ec.value ≡ 0
    → r.was_cancelled ≡ false
    → dispatch e sr sent_handler r c
      ≡ at (shutdown shutdown_send ∷ read_until crlf ∷ []) (awaits status_handler r)
unfolding dispatch on_request_sent unless_failed unless_cancelled
sent_step e sr r c up h live = rw (h, up, live)

-- The request is a request line and one header field, and ends with the empty line.
pub request_text_lem :
    (uri host : Bytes)
    → request_text uri host
      ≡ (codes "GET" ++ b' ' ∷ (uri ++ b' ' ∷ http_version))
        ++ b'\r' ∷ b'\n' ∷ render ((codes "HOST", b' ' ∷ host) ∷ []) crlf
unfolding request_text render
request_text_lem uri host = simp append_assoc

-- The operations up to the first read.
abbrev pub asked : Request → List Action
asked r =
    resolve r.host (to_string r.port)
    ∷ connect
    ∷ write (request_text r.uri r.host)
    ∷ shutdown shutdown_send
    ∷ read_until crlf
    ∷ []

pub run-asked :
    (e : Errors) (r : Request) (ready : IsReady r) (sr : ErrorCode)
    (resolved connected sent : Completion) (events : List Event)
    → sr.value ≡ 0
    → resolved.ec.value ≡ 0
    → connected.ec.value ≡ 0
    → sent.ec.value ≡ 0
    → run e
        (execute e r)
        (completes sr resolved ∷ completes sr connected ∷ completes sr sent ∷ events)
      ≡ run e
          (at
            (asked r)
            (awaits status_handler (record r { request_buf = request_text r.uri r.host })))
          events
run-asked e r ready sr resolved connected sent events up h1 h2 h3 =
    let r1 : Request = record r { request_buf = request_text r.uri r.host } in
    rw (execute_started e r ready) (
      run_step e sr resolved_handler r resolved _ _ _ _
        (resolved_step e sr r resolved h1 ready.live)
      ∙ run_step e sr connected_handler r connected _ _ _ _
          (connected_step e sr r connected h2 ready.live ready.nothing_sent)
      ∙ run_step e sr sent_handler r1 sent _ _ _ events (sent_step e sr r1 sent up h3 ready.live))
