-- ===== src/HttpServer/Serving.antt =====
-- A GET request from `start_handling` to the end of the service, in any two parts.
use boost_asio_study.Decimal.{to_string}
use boost_asio_study.Asio.{Errors, Completion, null_write, shutdown_receive, shutdown_both}
use boost_asio_study.Base.{
  ℕ, List, [], ◌∷◌, ◌++◌, Option, none, some, ◌≡◌, refl, ◌∙◌, arith, bytes_eq, Bytes, codes, All,
}
use boost_asio_study.HttpText.{Field, IsField, render, assign_all}
use boost_asio_study.HttpServer.{
  Dict, Service, new_service, World, Action, read_until, shutdown, write, Handler,
  request_line_handler, headers_handler, sent_handler, Exit, awaits, deleted, faulted, Outcome,
  crlf, root, get_method, http_version, http_status_table, content_length, start_handling, dispatch,
  on_response_sent, shutdown_then, send_response,
}
use boost_asio_study.HttpServer.Lifecycle.{continue, run, started}
use boost_asio_study.HttpServer.Requests.{words, request_line_answer}
use boost_asio_study.HttpServer.Responses.{
  concat, Answer, not_found, unreadable, empty, has_content, answer_for, answered, headers_answer,
  send_response_bytes,
}
use boost_asio_study.Stream.Laws.{IsWord}
use boost_asio_study.Stream.{is_space}

abbrev pub at : List Action → Exit → Outcome
at done x = record { actions = done; exit = x }

run_step :
    (e : Errors) (w : World) (h : Handler) (s : Service) (c : Completion) (more : List Action)
    (x : Exit) (done : List Action) (events : List (World × Completion))
    → dispatch e w h s c ≡ at more x
    → run e (at done (awaits h s)) ((w, c) ∷ events) ≡ run e (at (done ++ more) x) events
unfolding run continue
run_step e w h s c more x done events same = rw same

-- The bytes of the answer to a GET request; `none` stands for the write through the null pointer.
unfoldable pub response_text : Answer → Option Bytes
response_text not_found = some (codes "HTTP/1.1404 Not Found\r\n\r\n")
response_text unreadable = some (codes "HTTP/1.1500 Server Error\r\n\r\n")
response_text empty = some (codes "HTTP/1.1200 OK\r\ncontent-length: 0\r\n\r\n")
response_text has_content = none

abbrev pub reads : List Action
reads = read_until crlf ∷ read_until (crlf ++ crlf) ∷ []

-- A service that has sent these bytes in one write, and has ended; or has written through null.
abbrev pub Serves : Option Bytes → Outcome → Type 0
Serves none o = o ≡ at (read_until crlf ∷ read_until (crlf ++ crlf) ∷ []) (faulted null_write)
Serves (some bytes) o =
    (buffers : List Bytes) × (concat buffers ≡ bytes)
    × (o
        ≡ at
            (read_until crlf
              ∷ read_until (crlf ++ crlf)
              ∷ shutdown shutdown_receive
              ∷ write buffers
              ∷ shutdown shutdown_both
              ∷ [])
            deleted)

line_step :
    (e : Errors) (w : World) (c : Completion) (r : ℕ) (rs rest : Bytes)
    → c.ec.value ≡ 0
    → IsWord (r ∷ rs)
    → c.received ≡ words get_method (r ∷ rs) http_version ++ b'\r' ∷ b'\n' ∷ rest
    → dispatch e w request_line_handler new_service c
      ≡ at (read_until (crlf ++ crlf) ∷ []) (
          awaits headers_handler
            (record new_service { request = rest; requested_resource = r ∷ rs }))
unfolding dispatch bytes_eq is_space
line_step e w c r rs rest h hr same =
    request_line_answer e w c.ec (record new_service { request = c.received }) b'G' r b'H'
      (codes "ET") rs (codes "TTP/1.1") rest h (refl, (refl, (refl, tt))) hr
      (refl, (refl, (refl, (refl, (refl, (refl, (refl, (refl, tt)))))))) same

sent_step :
    (e : Errors) (w : World) (s : Service) (c : Completion)
    → c.ec.value ≡ 0
    → (w.shutdown_result shutdown_both).value ≡ 0
    → dispatch e w sent_handler s c ≡ at (shutdown shutdown_both ∷ []) deleted
unfolding dispatch on_response_sent shutdown_then
sent_step e w s c h up = rw (h, up)

-- The handler of the header fields has sent these bytes, or has written through null.
abbrev Answers : Option Bytes → Outcome → Type 0
Answers none o = o ≡ at [] (faulted null_write)
Answers (some bytes) o =
    (buffers : List Bytes) × (s' : Service) × (concat buffers ≡ bytes)
    × (o ≡ at (shutdown shutdown_receive ∷ write buffers ∷ []) (awaits sent_handler s'))

-- A service that has read the request, and nothing else.
abbrev pub asked : Bytes → Dict → Service
asked resource fields = record new_service {
  requested_resource = resource;
  request_headers = fields;
}

sends :
    (w : World) (s : Service) (text bytes : Bytes)
    → (w.shutdown_result shutdown_receive).value ≡ 0
    → http_status_table s.response_status_code ≡ some text
    → s.resource_size_bytes ≡ 0
    → (http_version ++ (text ++ crlf)) ++ (s.response_headers ++ crlf) ≡ bytes
    → Answers (some bytes) (send_response w s)
sends w s text bytes up known none_loaded same =
    let (buffers, s', sent, written) = send_response_bytes w s up known none_loaded in
    (buffers, s', written ∙ same, sent)

answered-Answers :
    (w : World) (resource : Bytes) (fields : Dict) (answer : Answer)
    → (w.shutdown_result shutdown_receive).value ≡ 0
    → Answers (response_text answer) (answered w (asked resource fields) answer)
unfolding answered response_text http_status_table content_length to_string
answered-Answers w resource fields not_found up =
    sends w (record (asked resource fields) { response_status_code = 404 }) (codes "404 Not Found")
      _ up refl refl refl
answered-Answers w resource fields unreadable up =
    sends w (record (asked resource fields) { response_status_code = 500 })
      (codes "500 Server Error") _ up refl refl refl
answered-Answers w resource fields empty up =
    sends w (record (asked resource fields) { response_headers = content_length 0 })
      (codes "200 OK") _ up refl refl refl
answered-Answers w resource fields has_content up = refl

Answers-Serves :
    (e : Errors) (w : World) (c : Completion) (text : Option Bytes) (o : Outcome)
    → c.ec.value ≡ 0
    → (w.shutdown_result shutdown_both).value ≡ 0
    → Answers text o
    → Serves text (run e (at (reads ++ o.actions) o.exit) ((w, c) ∷ []))
unfolding run continue
Answers-Serves e w c none o h up answers = rw answers
Answers-Serves e w c (some bytes) o h up (buffers, s', same, sent) =
    (buffers, same, rw sent (rw (sent_step e w s' c h up)))

-- The service on both parts of the request.
pub request_answered :
    (e : Errors) (w : World) (r : ℕ) (rs : Bytes) (fs : List Field) (line_rest : Bytes)
    (first second : Completion) (later : List (World × Completion))
    → IsWord (r ∷ rs)
    → All IsField fs
    → first.ec.value ≡ 0
    → second.ec.value ≡ 0
    → first.received ≡ words get_method (r ∷ rs) http_version ++ b'\r' ∷ b'\n' ∷ line_rest
    → line_rest ++ second.received ≡ render fs crlf
    → let o = answered w (asked (r ∷ rs) (assign_all fs [])) (answer_for w (root ++ r ∷ rs)) in
      run e started ((w, first) ∷ (w, second) ∷ later)
      ≡ run e (at (reads ++ o.actions) o.exit) later
unfolding start_handling
request_answered e w r rs fs line_rest first second later hr hf h1 h2 q1 q2 =
    let asking : Service = record new_service {
      request = line_rest ++ second.received;
      requested_resource = r ∷ rs;
    } in
    let o : Outcome =
      answered w (asked (r ∷ rs) (assign_all fs [])) (answer_for w (root ++ r ∷ rs)) in
    let headers : dispatch e w headers_handler
          (record new_service { request = line_rest; requested_resource = r ∷ rs }) second
        ≡ o =
      unfold dispatch in headers_answer e w second.ec asking fs crlf h2 refl hf (omega arith) q2 in
    run_step e w request_line_handler new_service first _ _ (read_until crlf ∷ [])
      ((w, second) ∷ later) (line_step e w first r rs line_rest h1 hr q1)
    ∙ run_step e w headers_handler
        (record new_service { request = line_rest; requested_resource = r ∷ rs }) second o.actions
        o.exit reads later headers

-- A GET request for any resource, with any header fields, that arrives in any two parts of which the
-- first has the request line and which end with the empty line, while no operation and no shutdown
-- fails: by what is under the root at that path the service writes the bytes of `response_text`
-- (404 where there is nothing, 500 where it cannot be opened, 200 where it is empty) in one write,
-- shuts the socket down, and is deleted; for a file with content it writes nothing to the socket,
-- and ends in a write through the null pointer.
pub get_served :
    (e : Errors) (w : World) (r : ℕ) (rs : Bytes) (fs : List Field) (line_rest : Bytes)
    (first second sent : Completion)
    → IsWord (r ∷ rs)
    → All IsField fs
    → (w.shutdown_result shutdown_receive).value ≡ 0
    → (w.shutdown_result shutdown_both).value ≡ 0
    → first.ec.value ≡ 0
    → second.ec.value ≡ 0
    → sent.ec.value ≡ 0
    → first.received ≡ words get_method (r ∷ rs) http_version ++ b'\r' ∷ b'\n' ∷ line_rest
    → line_rest ++ second.received ≡ render fs crlf
    → Serves
        (response_text (answer_for w (root ++ r ∷ rs)))
        (run e started ((w, first) ∷ (w, second) ∷ (w, sent) ∷ []))
get_served e w r rs fs line_rest first second sent hr hf up_receive up_both h1 h2 h3 q1 q2 =
    let answer = answer_for w (root ++ r ∷ rs) in
    rw (request_answered e w r rs fs line_rest first second ((w, sent) ∷ []) hr hf h1 h2 q1 q2) (
      Answers-Serves e w sent (response_text answer)
        (answered w (asked (r ∷ rs) (assign_all fs [])) answer) h3 up_both
        (answered-Answers w (r ∷ rs) (assign_all fs []) answer up_receive))
