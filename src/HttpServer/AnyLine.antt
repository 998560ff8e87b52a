-- ===== src/HttpServer/AnyLine.antt =====
-- What `on_request_line_received` makes of any request line, well formed or not.
use boost_asio_study.Asio.{ErrorCode, Errors}
use boost_asio_study.Base.{
  ℕ, not, [], ◌∷◌, ◌++◌, ◌≡◌, refl, Bytes, Lacks, bytes_eq, if◌then◌else◌, inl,
}
use boost_asio_study.HttpServer.{
  Service, World, read_until, headers_handler, awaits, act, stop, crlf, get_method, http_version,
  send_response, check_version, check_request_line, read_request_line, on_request_line_received,
}
use boost_asio_study.HttpServer.Requests.{error_check-none}
use boost_asio_study.Stream.{open_stream, extract_word}
use boost_asio_study.Stream.Laws.{getline_found, get_next}
use boost_asio_study.Stream.Words.{words_of, head_or, tail, extract_word-Gives}

check_request_line-words_of :
    (w : World) (s : Service) (line : Bytes)
    → let ws = words_of line in
      let s' = record s { requested_resource = head_or s.requested_resource (tail ws) } in
      check_request_line w s line ≡ (
        if not (bytes_eq (head_or [] ws) get_method)
        then send_response w (record s { response_status_code = 501 })
        else check_version w s' (head_or [] (tail (tail ws))))
unfolding check_request_line
check_request_line-words_of w s line =
    let ws = words_of line in
    let (method, after) = extract_word-Gives [] (open_stream line) ws (inl (line, refl, refl)) in
    let (resource, after') =
      extract_word-Gives s.requested_resource (extract_word [] (open_stream line)).1 (tail ws)
        after in
    let (version, _) =
      extract_word-Gives []
        (extract_word s.requested_resource (extract_word [] (open_stream line)).1).1
        (tail (tail ws)) after' in
    rw (method, resource, version) refl

-- Any line up to its carriage return, and one byte behind that, which is dropped: the words of the
-- line are its method, its resource and its version, and any more of them are ignored. A method but
-- GET, or none, is answered by 501; a version but HTTP/1.1, or none, by 505; otherwise the service
-- waits for the header fields. A resource that is missing leaves the one that was there. In each case
-- `m_request` keeps exactly what follows.
pub any_line_answer :
    (e : Errors) (w : World) (ec : ErrorCode) (s : Service) (line : Bytes) (dropped : ℕ)
    (rest : Bytes)
    → ec.value ≡ 0
    → Lacks b'\r' line
    → s.request ≡ line ++ b'\r' ∷ dropped ∷ rest
    → let ws = words_of line in
      let s' = record s {
        request = rest;
        requested_resource = head_or s.requested_resource (tail ws);
      } in
      on_request_line_received e w ec s ≡ (
        if not (bytes_eq (head_or [] ws) get_method)
        then send_response w (record s { request = rest; response_status_code = 501 })
        else if not (bytes_eq (head_or [] (tail (tail ws))) http_version)
        then send_response w (record s' { response_status_code = 505 })
        else act (read_until (crlf ++ crlf)) (stop (awaits headers_handler s')))
unfolding on_request_line_received read_request_line check_version
any_line_answer e w ec s line dropped rest h hl same = rw (
  error_check-none e w ec s h,
  same,
  getline_found b'\r' [] line (dropped ∷ rest) hl,
  get_next dropped rest,
  check_request_line-words_of w (record s { request = rest }) line,
)
