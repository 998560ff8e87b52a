-- ===== src/HttpClient.antt =====
-- Chapter-05, Section-01, 05-01-01-http_client.cpp: `HTTPRequest` with its `HTTPResponse`, from
-- `execute` to the callback, and `cancel` at any time in between.
mod Tests
pub mod Headers
pub mod Cancel
pub mod Lifecycle
pub mod Rounds
pub mod Blocks
pub mod Status
pub mod Endless
pub mod Program
pub mod Closing
pub mod Mutex
pub mod Asking
pub mod Exchange
mod State
use boost_asio_study.Asio.{
  ErrorCode, Errors, failed, code_eq, Side, shutdown_send, Fault, system_error, assertion,
  endless_loop, Completion,
}
use boost_asio_study.Base.{
  ℕ, zero, suc, ◌+◌, ◌-◌, Bool, true, false, not, ◌&&◌, List, [], ◌∷◌, ◌++◌, Option, none, some,
  Bytes, codes, length, find, take, drop, bytes_eq, ltb, if◌then◌else◌,
}
use boost_asio_study.Decimal.{to_string, Stoul, parsed, logic_error, stoul}
use boost_asio_study.Dict.{Dict, insert}
use boost_asio_study.Stream.{Stream, open_stream, getline, get, extract_word}
pub use State.*

pub on_finish : ErrorCode → Request → Outcome
on_finish ec r =
    let called = act (call_back ec r) (stop finished) in
    if failed ec then act (log ec) called else called

-- The test of `m_was_cancelled` under its mutex, and the operation that is started if it is unset.
pub unless_cancelled : Errors → Request → Outcome → Outcome
unless_cancelled e r next = if r.was_cancelled then on_finish e.operation_aborted r else next

-- The test of the error code in front of every handler but the last.
pub unless_failed : ErrorCode → Request → Outcome → Outcome
unless_failed ec r next = if failed ec then on_finish ec r else next

abbrev pub asserts : Request → Bool
asserts r = ltb 0 r.port && ltb 0 (length r.host) && ltb 0 (length r.uri) && r.callback

pub execute : Errors → Request → Outcome
execute e r =
    let start = act (resolve r.host (to_string r.port)) (stop (awaits resolved_handler r)) in
    if asserts r then unless_cancelled e r start else stop (faulted assertion)

-- What `cancel` does, the request behind it, and the error of the exception that leaves it.
pub record Cancelled : Type 0 where
  pub actions : List Action
  pub request : Request
  pub thrown : Option ErrorCode

-- `if (m_sock.is_open()) m_sock.cancel()`: the call, and the error that it throws.
abbrev cancel_open : Option ErrorCode → List Action
cancel_open none = []
cancel_open (some ec) = cancel_socket ∷ []

abbrev cancel_error : Option ErrorCode → Option ErrorCode
cancel_error none = none
cancel_error (some ec) = if failed ec then some ec else none

-- `cancel`; the argument is nothing if `m_sock.is_open()` is false, and else what `m_sock.cancel()` would
-- give, which throws an error. The lock is then released, and the flag stays set.
pub cancel : Option ErrorCode → Request → Cancelled
cancel sock r = record {
  actions = cancel_resolver ∷ cancel_open sock;
  request = record r { was_cancelled = true };
  thrown = cancel_error sock;
}

pub on_host_name_resolved : Errors → ErrorCode → Request → Outcome
on_host_name_resolved e ec r =
    unless_failed ec r (unless_cancelled e r (act connect (stop (awaits connected_handler r))))

unfoldable pub request_text : Bytes → Bytes → Bytes
request_text uri host =
    (codes "GET " ++ (uri ++ (codes " HTTP/1.1" ++ crlf)))
    ++ ((codes "HOST: " ++ (host ++ crlf)) ++ crlf)

pub on_connection_established : Errors → ErrorCode → Request → Outcome
on_connection_established e ec r =
    let r' = record r { request_buf = r.request_buf ++ request_text r.uri r.host } in
    unless_failed ec r
      (unless_cancelled e r' (act (write r'.request_buf) (stop (awaits sent_handler r'))))

-- `m_sock.shutdown(shutdown_send)` throws if its result is an error.
pub on_request_sent : Errors → ErrorCode → ErrorCode → Request → Outcome
on_request_sent e shutdown_result ec r =
    let next = unless_cancelled e r (act (read_until crlf) (stop (awaits status_handler r))) in
    let after =
      if failed shutdown_result then stop (faulted (system_error shutdown_result)) else next in
    unless_failed ec r (act (shutdown shutdown_send) after)

-- Behind the status code: `std::getline` of the message, `get()`, and the next read.
pub read_status_message : Errors → Request → ℕ → Stream → Outcome
read_status_message e r status_code response_stream =
    let (status_message, after) = getline b'\r' [] response_stream in
    let r' = record r {
      response = record (r.response) {
        status_code = some status_code;
        status_message = status_message;
        response_buf = (get after).rest;
      };
    } in
    unless_cancelled e r' (act (read_until (crlf ++ crlf)) (stop (awaits headers_handler r')))

-- What `std::stoul` gave, with the stream behind its text.
pub with_status_code : Errors → Request → Stoul → Stream → Outcome
with_status_code e r (parsed n) response_stream = read_status_message e r n response_stream
with_status_code e r logic_error response_stream =
    on_finish (invalid_response e)
      (record r { response = record (r.response) { response_buf = response_stream.rest } })

-- Behind the test of the error code.
pub read_status_line : Errors → Request → Outcome
read_status_line e r =
    let (version, response_stream) = extract_word [] (open_stream r.response.response_buf) in
    let (str_status_code, after) = extract_word [] response_stream in
    if not (bytes_eq version http_version)
    then on_finish (invalid_response e)
        (record r { response = record (r.response) { response_buf = response_stream.rest } })
    else with_status_code e r (stoul str_status_code) after

pub on_status_line_received : Errors → ErrorCode → Request → Outcome
on_status_line_received e ec r = unless_failed ec r (read_status_line e r)

-- The variables of the loop over the header lines.
pub record HeaderLoop : Type 0 where
  pub response_stream : Stream
  pub header : Bytes
  pub headers : Dict

-- `std::getline(response_stream, header, '\r')` and `get()`
pub read_header : HeaderLoop → HeaderLoop
read_header l =
    let (header, after) = getline b'\r' l.header l.response_stream in
    record l { response_stream = get after; header = header }

-- `header.find(':')`, the two `substr` and `add_header`.
add_header_at : Bytes → Option ℕ → Dict → Dict
add_header_at header none headers = headers
add_header_at header (some separator_pos) headers =
    insert (take separator_pos header)
      (if ltb separator_pos (length header - 1) then drop (separator_pos + 1) header else [])
      headers

pub store_header : HeaderLoop → HeaderLoop
store_header l = record l { headers = add_header_at l.header (find b':' l.header) l.headers }

-- `while (true)`, with fuel; `none` means that the fuel ran out.
pub header_loop : ℕ → HeaderLoop → Option HeaderLoop
header_loop zero l = none
header_loop (suc fuel) l =
    let rest = header_loop fuel (store_header (read_header l)) in
    if bytes_eq (read_header l).header [] then some (read_header l) else rest

abbrev pub header_fuel : Bytes → ℕ
header_fuel bytes = length bytes + 2

abbrev pub start_loop : Bytes → Dict → HeaderLoop
start_loop bytes headers = record {
  response_stream = open_stream bytes;
  header = [];
  headers = headers;
}

pub finish_headers : Errors → Request → Option HeaderLoop → Outcome
finish_headers e r none = stop (faulted endless_loop)
finish_headers e r (some l) =
    let r' = record r {
      response = record (r.response) { headers = l.headers; response_buf = l.response_stream.rest };
    } in
    unless_cancelled e r' (act read_all (stop (awaits body_handler r')))

pub on_headers_received : Errors → ErrorCode → Request → Outcome
on_headers_received e ec r =
    let buf = r.response.response_buf in
    unless_failed ec r
      (finish_headers e r (header_loop (header_fuel buf) (start_loop buf r.response.headers)))

pub on_response_body_received : Errors → ErrorCode → Request → Outcome
on_response_body_received e ec r =
    if code_eq ec e.eof then on_finish e.success r else on_finish ec r

-- Asio appends what it received to the buffer of the response.
abbrev pub receive : Request → Bytes → Request
receive r bytes = record r {
  response = record (r.response) { response_buf = r.response.response_buf ++ bytes };
}

-- The pending operation completes; `shutdown_result` is what `m_sock.shutdown` would return.
pub dispatch : Errors → ErrorCode → Handler → Request → Completion → Outcome
dispatch e shutdown_result resolved_handler r c = on_host_name_resolved e c.ec r
dispatch e shutdown_result connected_handler r c = on_connection_established e c.ec r
dispatch e shutdown_result sent_handler r c = on_request_sent e shutdown_result c.ec r
dispatch e shutdown_result status_handler r c =
    on_status_line_received e c.ec (receive r c.received)
dispatch e shutdown_result headers_handler r c = on_headers_received e c.ec (receive r c.received)
dispatch e shutdown_result body_handler r c =
    on_response_body_received e c.ec (receive r c.received)

-- `handler`, the callback of `main`: the line that it prints.
pub data Report : Type 0 where
  completed : ℕ → Bytes → Report
  cancelled : ℕ → Report
  failed_with : ℕ → ErrorCode → Report

pub handler : Errors → Request → ErrorCode → Report
handler e r ec =
    if not (failed ec)
    then completed r.id r.response.response_buf
    else if code_eq ec e.operation_aborted
    then cancelled r.id
    else failed_with r.id ec
