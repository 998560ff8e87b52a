-- ===== src/HttpServer.antt =====
-- Chapter-05, Section-02, 05-02-01-http_server.cpp: `Service`, which reads one request and writes
-- one response. Each handler is a function of the object, of the completion that it is called with
-- and of what the synchronous calls return; it gives the asynchronous and synchronous operations
-- that it starts, in order, and how it ends.
mod Tests
mod ClientTests
pub mod Faults
pub mod Grammar
pub mod AnyBlock
pub mod AnyLine
pub mod Headers
pub mod Lifecycle
pub mod Rounds
pub mod Responses
pub mod Requests
pub mod Serving
mod State
use boost_asio_study.Asio.{
  ErrorCode, Errors, failed, code_eq, Side, shutdown_receive, shutdown_both, Fault, system_error,
  out_of_range, null_write, Completion,
}
use boost_asio_study.Base.{
  ℕ, zero, suc, ◌+◌, Bool, not, List, [], ◌∷◌, ◌++◌, Option, none, some, Bytes, codes, length,
  bytes_eq, ltb, ◌==◌, if◌then◌else◌,
}
use boost_asio_study.Decimal.{to_string}
use boost_asio_study.Dict.{Dict, insert}
use boost_asio_study.Stream.{Stream, open_stream, getline, get, extract_word}
pub use State.*
unfoldable pub use State.{http_status_table}

-- `start_handling`
pub start_handling : Service → Outcome
start_handling s = act (read_until crlf) (stop (awaits request_line_handler s))

-- `on_finish`: `delete this`
abbrev pub on_finish : Outcome
on_finish = stop deleted

-- `m_sock->shutdown(side)`, and what follows if it does not throw.
pub shutdown_then : World → Side → Outcome → Outcome
shutdown_then w side next =
    let ec = w.shutdown_result side in
    act (shutdown side) (if failed ec then stop (faulted (system_error ec)) else next)

abbrev pub resource_parts : ℕ → Option Bytes → List Bytes
resource_parts zero buffer = []
resource_parts (suc n) none = [] ∷ []
resource_parts (suc n) (some content) = content ∷ []

-- `response_buffers`; a non-empty resource is the content of the buffer.
pub response_buffers : Service → List Bytes
response_buffers s =
    s.response_status_line
    ∷ ((if ltb 0 (length s.response_headers) then s.response_headers ∷ [] else [])
        ++ resource_parts s.resource_size_bytes s.resource_buffer)

write_response : Service → Option Bytes → Outcome
write_response s none = stop (faulted out_of_range)
write_response s (some status_line) =
    let s' = record s {
      response_status_line = http_version ++ (status_line ++ crlf);
      response_headers = s.response_headers ++ crlf;
    } in
    act (write (response_buffers s')) (stop (awaits sent_handler s'))

pub send_response : World → Service → Outcome
send_response w s =
    shutdown_then w shutdown_receive (write_response s (http_status_table s.response_status_code))

-- `error_check`: `none` if it returns false, else what it did.
pub error_check : Errors → World → ErrorCode → Service → Option Outcome
error_check e w ec s =
    if failed ec
    then some (
        act (log ec) (
          if code_eq ec e.not_found
          then send_response w (record s { response_status_code = 413 })
          else on_finish))
    else none

abbrev checked : Option Outcome → Outcome → Outcome
checked none next = next
checked (some done) next = done

-- `request_line_stream >> request_http_version` and the test of it.
check_version : World → Service → Bytes → Outcome
check_version w s version =
    if not (bytes_eq version http_version)
    then send_response w (record s { response_status_code = 505 })
    else act (read_until (crlf ++ crlf)) (stop (awaits headers_handler s))

-- The words of the request line, behind `std::getline` and `get()` on `m_request`.
check_request_line : World → Service → Bytes → Outcome
check_request_line w s request_line =
    let (request_method, line_stream) = extract_word [] (open_stream request_line) in
    let (resource, line_stream') = extract_word s.requested_resource line_stream in
    let (version, _) = extract_word [] line_stream' in
    if not (bytes_eq request_method get_method)
    then send_response w (record s { response_status_code = 501 })
    else check_version w (record s { requested_resource = resource }) version

read_request_line : World → Service → Outcome
read_request_line w s =
    let (request_line, request_stream) = getline b'\r' [] (open_stream s.request) in
    check_request_line w (record s { request = (get request_stream).rest }) request_line

pub on_request_line_received : Errors → World → ErrorCode → Service → Outcome
on_request_line_received e w ec s = checked (error_check e w ec s) (read_request_line w s)

-- The variables of the loop over the header fields.
pub record HeaderLoop : Type 0 where
  pub request_stream : Stream
  pub header_name : Bytes
  pub header_value : Bytes
  pub headers : Dict

-- The body of the loop behind the first `std::getline`.
read_value : HeaderLoop → HeaderLoop
read_value l =
    let (value, after) = getline b'\r' l.header_value l.request_stream in
    if not l.request_stream.eof
    then record l {
      request_stream = get after;
      header_value = value;
      headers = insert l.header_name value l.headers;
    }
    else l

pub read_header : HeaderLoop → HeaderLoop
read_header l =
    let (name, after) = getline b':' l.header_name l.request_stream in
    read_value (record l { request_stream = after; header_name = name })

-- `while (!request_stream.eof())`, with fuel; `none` means that the fuel ran out.
pub header_loop : ℕ → HeaderLoop → Option HeaderLoop
header_loop zero l = none
header_loop (suc fuel) l =
    let rest = header_loop fuel (read_header l) in if l.request_stream.eof then some l else rest

abbrev pub header_fuel : Bytes → ℕ
header_fuel bytes = length bytes + 2

abbrev pub start_loop : Bytes → Dict → HeaderLoop
start_loop bytes headers = record {
  request_stream = open_stream bytes;
  header_name = [];
  header_value = [];
  headers = headers;
}

-- `content-length: N\r\n`
pub content_length : ℕ → Bytes
content_length n = codes "content-length" ++ (codes ": " ++ (to_string n ++ crlf))

-- `resource_fstream.read(m_resource_buffer.get(), m_resource_size_bytes)`: `none` is a write
-- through the null pointer.
pub read_file : Option Bytes → Bytes → Option (Option Bytes)
read_file none [] = some none
read_file none (c ∷ cs) = none
read_file (some buffer) content = some (some content)

-- `process_request` returns the object, or stops at the write to the null pointer.
pub data Processed : Type 0 where
  processed : Service → Processed
  crashed : Fault → Processed

store_file : Service → ℕ → Option (Option Bytes) → Processed
store_file s size none = crashed null_write
store_file s size (some buffer) = processed (record s {
  resource_size_bytes = size;
  resource_buffer = buffer;
  response_headers = s.response_headers ++ content_length size;
})

send_file : Service → Option Bytes → Processed
send_file s none = processed (record s { response_status_code = 500 })
send_file s (some content) = store_file s (length content) (read_file s.resource_buffer content)

pub process_request : World → Service → Processed
process_request w s =
    let path = root ++ s.requested_resource in
    if not (w.exists path)
    then processed (record s { response_status_code = 404 })
    else send_file s (w.open_file path)

pub respond : World → Processed → Outcome
respond w (crashed fault) = stop (faulted fault)
respond w (processed s) = send_response w s

finish_headers : World → Service → Option HeaderLoop → Outcome
finish_headers w s none = stop (faulted Fault.endless_loop)
finish_headers w s (some l) =
    respond w (process_request w (record s { request = []; request_headers = l.headers }))

pub on_headers_received : Errors → World → ErrorCode → Service → Outcome
on_headers_received e w ec s = checked (error_check e w ec s) (
    finish_headers w s
      (header_loop (header_fuel s.request) (start_loop s.request s.request_headers)))

pub on_response_sent : World → ErrorCode → Outcome
on_response_sent w ec =
    let next = shutdown_then w shutdown_both on_finish in
    if failed ec then act (log ec) next else next

-- Asio appends what it received to `m_request`, and calls the handler.
pub dispatch : Errors → World → Handler → Service → Completion → Outcome
dispatch e w request_line_handler s c =
    on_request_line_received e w c.ec (record s { request = s.request ++ c.received })
dispatch e w headers_handler s c =
    on_headers_received e w c.ec (record s { request = s.request ++ c.received })
dispatch e w sent_handler s c = on_response_sent w c.ec
