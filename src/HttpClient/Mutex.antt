-- ===== src/HttpClient/Mutex.antt =====
-- `m_cancel_mux`: the handlers of `HTTPRequest` with the places where they lock and unlock it.
pub mod Free
use boost_asio_study.Asio.{ErrorCode, Errors, Completion, failed, code_eq, shutdown_send}
use boost_asio_study.Base.{
  ℕ, Bool, true, false, not, ◌&&◌, List, [], ◌∷◌, ◌++◌, Option, none, some, Bytes, map, ◌≡◌, refl,
  arith, bytes_eq, if◌then◌else◌, Bool-cases, inl, inr,
}
use boost_asio_study.Decimal.{to_string, Stoul, parsed, logic_error, stoul}
use boost_asio_study.HttpClient.{
  Request, Action, resolve, connect, write, shutdown, read_until, read_all, call_back, Handler,
  resolved_handler, connected_handler, sent_handler, status_handler, headers_handler, body_handler,
  Exit, Outcome, act, stop, crlf, http_version, request_text, invalid_response, asserts, execute,
  cancel, dispatch, receive, on_host_name_resolved, on_connection_established, on_request_sent,
  read_status_message, with_status_code, read_status_line, on_status_line_received, HeaderLoop,
  header_loop, header_fuel, start_loop, finish_headers, on_headers_received,
  on_response_body_received, on_finish, unless_failed, unless_cancelled,
}
use boost_asio_study.Stream.{Stream, open_stream, getline, get, extract_word}

-- What a handler does, with its calls on the mutex.
pub data Op : Type 0 where
  lock unlock : Op
  does : Action → Op

-- `on_finish`, which locks nothing.
abbrev finish_ops : ErrorCode → Request → List Op
finish_ops ec r = map does (on_finish ec r).actions

-- `unique_lock`, the test of `m_was_cancelled`, and the operation that is started with the mutex locked;
-- the destructor unlocks it. Before `on_finish` it is unlocked.
pub guarded_ops : Errors → Request → Action → List Op
guarded_ops e r a =
    lock
    ∷ (if r.was_cancelled then unlock ∷ finish_ops e.operation_aborted r else does a ∷ unlock ∷ [])

pub cancel_ops : Option ErrorCode → Request → List Op
cancel_ops sock r = lock ∷ (map does (cancel sock r).actions ++ unlock ∷ [])

pub execute_ops : Errors → Request → List Op
execute_ops e r = if asserts r then guarded_ops e r (resolve r.host (to_string r.port)) else []

abbrev unless_failed_ops : ErrorCode → Request → List Op → List Op
unless_failed_ops ec r next = if failed ec then finish_ops ec r else next

connected_ops : Errors → Request → List Op
connected_ops e r =
    let r' = record r { request_buf = r.request_buf ++ request_text r.uri r.host } in
    guarded_ops e r' (write r'.request_buf)

sent_ops : Errors → ErrorCode → Request → List Op
sent_ops e shutdown_result r =
    does (shutdown shutdown_send)
    ∷ (if failed shutdown_result then [] else guarded_ops e r (read_until crlf))

message_ops : Errors → Request → ℕ → Stream → List Op
message_ops e r status_code response_stream =
    let (status_message, after) = getline b'\r' [] response_stream in
    let r' = record r {
      response = record (r.response) {
        status_code = some status_code;
        status_message = status_message;
        response_buf = (get after).rest;
      };
    } in
    guarded_ops e r' (read_until (crlf ++ crlf))

code_ops : Errors → Request → Stoul → Stream → List Op
code_ops e r (parsed n) response_stream = message_ops e r n response_stream
code_ops e r logic_error response_stream =
    finish_ops (invalid_response e)
      (record r { response = record (r.response) { response_buf = response_stream.rest } })

status_ops : Errors → Request → List Op
status_ops e r =
    let (version, response_stream) = extract_word [] (open_stream r.response.response_buf) in
    let (str_status_code, after) = extract_word [] response_stream in
    if not (bytes_eq version http_version)
    then finish_ops (invalid_response e)
        (record r { response = record (r.response) { response_buf = response_stream.rest } })
    else code_ops e r (stoul str_status_code) after

headers_ops : Errors → Request → Option HeaderLoop → List Op
headers_ops e r none = []
headers_ops e r (some l) =
    let r' = record r {
      response = record (r.response) { headers = l.headers; response_buf = l.response_stream.rest };
    } in
    guarded_ops e r' read_all

-- The handlers, as `dispatch` calls them.
pub handler_ops : Errors → ErrorCode → Handler → Request → Completion → List Op
handler_ops e sr resolved_handler r c = unless_failed_ops c.ec r (guarded_ops e r connect)
handler_ops e sr connected_handler r c = unless_failed_ops c.ec r (connected_ops e r)
handler_ops e sr sent_handler r c = unless_failed_ops c.ec r (sent_ops e sr r)
handler_ops e sr status_handler r c =
    let r' = receive r c.received in unless_failed_ops c.ec r' (status_ops e r')
handler_ops e sr headers_handler r c =
    let r' = receive r c.received in
    let buf = r'.response.response_buf in
    unless_failed_ops c.ec r'
      (headers_ops e r' (header_loop (header_fuel buf) (start_loop buf r'.response.headers)))
handler_ops e sr body_handler r c =
    let r' = receive r c.received in
    if code_eq c.ec e.eof then finish_ops e.success r' else finish_ops c.ec r'

-- Without the calls on the mutex.
pub actions : List Op → List Action
actions [] = []
actions (does a ∷ ops) = a ∷ actions ops
actions (_ ∷ ops) = actions ops

-- The mutex is locked only while it is free, unlocked only while it is locked, free at the end, and free
-- at every call of the callback.
pub lets_go : Bool → List Op → Bool
lets_go held [] = not held
lets_go true (lock ∷ ops) = false
lets_go false (lock ∷ ops) = lets_go true ops
lets_go true (unlock ∷ ops) = lets_go false ops
lets_go false (unlock ∷ ops) = false
lets_go held (does (call_back ec r) ∷ ops) = not held && lets_go held ops
lets_go held (does _ ∷ ops) = lets_go held ops
