-- ===== src/AsyncTcpClient.antt =====
-- Chapter-03, Section-03, 03-03-01-multi_thread_async_tcp_client.cpp: `Session`, `AsyncTCPClient`, the
-- callback `handler` and `main`. A session is shared by its handlers and by `m_active_sessions`: the
-- client keeps all sessions in a list, and a position in it stands for the shared pointer.
pub mod Locks
pub mod Deadlock
pub mod LockOrder
pub mod LockProgress
pub mod Runs
pub mod Results
pub mod Callbacks
pub mod Aborts
pub mod Accesses
pub mod Registry
pub mod DistinctIds
pub mod CancelRequest
pub mod Program
pub mod MainRuns
mod Tests
use boost_asio_study.Asio.{ErrorCode, Errors, failed, code_eq, Completion}
use boost_asio_study.Base.{
  ℕ, Bool, true, false, not, ◌&&◌, List, [], ◌∷◌, ◌++◌, Option, none, some, Bytes, codes, map,
  length, get_elem?, set, if◌then◌else◌,
}
use boost_asio_study.Decimal.{to_string, int_to_string}
use boost_asio_study.IdMap.{IdMap, find_id, assign_id, erase_id}
use boost_asio_study.Stream.{open_stream, getline}

-- The fields of `Session`, less the socket, the endpoint, the callback and the mutex.
pub record Session : Type 0 where
  pub request : Bytes
  pub response_buf : Bytes
  pub response : Bytes
  pub ec : ErrorCode
  pub id : ℕ
  pub was_cancelled : Bool

-- The handlers, by the operation whose completion calls them.
pub data Handler : Type 0 where
  connected_handler written_handler read_handler : Handler

pub data Action : Type 0 where
  open_socket connect cancel_socket shutdown_both : Action
  write : Bytes → Action
  read_until : Bytes → Action
  erase : ℕ → Action  -- `m_active_sessions.erase`
  call_back : ℕ → Bytes → ErrorCode → Action

-- A session, the operation that is pending for it, if any, and what a call did, in order.
pub record Outcome : Type 0 where
  pub session : Session
  pub pending : Option Handler
  pub actions : List Action

-- `"EMULATE_LONG_CALC_OP " + std::to_string(duration_sec) + "\n"`
unfoldable pub request_text : ℕ → Bytes
request_text duration_sec = codes "EMULATE_LONG_CALC_OP " ++ (to_string duration_sec ++ codes "\n")

unfoldable pub new_session : Errors → Bytes → ℕ → Session
new_session e request request_id = record {
  request = request;
  response_buf = [];
  response = [];
  ec = e.success;
  id = request_id;
  was_cancelled = false;
}

unfoldable pub on_request_complete : Errors → Session → Outcome
on_request_complete e s =
    let ec = if not (failed s.ec) && s.was_cancelled then e.operation_aborted else s.ec in
    record {
      session = s;
      pending = none;
      actions = shutdown_both ∷ erase s.id ∷ call_back s.id s.response ec ∷ [];
    }

-- The test of the error code and of `m_was_cancelled`, in front of the next operation.
unfoldable pub unless_done : Errors → ErrorCode → Session → Action → Handler → Outcome
unless_done e ec s next handler =
    if failed ec
    then on_request_complete e (record s { ec = ec })
    else if s.was_cancelled
    then on_request_complete e s
    else record { session = s; pending = some handler; actions = next ∷ [] }

unfoldable pub on_connected : Errors → ErrorCode → Session → Outcome
on_connected e ec s = unless_done e ec s (write s.request) written_handler

unfoldable pub on_written : Errors → ErrorCode → Session → Outcome
on_written e ec s = unless_done e ec s (read_until (codes "\n")) read_handler

unfoldable pub on_read : Errors → ErrorCode → Session → Outcome
on_read e ec s =
    let response = (getline b'\n' s.response (open_stream s.response_buf)).0 in
    if failed ec
    then on_request_complete e (record s { ec = ec })
    else on_request_complete e (record s { response = response })

-- The pending operation completes; a read has put what it received behind the buffer.
unfoldable pub dispatch : Errors → Handler → Completion → Session → Outcome
dispatch e connected_handler c s = on_connected e c.ec s
dispatch e written_handler c s = on_written e c.ec s
dispatch e read_handler c s =
    on_read e c.ec (record s { response_buf = s.response_buf ++ c.received })

-- A session with its pending operation.
pub record Running : Type 0 where
  pub session : Session
  pub pending : Option Handler

-- `m_active_sessions` has the position of a session under its id.
pub record Client : Type 0 where
  pub sessions : List Running
  pub active : IdMap

-- What was done, and for the session at which position.
abbrev pub Trace : Type 0
Trace = List (ℕ × Action)

abbrev pub tag : ℕ → List Action → Trace
tag i = map (λ a. (i, a))

-- The client after a call, what the call did, and the exception that left it, if any.
pub record Result : Type 0 where
  pub client : Client
  pub trace : Trace
  pub thrown : Option ErrorCode

abbrev pub new_client : Client
new_client = record { sessions = []; active = [] }

-- The first argument after the error codes is what `from_string` or `open` throws, or no error.
unfoldable pub emulate_long_computation_op : Errors → ErrorCode → ℕ → ℕ → Client → Result
emulate_long_computation_op e opened duration_sec request_id c =
    let session = new_session e (request_text duration_sec) request_id in
    let i = length c.sessions in
    if failed opened then record { client = c; trace = []; thrown = some opened } else record {
      client = record {
        sessions =
            c.sessions ++ record { session = session; pending = some connected_handler } ∷ [];
        active = assign_id request_id i c.active;
      };
      trace = tag i (open_socket ∷ connect ∷ []);
      thrown = none;
    }

-- `m_sock.cancel()` returns or throws the code.
unfoldable pub cancel_session : ErrorCode → ℕ → Option Running → Client → Result
cancel_session cancelled i none c = record { client = c; trace = []; thrown = none }
cancel_session cancelled i (some r) c =
    let session = record (r.session) { was_cancelled = true } in
    record {
      client = record c { sessions = set c.sessions i (record r { session = session }) };
      trace = tag i (cancel_socket ∷ []);
      thrown = if failed cancelled then some cancelled else none;
    }

unfoldable pub cancel_found : ErrorCode → Option ℕ → Client → Result
cancel_found cancelled none c = record { client = c; trace = []; thrown = none }
cancel_found cancelled (some i) c = cancel_session cancelled i (get_elem? c.sessions i) c

unfoldable pub cancel_request : ErrorCode → ℕ → Client → Result
cancel_request cancelled request_id c = cancel_found cancelled (find_id request_id c.active) c

-- What the actions of a handler do to `m_active_sessions`.
unfoldable pub erase_all : List Action → IdMap → IdMap
erase_all [] m = m
erase_all (erase k ∷ rest) m = erase_all rest (erase_id k m)
erase_all (_ ∷ rest) m = erase_all rest m

unfoldable pub store : ℕ → Outcome → Client → Result
store i o c = record {
  client = record {
    sessions = set c.sessions i (record { session = o.session; pending = o.pending });
    active = erase_all o.actions c.active;
  };
  trace = tag i o.actions;
  thrown = none;
}

-- With nothing pending for the session nothing can complete.
unfoldable pub complete_pending :
    Errors → ℕ → Option Handler → Completion → Session → Client → Result
complete_pending e i none completion s c = record { client = c; trace = []; thrown = none }
complete_pending e i (some h) completion s c = store i (dispatch e h completion s) c

unfoldable pub complete_at : Errors → ℕ → Option Running → Completion → Client → Result
complete_at e i none completion c = record { client = c; trace = []; thrown = none }
complete_at e i (some r) completion c = complete_pending e i r.pending completion r.session c

unfoldable pub complete : Errors → ℕ → Completion → Client → Result
complete e i completion c = complete_at e i (get_elem? c.sessions i) completion c

-- The callback `handler`: what it prints. `ec.message()` is an argument.
pub handler : Errors → (ErrorCode → Bytes) → ℕ → Bytes → ErrorCode → Bytes
handler e message request_id response ec =
    let start = codes "Request #" ++ to_string request_id in
    if not (failed ec)
    then start ++ (codes " has completed.\nResponse : " ++ (response ++ codes "\n"))
    else if code_eq ec e.operation_aborted
    then start ++ codes " has been cancelled by the user.\n"
    else start
      ++ (codes " failed!\nError code : "
          ++ (int_to_string ec.value ++ (codes ", Message : " ++ message ec)))
