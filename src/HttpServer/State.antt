-- ===== src/HttpServer/State.antt =====
-- The state of a `Service`, and what its handlers find and do.
use boost_asio_study.Asio.{ErrorCode, Side, Fault}
use boost_asio_study.Base.{
  ℕ, Bool, List, [], ◌∷◌, Option, none, some, Bytes, codes, ◌==◌, if◌then◌else◌,
}
use boost_asio_study.Dict.{Dict}

-- The fields of `Service`, less the socket. `resource_buffer` is the `unique_ptr<char[]>`.
pub record Service : Type 0 where
  pub request : Bytes
  pub request_headers : Dict
  pub requested_resource : Bytes
  pub resource_buffer : Option Bytes
  pub response_status_code : ℕ
  pub resource_size_bytes : ℕ
  pub response_headers : Bytes
  pub response_status_line : Bytes

-- The object as its constructor leaves it.
abbrev pub new_service : Service
new_service = record {
  request = [];
  request_headers = [];
  requested_resource = [];
  resource_buffer = none;
  response_status_code = 200;
  resource_size_bytes = 0;
  response_headers = [];
  response_status_line = [];
}

-- What the handlers find outside the object: the result of `m_sock->shutdown`, which throws if it
-- is an error, `boost::filesystem::exists`, and the content of a file that can be opened.
pub record World : Type 0 where
  pub shutdown_result : Side → ErrorCode
  pub exists : Bytes → Bool
  pub open_file : Bytes → Option Bytes

-- The operations that the handlers start, and the lines that they print for an error.
pub data Action : Type 0 where
  read_until : Bytes → Action
  shutdown : Side → Action
  write : List Bytes → Action
  log : ErrorCode → Action

-- The handler that the pending operation calls.
pub data Handler : Type 0 where
  request_line_handler headers_handler sent_handler : Handler

-- A handler leaves one operation pending, deletes the object, or ends in a fault.
pub data Exit : Type 0 where
  awaits : Handler → Service → Exit
  deleted : Exit
  faulted : Fault → Exit

pub record Outcome : Type 0 where
  pub actions : List Action
  pub exit : Exit

abbrev pub act : Action → Outcome → Outcome
act a o = record { actions = a ∷ o.actions; exit = o.exit }

abbrev pub stop : Exit → Outcome
stop e = record { actions = []; exit = e }

abbrev pub crlf : Bytes
crlf = b'\r' ∷ b'\n' ∷ []

abbrev pub get_method : Bytes
get_method = codes "GET"

abbrev pub http_version : Bytes
http_version = codes "HTTP/1.1"

abbrev pub root : Bytes
root = codes "D:\\http_root"

-- `http_status_table.at(code)`; `none` is the exception.
unfoldable pub http_status_table : ℕ → Option Bytes
http_status_table code =
    if code == 200
    then some (codes "200 OK")
    else if code == 404
    then some (codes "404 Not Found")
    else if code == 413
    then some (codes "413 Request Entity Too Large")
    else if code == 500
    then some (codes "500 Server Error")
    else if code == 501
    then some (codes "501 Not Implemented")
    else if code == 505
    then some (codes "505 HTTP Version Not Supported")
    else none
