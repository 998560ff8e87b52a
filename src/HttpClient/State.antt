-- ===== src/HttpClient/State.antt =====
-- The state of an `HTTPRequest`, and what its handlers do.
use boost_asio_study.Asio.{ErrorCode, Errors, Side, Fault}
use boost_asio_study.Base.{
  ℕ, Bool, false, ◌&&◌, List, [], ◌∷◌, Option, none, Bytes, codes, ltb, if◌then◌else◌,
}
use boost_asio_study.Dict.{Dict}

-- `http_errors::make_error_code(invalid_response)`
abbrev pub invalid_response : Errors → ErrorCode
invalid_response e = record { value = 1; category = e.http_category }

-- `http_errors_category::message`
http_error_message : ℕ → Bytes
http_error_message value =
    if ltb 0 value && ltb value 2
    then codes "Server response cannot be parsed."
    else codes "Unknown error."

-- `HTTPResponse`; the constructor leaves the status code indeterminate.
pub record Response : Type 0 where
  pub status_code : Option ℕ
  pub status_message : Bytes
  pub headers : Dict
  pub response_buf : Bytes

-- `HTTPRequest`, less the socket, the resolver and the mutex; `callback` says whether one is set.
pub record Request : Type 0 where
  pub host : Bytes
  pub port : ℕ
  pub uri : Bytes
  pub id : ℕ
  pub callback : Bool
  pub request_buf : Bytes
  pub response : Response
  pub was_cancelled : Bool

abbrev default_port : ℕ
default_port = 80

abbrev new_response : Response
new_response = record { status_code = none; status_message = []; headers = []; response_buf = [] }

-- `HTTPClient::create_request`
abbrev pub create_request : ℕ → Request
create_request id = record {
  host = [];
  port = default_port;
  uri = [];
  id = id;
  callback = false;
  request_buf = [];
  response = new_response;
  was_cancelled = false;
}

pub data Action : Type 0 where
  resolve : Bytes → Bytes → Action  -- host, service
  connect : Action
  write : Bytes → Action
  shutdown : Side → Action
  read_until : Bytes → Action
  read_all : Action
  log : ErrorCode → Action
  call_back : ErrorCode → Request → Action
  cancel_resolver cancel_socket : Action

-- The handler that the pending operation calls.
pub data Handler : Type 0 where
  resolved_handler connected_handler sent_handler status_handler : Handler
  headers_handler body_handler : Handler

pub data Exit : Type 0 where
  awaits : Handler → Request → Exit
  finished : Exit
  faulted : Fault → Exit

pub record Outcome : Type 0 where
  pub actions : List Action
  pub exit : Exit

abbrev pub act : Action → Outcome → Outcome
act a o = record { actions = a ∷ o.actions; exit = o.exit }

abbrev pub stop : Exit → Outcome
stop x = record { actions = []; exit = x }

abbrev pub crlf : Bytes
crlf = b'\r' ∷ b'\n' ∷ []

abbrev pub http_version : Bytes
http_version = codes "HTTP/1.1"
