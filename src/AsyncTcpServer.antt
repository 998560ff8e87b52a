-- ===== src/AsyncTcpServer.antt =====
-- Chapter-04, Section-03, 04-03-01-async_tcp_server.cpp: `Service`, which reads one line and writes
-- one fixed response, `Acceptor`, and `main` with its `Server`. Each handler gives the operations that
-- it starts, in order.
pub mod Exchange
pub mod Accepts
use boost_asio_study.Asio.{ErrorCode, failed}
use boost_asio_study.Base.{
  Bool, true, false, not, List, [], ◌∷◌, ◌++◌, Option, none, some, Bytes, codes, if◌then◌else◌,
}
use boost_asio_study.PoolServer
use boost_asio_study.PoolServer.{Server, World, Exit}

-- The fields of `Service`, less the socket.
pub record Service : Type 0 where
  pub response : Bytes
  pub request : Bytes

pub data Action : Type 0 where
  read_until : Bytes → Action
  write : Bytes → Action
  log : ErrorCode → Action
  delete_service : Action

pub data Handler : Type 0 where
  received_handler sent_handler : Handler

-- The object behind a call, the operation that is pending, by its handler, and what was done.
pub record Outcome : Type 0 where
  pub service : Service
  pub pending : Option Handler
  pub actions : List Action

abbrev pub new_service : Service
new_service = record { response = []; request = [] }

pub start_handling : Service → Outcome
start_handling s = record {
  service = s;
  pending = some received_handler;
  actions = read_until (codes "\n") ∷ [];
}

-- `onFinish`: `delete this`, and no operation is pending.
pub on_finish : Service → List Action → Outcome
on_finish s before = record { service = s; pending = none; actions = before ++ delete_service ∷ [] }

-- `ProcessRequest`; its counting loop and its sleep leave no trace.
pub process_request : Bytes → Bytes
process_request request = codes "Response\n"

pub on_request_received : ErrorCode → Service → Outcome
on_request_received ec s =
    let response = process_request s.request in
    if failed ec then on_finish s (log ec ∷ []) else record {
      service = record s { response = response };
      pending = some sent_handler;
      actions = write response ∷ [];
    }

pub on_response_sent : ErrorCode → Service → Outcome
on_response_sent ec s = on_finish s (if failed ec then log ec ∷ [] else [])

pub dispatch : Handler → ErrorCode → Service → Outcome
dispatch received_handler ec s = on_request_received ec s
dispatch sent_handler ec s = on_response_sent ec s

-- `Acceptor`, less the service and the socket that listens.
pub record Acceptor : Type 0 where
  pub is_stopped : Bool

pub data AcceptorAction : Type 0 where
  listen async_accept close handle_client : AcceptorAction
  report : ErrorCode → AcceptorAction

abbrev pub new_acceptor : Acceptor
new_acceptor = record { is_stopped = false }

abbrev pub init_accept : List AcceptorAction
init_accept = async_accept ∷ []

unfoldable pub start : List AcceptorAction
start = listen ∷ init_accept

unfoldable pub stop : Acceptor → Acceptor
stop a = record a { is_stopped = true }

unfoldable pub on_accept : ErrorCode → Acceptor → List AcceptorAction
on_accept ec a =
    (if not (failed ec) then handle_client ∷ [] else report ec ∷ [])
    ++ (if not a.is_stopped then init_accept else close ∷ [])

-- `main`, with the port that it opens.
unfoldable pub main : World → Server AcceptorAction × Exit
main w = PoolServer.server_main w start 3333
