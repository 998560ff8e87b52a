-- ===== src/HttpAcceptor.antt =====
-- Chapter-05, Section-02, 05-02-01-http_server.cpp: `Acceptor`, and `main` with
-- its `Server`. Each method gives the operations that it starts, in order.
pub mod Accepts
use boost_asio_study.PoolServer
use boost_asio_study.PoolServer.{Server, World, Exit}
use boost_asio_study.Asio.{ErrorCode, failed}
use boost_asio_study.Base.{Bool, true, false, not, List, [], ◌∷◌, ◌++◌, if◌then◌else◌}

-- `Acceptor`, less the service and the socket that listens.
pub record Acceptor : Type 0 where
  pub is_stopped : Bool

pub data Action : Type 0 where
  listen async_accept close start_service : Action
  log : ErrorCode → Action

abbrev pub new_acceptor : Acceptor
new_acceptor = record { is_stopped = false }

abbrev pub init_accept : List Action
init_accept = async_accept ∷ []

unfoldable pub start : List Action
start = listen ∷ init_accept

unfoldable pub stop : Acceptor → Acceptor
stop a = record a { is_stopped = true }

unfoldable pub on_accept : ErrorCode → Acceptor → List Action
on_accept ec a =
    (if failed ec then log ec ∷ [] else start_service ∷ [])
    ++ (if not a.is_stopped then init_accept else close ∷ [])

-- `main`, with the port that it opens.
unfoldable pub main : World → Server Action × Exit
main w = PoolServer.server_main w start 3333
