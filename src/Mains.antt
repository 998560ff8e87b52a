-- ===== src/Mains.antt =====
-- The `main`s that are sequences of calls, and the functions that they call: Chapter-01, Chapter-02
-- and Chapter-06, Section-03 to Section-05. Most of what is printed is left out.
pub mod Exits
pub mod Faults
mod Tests
use boost_asio_study.Asio.{ErrorCode, Errors, failed, code_eq, Side, shutdown_both, shutdown_send}
use boost_asio_study.Base.{
  Option, some, none, if◌then◌else◌, ◌*◌, ℕ, Bool, true, List, [], ◌∷◌, ◌++◌, Bytes, codes, take,
}
use boost_asio_study.Calls.{
  Protocol, tcp_v4, tcp_v6, udp_v4, udp_v6, Call, from_string, resolve, open_socket, open_acceptor,
  bind, listen, connect, connect_any, accept, handshake, close, ssl_context, ssl_shutdown, write,
  read_exactly, read_until, read_all, send_to, receive_from, shutdown, async_connect, start_thread,
  cancel, join, run, async_write, async_write_some, async_read, async_read_some, Check, returned,
  escapes, ignored, connect_stream, get_option, set_option, until_eof, Program, caught,
}
use boost_asio_study.Decimal.{to_string}
use boost_asio_study.Stream.{open_stream, getline}

abbrev pub local_host : Bytes
local_host = codes "127.0.0.1"

-- 01-01-01-endpoint_client.cpp
abbrev pub endpoint_client : Program
endpoint_client = (from_string local_host, returned) ∷ []

-- 01-01-02-endpoint_server.cpp makes no call that can fail.
abbrev pub endpoint_server : Program
endpoint_server = []

-- 01-02-01-active_socket.cpp
abbrev pub active_socket : Program
active_socket = (open_socket tcp_v4, returned) ∷ []

-- 01-02-02-udp_active_socket_min.cpp
abbrev pub udp_active_socket : Program
udp_active_socket = caught (open_socket udp_v6 ∷ [])

-- 01-03-01-passive_acceptor_socket.cpp
abbrev pub passive_acceptor_socket : Program
passive_acceptor_socket = (open_acceptor tcp_v6, returned) ∷ []

-- 01-04-01-dns_query.cpp, with what it prints of the addresses that are found.
abbrev pub dns_query : Program
dns_query = (resolve (codes "www.naver.com") (codes "80"), returned) ∷ []

print_addresses : List Bytes → Bytes
print_addresses [] = []
print_addresses (address ∷ rest) = address ++ (codes "\n" ++ print_addresses rest)

-- 01-05-01-socket_bind.cpp: no handler for an exception of the acceptor's constructor.
abbrev pub socket_bind : Program
socket_bind = (open_acceptor tcp_v4, escapes) ∷ (bind 80, returned) ∷ []

-- 01-05-02-udp_socket_bind.cpp, likewise
abbrev pub udp_socket_bind : Program
udp_socket_bind = (open_socket udp_v4, escapes) ∷ (bind 80, returned) ∷ []

-- `ep`, `sock` and `sock.connect(ep)`, which many of the programs begin with.
abbrev pub connected : List Call
connected = from_string local_host ∷ open_socket tcp_v4 ∷ connect ∷ []

-- 01-06-01-connect_socket.cpp
abbrev pub connect_socket : Program
connect_socket = caught connected

-- 01-06-02-advance_connect_socket.cpp
abbrev pub advance_connect_socket : Program
advance_connect_socket = caught (resolve (codes "lapio.kr") (codes "80") ∷ connect_any ∷ [])

-- 01-07-01-tcp_listen.cpp
abbrev pub tcp_listen : Program
tcp_listen = caught (open_acceptor tcp_v4 ∷ bind 3333 ∷ listen 30 ∷ accept ∷ [])

-- 02-03-01-sync_write.cpp: the loop of `writeToSocket` as one call, which Transfer takes apart.
abbrev pub sync_write : Program
sync_write = caught (connected ++ write (codes "Hello") ∷ [])

abbrev write_to_socket_enhanced : Bytes → List Call
write_to_socket_enhanced buf = write buf ∷ []

-- 02-04-01-sync_read.cpp, with the loop of `readFromSocket` as one call; and `readFromSocketEnhanced`
-- with the string that it returns of the bytes in its buffer.
abbrev pub sync_read : Program
sync_read = caught (connected ++ read_exactly 7 ∷ [])

read_from_socket_enhanced : Bytes → List Call × Bytes
read_from_socket_enhanced received = (read_exactly 7 ∷ [], take 7 received)

-- 02-05-01-asnyc_write.cpp and 02-05-02: `ios.run()` is not called.
abbrev pub async_write_main : Program
async_write_main = caught (connected ++ async_write_some (codes "Hello") ∷ [])

abbrev pub async_write_enhanced : Program
async_write_enhanced = caught (connected ++ async_write (codes "Hello") ∷ [])

-- 02-06-01-asnyc_read.cpp and 02-06-02
abbrev pub async_read_main : Program
async_read_main = caught (connected ++ async_read_some 7 ∷ run ∷ [])

abbrev pub async_read_enhanced : Program
async_read_enhanced = caught (connected ++ async_read 7 ∷ run ∷ [])

-- The callbacks of 02-05-02 and 02-06-02: the code that is printed, if any.
write_enhanced_callback : ErrorCode → Option ErrorCode
write_enhanced_callback ec = if failed ec then some ec else none

read_enhanced_callback : ErrorCode → Option ErrorCode
read_enhanced_callback ec = if failed ec then some ec else none

-- 02-07-01-cancel_async.cpp: what the handler of the connect prints
data ConnectReport : Type 0 where
  nothing cancelled : ConnectReport
  error : ErrorCode → ConnectReport

connect_handler : Errors → ErrorCode → ConnectReport
connect_handler e ec =
    if failed ec then if code_eq ec e.operation_aborted then cancelled else error ec else nothing

-- Its `main`: an exception of `cancel` destroys the thread, which is not joined yet.
abbrev pub cancel_async : Program
cancel_async =
    caught (from_string local_host ∷ open_socket tcp_v4 ∷ async_connect ∷ start_thread ∷ [])
    ++ (cancel, escapes) ∷ (join, returned) ∷ []

-- 02-08-01-shutdown_client.cpp: `communicate`, and `main`
abbrev communicate : Program
communicate =
    (write (0x48 ∷ 0x65 ∷ 0x0 ∷ 0x6c ∷ 0x6c ∷ 0x6f ∷ []), returned)
    ∷ (shutdown shutdown_send, returned)
    ∷ (read_all, until_eof)
    ∷ []

abbrev pub shutdown_client : Program
shutdown_client = caught connected ++ communicate

-- 02-08-02-shutdown_server.cpp: `processRequest`, and `main`, whose acceptor's constructor opens,
-- binds and listens.
abbrev pub process_request : Program
process_request =
    (read_all, until_eof)
    ∷ (write (0x48 ∷ 0x69 ∷ 0x21 ∷ []), returned)
    ∷ (shutdown shutdown_send, returned)
    ∷ []

abbrev pub shutdown_server : Program
shutdown_server = (bind 3333, returned) ∷ (accept, returned) ∷ process_request

-- 06-03-01-socket_option.cpp, with the receive buffer size that `get_option` gives.
abbrev pub socket_option : ℕ → Program
socket_option cur_buf_size =
    caught (open_socket tcp_v4 ∷ get_option ∷ set_option (cur_buf_size * 2) ∷ [])

-- 06-04-01-stream_io.cpp: the stream is tested once; what fails later leaves no trace but the output.
abbrev pub stream_io : Program
stream_io =
    (connect_stream (codes "localhost") (codes "3333"), returned)
    ∷ (write (codes "Request."), ignored)
    ∷ (read_all, ignored)
    ∷ []

-- 06-05-01-stream_io_timer.cpp, with the five seconds of `expires_from_now`
abbrev pub stream_io_timer : ℕ × Program
stream_io_timer = (5, stream_io)
