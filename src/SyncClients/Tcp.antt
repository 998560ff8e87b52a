-- ===== src/SyncClients/Tcp.antt =====
-- 03-01-01-sync_tcp_client.cpp: `SyncTCPClient` and `main`.
use boost_asio_study.Asio.{shutdown_both}
use boost_asio_study.Base.{ℕ, List, [], ◌∷◌, ◌++◌, Bytes, codes}
use boost_asio_study.Calls.{
  tcp_v4, Call, from_string, open_socket, write, read_until, shutdown, Program, caught,
}
use boost_asio_study.Decimal.{to_string}
use boost_asio_study.Stream.{open_stream, getline}

-- `SyncTCPClient(raw_ip, port)`
abbrev pub new_client : Bytes → List Call
new_client raw_ip = from_string raw_ip ∷ open_socket tcp_v4 ∷ []

abbrev pub connect : List Call
connect = Call.connect ∷ []

abbrev pub close : List Call
close = shutdown shutdown_both ∷ Call.close ∷ []

unfoldable pub request_text : ℕ → Bytes
request_text duration_sec = codes "EMULATE_LONG_COMP_OP " ++ (to_string duration_sec ++ codes "\n")

abbrev pub send_request : Bytes → List Call
send_request request = write request ∷ []

-- `receiveResponse`: its call, and the string that it returns of what the buffer then holds.
abbrev pub receive_call : List Call
receive_call = read_until (codes "\n") ∷ []

unfoldable pub receive_response : Bytes → Bytes
receive_response buf = (getline b'\n' [] (open_stream buf)).0

abbrev pub emulate_long_computation_op : ℕ → List Call
emulate_long_computation_op duration_sec = send_request (request_text duration_sec) ++ receive_call

abbrev pub main : Program
main =
    caught
      (new_client (codes "127.0.0.1") ++ (connect ++ (emulate_long_computation_op 10 ++ close)))
