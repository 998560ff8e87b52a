-- ===== src/SyncClients/Udp.antt =====
-- 03-02-01-sync_udp_client.cpp: `SyncUDPClient` and `main`.
use boost_asio_study.Asio.{shutdown_both}
use boost_asio_study.Base.{ℕ, List, [], ◌∷◌, ◌++◌, Bytes, codes, take}
use boost_asio_study.Calls.{
  udp_v4, Call, from_string, open_socket, send_to, receive_from, shutdown, Program, caught,
}
use boost_asio_study.Decimal.{to_string}

-- `SyncUDPClient()`
abbrev pub new_client : List Call
new_client = open_socket udp_v4 ∷ []

abbrev pub send_request : Bytes → List Call
send_request request = send_to request ∷ []

-- `receiveResponse`: its calls, and the string that it returns of the first bytes of the datagram.
abbrev receive_calls : List Call
receive_calls = receive_from 6 ∷ shutdown shutdown_both ∷ []

pub receive_response : Bytes → Bytes
receive_response datagram = take 6 datagram

pub request_text : ℕ → Bytes
request_text duration_sec = codes "EMULATE_LONG_COMP_OP " ++ (to_string duration_sec ++ codes "\n")

abbrev pub emulate_long_computation_op : ℕ → Bytes → List Call
emulate_long_computation_op duration_sec raw_ip =
    from_string raw_ip ∷ (send_request (request_text duration_sec) ++ receive_calls)

abbrev pub main : Program
main = caught (
    new_client
    ++ (emulate_long_computation_op 10 (codes "127.0.0.1")
        ++ emulate_long_computation_op 10 (codes "192.168.1.101")))
