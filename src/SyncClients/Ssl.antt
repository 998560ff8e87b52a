-- ===== src/SyncClients/Ssl.antt =====
-- 05-03-01-ssl_sync_tcp_client.cpp: `SyncSSLClient` and `main`.
use boost_asio_study.Asio.{shutdown_both}
use boost_asio_study.Base.{ℕ, Bool, true, List, [], ◌∷◌, ◌++◌, Bytes, codes}
use boost_asio_study.Calls.{
  Call, from_string, ssl_context, set_verify_mode, set_verify_callback, handshake, ssl_shutdown,
  shutdown, write, read_until, ignored, Program, caught,
}
use boost_asio_study.Decimal.{to_string}
use boost_asio_study.Stream.{open_stream, getline}

-- `SyncSSLClient(raw_ip, port)`
abbrev pub new_client : Bytes → List Call
new_client raw_ip = from_string raw_ip ∷ ssl_context ∷ set_verify_mode ∷ set_verify_callback ∷ []

-- `on_peer_verify`
on_peer_verify : Bool → Bool
on_peer_verify preverified = true

abbrev pub connect : List Call
connect = Call.connect ∷ handshake ∷ []

-- `close` gives each call an `error_code`, which it does not test.
abbrev pub close : Program
close = (ssl_shutdown, ignored) ∷ (shutdown shutdown_both, ignored) ∷ (Call.close, ignored) ∷ []

unfoldable pub request_text : ℕ → Bytes
request_text duration_sec = codes "EMULATE_LONG_COMP_OP " ++ (to_string duration_sec ++ codes "\n")

abbrev pub send_request : Bytes → List Call
send_request request = write request ∷ []

-- `receiveResponse`: its call, and the string that it returns of what the buffer then holds.
abbrev pub receive_call : List Call
receive_call = read_until (codes "\n") ∷ []

unfoldable pub receive_response : Bytes → Bytes
receive_response buf = (getline b'\n' [] (open_stream buf)).0

abbrev pub emulate_long_computation_op : ℕ → List Call
emulate_long_computation_op duration_sec = send_request (request_text duration_sec) ++ receive_call

abbrev pub main : Program
main =
    caught (new_client (codes "127.0.0.1") ++ (connect ++ emulate_long_computation_op 10)) ++ close
