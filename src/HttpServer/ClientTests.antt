-- ===== src/HttpServer/ClientTests.antt =====
-- The theorems about the HTTP server with all its clients at concrete runs.
use boost_asio_study.Asio.{Fault, null_write, Completion}
use boost_asio_study.Asio.Sample.{sample, no_error, received}
use boost_asio_study.AsyncServers
use boost_asio_study.AsyncServers.{Event, listens, completes, any_fatal, react, step}
use boost_asio_study.AsyncServers.Http.{
  http_run, http_at, http_start, http_service, clients_answered, file_ends_server, get_served_among,
}
use boost_asio_study.AsyncServers.Independence.{addressed, heard}
use boost_asio_study.Base.{
  ◌≤◌, ◌+◌, ◌⊎◌, List, [], ◌∷◌, ◌++◌, Option, none, some, ◌≡◌, refl, arith, Bytes, codes, bytes_eq,
  length, if◌then◌else◌,
}
use boost_asio_study.HttpAcceptor
use boost_asio_study.HttpAcceptor.{new_acceptor}
use boost_asio_study.HttpAcceptor.Accepts.{counts, listener}
use boost_asio_study.HttpText.{render}
use boost_asio_study.Listener
use boost_asio_study.Listener.{accepted, stops}
use boost_asio_study.Stream.{extract_word, get, getline, break_space, skip_space, is_space}
use boost_asio_study.HttpServer.{
  shutdown_then, check_request_line, read_request_line, error_check, dispatch, start_handling,
  World, deleted, faulted, send_response, on_request_line_received, on_headers_received,
  on_response_sent, write_response, check_version, process_request, send_file, store_file,
  read_file, finish_headers, respond, header_loop, read_header, read_value, response_buffers,
  http_status_table,
}
use boost_asio_study.HttpServer.Lifecycle.{continue}
use boost_asio_study.HttpServer.Responses.{answer_for}
use boost_asio_study.HttpServer.Rounds.{writes}
use boost_asio_study.HttpServer.Serving.{Serves, response_text}

-- A server with one file of two bytes.
abbrev one_file : Bytes → Option Bytes
one_file path = if bytes_eq path (codes "D:\\http_root/page") then some (codes "hi") else none

abbrev page_world : World
page_world = record {
  shutdown_result = λ side. no_error;
  exists = λ path. bytes_eq path (codes "D:\\http_root/page");
  open_file = one_file;
}

abbrev arrives : Bytes → World × Completion
arrives bytes = (page_world, received bytes)

-- The second client asks for the file, between the parts of the request of the first.
abbrev interleaved : List (Event (World × Completion))
interleaved =
    listens (accepted no_error)
    ∷ listens (accepted no_error)
    ∷ completes 0 (arrives (codes "GET /none HTTP/1.1\r\n"))
    ∷ completes 1 (arrives (codes "GET /page HTTP/1.1\r\n"))
    ∷ completes 0 (arrives (codes "\r\n"))
    ∷ []

abbrev served_first : List (Event (World × Completion))
served_first = interleaved ++ completes 0 (arrives []) ∷ []

abbrev ended_by_second : List (Event (World × Completion))
ended_by_second = interleaved ++ completes 1 (arrives (codes "\r\n")) ∷ []

own_first :
    addressed listener (http_service sample) 0 served_first (http_start sample)
    ≡ arrives (codes "GET /none HTTP/1.1\r\n") ∷ arrives (codes "\r\n") ∷ arrives [] ∷ []
unfolding AsyncServers.run step react any_fatal addressed counts Listener.started_by Listener.step
    HttpAcceptor.on_accept HttpAcceptor.start continue start_handling dispatch
    on_request_line_received error_check read_request_line check_request_line check_version getline
    get extract_word skip_space is_space break_space bytes_eq send_response shutdown_then
    write_response on_headers_received finish_headers header_loop read_header read_value
    process_request send_file store_file read_file respond response_buffers http_status_table
    on_response_sent
own_first = refl

own_second :
    addressed listener (http_service sample) 1 ended_by_second (http_start sample)
    ≡ arrives (codes "GET /page HTTP/1.1\r\n") ∷ arrives (codes "\r\n") ∷ []
unfolding AsyncServers.run step react any_fatal addressed counts Listener.started_by Listener.step
    HttpAcceptor.on_accept HttpAcceptor.start continue start_handling dispatch
    on_request_line_received error_check read_request_line check_request_line check_version getline
    get extract_word skip_space is_space break_space bytes_eq send_response shutdown_then
    write_response on_headers_received finish_headers header_loop read_header read_value
    process_request send_file store_file read_file respond response_buffers http_status_table
    on_response_sent
own_second = refl

clients_answered_example :
    let x = http_run sample served_first in
    let o = http_at sample served_first 0 in
    (length x.services
      ≡ Listener.connections listener
          (heard listener (http_service sample) served_first (http_start sample))
          (Listener.started listener new_acceptor))
    × (x.listening.pending + (counts x.listening.actions).closes ≡ 1)
    × (writes o.actions ≤ 1)
    × ((o.exit ≡ deleted) ⊎ ((f : Fault) × (o.exit ≡ faulted f)))
clients_answered_example = clients_answered sample served_first 0 (rw own_first (omega arith))

file_ends_server_example :
    ((http_at sample ended_by_second 1).exit ≡ faulted null_write)
    × (http_run sample (ended_by_second ++ completes 0 (arrives []) ∷ [])
        ≡ http_run sample ended_by_second)
unfolding bytes_eq is_space render answer_for
file_ends_server_example =
    file_ends_server sample page_world b'/' (codes "page") [] []
      (received (codes "GET /page HTTP/1.1\r\n")) (received (codes "\r\n")) ended_by_second
      (completes 0 (arrives []) ∷ []) 1 refl (refl, (refl, (refl, (refl, (refl, tt))))) tt refl refl
      refl refl own_second

get_served_among_example :
    Serves (some (codes "HTTP/1.1404 Not Found\r\n\r\n")) (http_at sample served_first 0)
unfolding response_text answer_for bytes_eq render is_space
get_served_among_example =
    get_served_among sample page_world b'/' (codes "none") [] []
      (codes "HTTP/1.1404 Not Found\r\n\r\n") (received (codes "GET /none HTTP/1.1\r\n"))
      (received (codes "\r\n")) (received []) served_first 0 refl
      (refl, (refl, (refl, (refl, (refl, tt))))) tt refl refl refl refl refl refl refl own_first
