-- ===== src/HttpServer/Tests.antt =====
-- Runs of `Service` on concrete requests, and the theorems at concrete inputs.
use boost_asio_study.Asio.{Fault, null_write, out_of_range, endless_loop, Completion}
use boost_asio_study.Asio.Sample.{sample, no_error, connection_reset, received}
use boost_asio_study.Base.{
  arith, ◌≤◌, true, false, List, [], ◌∷◌, Option, none, some, ◌≡◌, ◌≢◌, refl, Bytes, codes,
  bytes_eq, if◌then◌else◌,
}
use boost_asio_study.HttpText.{Field, assign_all}
use boost_asio_study.Stream.{extract_word, get, getline, break_space, skip_space, is_space}
use boost_asio_study.HttpServer.{
  finish_headers, header_loop, read_header, read_value, respond, process_request, send_file,
  store_file, read_file, shutdown_then, check_request_line, read_request_line, error_check,
  dispatch, start_handling, Service, new_service, World, faulted, stop, send_response,
  on_request_line_received, on_headers_received,
}
use boost_asio_study.HttpServer.AnyBlock.{any_block_answer}
use boost_asio_study.HttpServer.Grammar.{HasFields}
use boost_asio_study.HttpServer.Lifecycle.{continue, run, started, service_writes, service_faults}
use boost_asio_study.HttpServer.Rounds.{writes}
use boost_asio_study.HttpServer.AnyLine.{any_line_answer}
use boost_asio_study.Stream.Words.{words_of}
use boost_asio_study.HttpServer.Responses.{answered, answer_for}

-- A server with one empty file and one file of two bytes.
abbrev sample_files : Bytes → Option Bytes
sample_files path =
    if bytes_eq path (codes "D:\\http_root/empty")
    then some []
    else if bytes_eq path (codes "D:\\http_root/page")
    then some (codes "hi")
    else none

abbrev sample_world : World
sample_world = record {
  shutdown_result = λ side. no_error;
  exists = λ path. elim (sample_files path) [ none ↦ false | some content ↦ true ];
  open_file = sample_files;
}

abbrev with_request : Bytes → Service
with_request bytes = record new_service { request = bytes }

abbrev page : Service
page = record (with_request (codes "Host: a\r\n\r\n")) { requested_resource = codes "/page" }

abbrev events : Bytes → List (World × Completion)
events line =
    (sample_world, received line)
    ∷ (sample_world, received (codes "Host: a\r\n\r\n"))
    ∷ (sample_world, received [])
    ∷ []

service_writes_example :
    writes (run sample started (events (codes "GET /x HTTP/1.1\r\n"))).actions ≤ 1
service_writes_example = service_writes sample (events (codes "GET /x HTTP/1.1\r\n"))

abbrev abandoned : World
abandoned = record sample_world { shutdown_result = λ side. connection_reset }

-- A connection that is gone makes `shutdown` throw.
reset_faults :
    (run sample started ((abandoned, received (codes "PUT / HTTP/1.1\r\n")) ∷ [])).exit
    ≡ faulted (Fault.system_error connection_reset)
unfolding run continue start_handling dispatch on_request_line_received error_check
    read_request_line check_request_line getline get extract_word skip_space is_space break_space
    bytes_eq send_response shutdown_then
reset_faults = refl

service_faults_example :
    (Fault.system_error connection_reset ≢ out_of_range)
    × (Fault.system_error connection_reset ≢ endless_loop)
service_faults_example =
    service_faults sample ((abandoned, received (codes "PUT / HTTP/1.1\r\n")) ∷ [])
      (Fault.system_error connection_reset) reset_faults

-- Two blanks, and no version.
any_line_answer_example :
    on_request_line_received sample sample_world no_error (with_request (codes "GET  /x\r\nHost"))
    ≡ send_response sample_world (record new_service {
      request = codes "Host";
      requested_resource = codes "/x";
      response_status_code = 505;
    })
unfolding bytes_eq is_space words_of
any_line_answer_example =
    any_line_answer sample sample_world no_error (with_request (codes "GET  /x\r\nHost"))
      (codes "GET  /x") b'\n' (codes "Host") refl
      (
        (λ q. omega arith),
        (
          (λ q. omega arith),
          (
            (λ q. omega arith),
            (
              (λ q. omega arith),
              ((λ q. omega arith), ((λ q. omega arith), ((λ q. omega arith), tt))),
            ),
          ),
        ),
      )
      refl

-- A block with a stray byte behind a carriage return, and a value that is cut off.
abbrev broken : Service
broken = record (with_request (codes "Host: a\rxRange")) { requested_resource = codes "/page" }

any_block_answer_example :
    (fs : List Field) × HasFields (codes "Host: a\rxRange") fs
    × (on_headers_received sample sample_world no_error broken
        ≡ answered sample_world
            (record broken { request = []; request_headers = assign_all fs [] })
            (answer_for sample_world (codes "D:\\http_root/page")))
any_block_answer_example = any_block_answer sample sample_world no_error broken refl refl

-- What is stored of that block, and what comes of it: `page` has content.
broken_stored : on_headers_received sample sample_world no_error broken ≡ stop (faulted null_write)
unfolding on_headers_received finish_headers header_loop read_header read_value getline get respond
    process_request send_file store_file read_file bytes_eq error_check
broken_stored = refl
