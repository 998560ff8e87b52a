-- ===== src/HttpServer/Requests.antt =====
-- What `on_request_line_received` makes of a request line.
use boost_asio_study.Asio.{ErrorCode, Errors}
use boost_asio_study.Base.{
  ℕ, not, [], ◌∷◌, ◌++◌, none, ◌≡◌, refl, arith, Bytes, Lacks, Lacks-append, bytes_eq,
  if◌then◌else◌,
}
use boost_asio_study.HttpServer.{
  Service, World, read_until, headers_handler, awaits, act, stop, crlf, get_method, http_version,
  send_response, error_check, check_version, check_request_line, read_request_line,
  on_request_line_received,
}
use boost_asio_study.Stream.{is_space}
use boost_asio_study.Stream.Laws.{
  blank, IsWord, IsWord-Lacks, getline_found, extract_word_found, extract_word_space,
  extract_word_last, get_next,
}

-- Three words with a blank between them.
abbrev pub words : Bytes → Bytes → Bytes → Bytes
words method resource version = method ++ b' ' ∷ (resource ++ b' ' ∷ version)

words-Lacks :
    (method resource version : Bytes)
    → IsWord method
    → IsWord resource
    → IsWord version
    → Lacks b'\r' (words method resource version)
unfolding is_space
words-Lacks method resource version hm hr hv =
    Lacks-append b'\r' method _ (IsWord-Lacks b'\r' method refl hm) (
      (λ e. omega arith),
      Lacks-append b'\r' resource _ (IsWord-Lacks b'\r' resource refl hr)
          ((λ e. omega arith), IsWord-Lacks b'\r' version refl hv),
    )

pub error_check-none :
    (e : Errors) (w : World) (ec : ErrorCode) (s : Service)
    → ec.value ≡ 0
    → error_check e w ec s ≡ none
unfolding error_check
error_check-none e w ec s h = ground arith

check_request_line-words :
    (w : World) (s : Service) (m r v : ℕ) (ms rs vs : Bytes)
    → IsWord (m ∷ ms)
    → IsWord (r ∷ rs)
    → IsWord (v ∷ vs)
    → check_request_line w s (words (m ∷ ms) (r ∷ rs) (v ∷ vs)) ≡ (
        if not (bytes_eq (m ∷ ms) get_method)
        then send_response w (record s { response_status_code = 501 })
        else check_version w (record s { requested_resource = r ∷ rs }) (v ∷ vs))
unfolding check_request_line
check_request_line-words w s m r v ms rs vs hm hr hv = rw (
  extract_word_found [] m ms (r ∷ (rs ++ b' ' ∷ v ∷ vs)) b' ' hm blank,
  extract_word_space s.requested_resource b' ' (r ∷ (rs ++ b' ' ∷ v ∷ vs)) blank,
  extract_word_found s.requested_resource r rs (v ∷ vs) b' ' hr blank,
  extract_word_space [] b' ' (v ∷ vs) blank,
  extract_word_last [] v vs hv,
)

-- A request line `METHOD RESOURCE VERSION` that arrives with no error: a method but GET is answered
-- by 501, a version but HTTP/1.1 by 505; otherwise the service stores the resource and waits for
-- the header fields. In each case `m_request` keeps exactly what follows the request line.
pub request_line_answer :
    (e : Errors) (w : World) (ec : ErrorCode) (s : Service) (m r v : ℕ) (ms rs vs rest : Bytes)
    → ec.value ≡ 0
    → IsWord (m ∷ ms)
    → IsWord (r ∷ rs)
    → IsWord (v ∷ vs)
    → s.request ≡ words (m ∷ ms) (r ∷ rs) (v ∷ vs) ++ b'\r' ∷ b'\n' ∷ rest
    → let s' = record s { request = rest; requested_resource = r ∷ rs } in
      on_request_line_received e w ec s ≡ (
        if not (bytes_eq (m ∷ ms) get_method)
        then send_response w (record s { request = rest; response_status_code = 501 })
        else if not (bytes_eq (v ∷ vs) http_version)
        then send_response w (record s' { response_status_code = 505 })
        else act (read_until (crlf ++ crlf)) (stop (awaits headers_handler s')))
unfolding on_request_line_received read_request_line check_version
request_line_answer e w ec s m r v ms rs vs rest h hm hr hv line = rw (
  error_check-none e w ec s h,
  line,
  getline_found b'\r' [] (words (m ∷ ms) (r ∷ rs) (v ∷ vs)) (b'\n' ∷ rest)
      (words-Lacks (m ∷ ms) (r ∷ rs) (v ∷ vs) hm hr hv),
  get_next b'\n' rest,
  check_request_line-words w _ m r v ms rs vs hm hr hv,
)
