-- ===== src/HttpInterop.antt =====
-- The HTTP server of Chapter-05, Section-02 and the HTTP client of Section-01 together: what the
-- client makes of the bytes that the server sends.
mod Tests
pub mod Exchange
use boost_asio_study.Asio.{ErrorCode, Errors, shutdown_receive}
use boost_asio_study.Base.{
  ℕ, true, List, [], ◌∷◌, ◌++◌, some, ◌≡◌, ◌≢◌, refl, ◌∙◌, ap, arith, Bytes, codes, append_assoc,
  All,
}
use boost_asio_study.HttpClient
use boost_asio_study.HttpClient.{Request, invalid_response, on_status_line_received}
use boost_asio_study.HttpClient.Status.{wrong_version, version_IsWord}
use boost_asio_study.HttpServer
use boost_asio_study.HttpServer.{Service, World, http_status_table, send_response}
use boost_asio_study.HttpServer.Responses.{concat, send_response_bytes, IsStatusText, table_text}
use boost_asio_study.Stream.Laws.{IsWord, blank}

IsWord-append : (xs ys : Bytes) → IsWord xs → IsWord ys → IsWord (xs ++ ys)
IsWord-append [] ys hx hy = hy
IsWord-append (x ∷ xs) ys hx hy = (hx.0, IsWord-append xs ys hx.1 hy)

abbrev sent_bytes : Bytes → Bytes → Bytes
sent_bytes text headers =
    (HttpServer.http_version ++ (text ++ HttpServer.crlf)) ++ (headers ++ HttpServer.crlf)

-- What `send_response` writes, for whatever status and header fields, while no resource is loaded and
-- the shutdown succeeds: when a request of the HTTP client has received exactly these bytes, with no
-- error, it finishes with `invalid_response`, since the status line lacks the blank behind the version.
pub response_rejected :
    (w : World) (s : Service) {text : Bytes}
    → (w.shutdown_result shutdown_receive).value ≡ 0
    → http_status_table s.response_status_code ≡ some text
    → s.resource_size_bytes ≡ 0
    → (buffers : List Bytes) × (s' : Service) × (send_response w s
        ≡ HttpServer.act (HttpServer.Action.shutdown shutdown_receive) (
            HttpServer.act
              (HttpServer.Action.write buffers)
              (HttpServer.stop (HttpServer.Exit.awaits HttpServer.Handler.sent_handler s'))))
      × ((e : Errors) (ec : ErrorCode) (r : Request)
          → ec.value ≡ 0
          → r.response.response_buf ≡ concat buffers
          → (rest : Bytes) × (on_status_line_received e ec r
              ≡ HttpClient.on_finish
                  (invalid_response e)
                  (record r { response = record (r.response) { response_buf = rest } })))
response_rejected w s {text} up known none_loaded =
    let (buffers, s', sent, bytes) = send_response_bytes w s up known none_loaded in
    let shape = table_text s.response_status_code text known in
    let tail = shape.message ++ (HttpServer.crlf ++ (s.response_headers ++ HttpServer.crlf)) in
    (
      buffers,
      s',
      sent,
      λ e ec r h same. (
        b' ' ∷ tail,
        wrong_version e ec r b'H' (codes "TTP/1.1" ++ shape.first ∷ shape.others) b' ' tail h
            (IsWord-append HttpServer.http_version (shape.first ∷ shape.others) version_IsWord
              shape.word)
            (λ q. cc) blank
            (same
              ∙ bytes
              ∙ ap (λ (t : Bytes). sent_bytes t s.response_headers) shape.shape
              ∙ simp append_assoc),
      ),
    )
