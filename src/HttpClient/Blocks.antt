-- ===== src/HttpClient/Blocks.antt =====
-- What `on_headers_received` makes of a block of header fields.
use boost_asio_study.Base.{
  ℕ, suc, ◌+◌, ◌-◌, false, [], ◌∷◌, ◌++◌, none, ◌≡◌, ◌≢◌, ap, arith, Bytes, All, Lacks, List,
  length, subst,
}
use boost_asio_study.Asio.{ErrorCode, Errors, endless_loop}
use boost_asio_study.HttpText.{Field, render, assign_all, length-render}
use boost_asio_study.HttpClient.{
  Request, header_loop, header_fuel, start_loop, crlf, finish_headers, on_headers_received,
  unless_failed, unless_cancelled, read_all, awaits, body_handler, faulted, act, stop,
}
use boost_asio_study.HttpClient.Endless.{stray_block, stray_never, header_fuel_decides}
use boost_asio_study.HttpClient.Headers.{IsLine, header_loop_fields}
use boost_asio_study.Stream.{open_stream, Stream}

-- Header fields, the empty line and a body, received with no error while the request is not
-- cancelled: the fields are stored in order, exactly the body stays in the buffer of the response,
-- and the request goes on to read the rest of the body.
pub headers_stored :
    (e : Errors) (ec : ErrorCode) (r : Request) (fs : List Field) (body : Bytes)
    → ec.value ≡ 0
    → r.was_cancelled ≡ false
    → All IsLine fs
    → r.response.response_buf ≡ render fs (crlf ++ body)
    → on_headers_received e ec r
      ≡ act read_all (
          stop (
            awaits body_handler (record r {
              response = record (r.response) {
                headers = assign_all fs r.response.headers;
                response_buf = body;
              };
            })))
unfolding on_headers_received finish_headers unless_failed unless_cancelled
headers_stored e ec r fs body h live hf same =
    let buf = r.response.response_buf in
    let (l, loop, at, stored) =
      header_loop_fields fs body (length buf + 1 - length fs) (start_loop buf r.response.headers) hf
        (ap open_stream same) in
    let fuel : length fs + suc (length buf + 1 - length fs) ≡ header_fuel buf =
      omega (arith, length-render fs (crlf ++ body), ap length same) in
    rw (h, ← fuel, loop, live, stored, ap (λ (s : Stream). s.rest) at)

-- Well-formed header fields, then a line that is not empty and has no carriage return, a stray carriage
-- return directly in front of the carriage return and line feed, twice, that end the block, and
-- behind them a body, of at least one byte and with no carriage return, that has been received
-- with it, all with no error: the handler never returns, and no number of rounds ends its loop.
pub stray_endless :
    (e : Errors) (ec : ErrorCode) (r : Request) (fs : List Field) (line : Bytes) (c : ℕ)
    (cs : Bytes)
    → ec.value ≡ 0
    → All IsLine fs
    → line ≢ []
    → Lacks b'\r' line
    → Lacks b'\r' (c ∷ cs)
    → r.response.response_buf ≡ render fs (stray_block line (c ∷ cs))
    → (on_headers_received e ec r ≡ stop (faulted endless_loop))
      × ((fuel : ℕ)
          → header_loop fuel (start_loop r.response.response_buf r.response.headers) ≡ none)
unfolding on_headers_received finish_headers unless_failed
stray_endless e ec r fs line c cs h hf ne hl hb same =
    let block = render fs (stray_block line (c ∷ cs)) in
    let fuel : length fs + (header_fuel block - length fs) ≡ header_fuel block =
      omega (arith, length-render fs (stray_block line (c ∷ cs))) in
    let out : header_loop (header_fuel block) (start_loop block r.response.headers) ≡ none =
      subst (λ n. header_loop n (start_loop block r.response.headers) ≡ none) fuel
        (stray_never fs line c cs r.response.headers hf ne hl hb (header_fuel block - length fs)) in
    (rw (h, same, out), rw same (header_fuel_decides block r.response.headers out))
