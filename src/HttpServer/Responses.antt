-- ===== src/HttpServer/Responses.antt =====
-- `process_request` and `send_response`: which answer a request gets, and the bytes of it.
use boost_asio_study.Asio.{ErrorCode, Errors, null_write, shutdown_receive}
use boost_asio_study.Base.{
  ℕ, Bool, subst, codes, ◌==◌, ◌∙◌, ltb, if◌then◌else◌, true, false, List, [], ◌∷◌, ◌++◌, Option,
  none, some, ◌≡◌, refl, ap, arith, Bytes, All, Lacks, length, append-nil,
}
use boost_asio_study.Dict.{Dict}
use boost_asio_study.HttpServer.{
  Service, World, Outcome, write, shutdown, sent_handler, awaits, faulted, act, stop, crlf, root,
  resource_parts, http_version, http_status_table, shutdown_then, write_response, send_response,
  response_buffers, content_length, read_file, store_file, send_file, process_request, respond,
  finish_headers, on_headers_received, header_fuel, start_loop,
}
use boost_asio_study.HttpText.{Field, IsField, render, assign_all, length-render}
use boost_asio_study.HttpServer.Headers.{header_loop_fields}
use boost_asio_study.Stream.Laws.{IsWord}
use boost_asio_study.Stream.{is_space, open_stream}
use boost_asio_study.HttpServer.Requests.{error_check-none}

-- The bytes of a gathered write.
unfoldable pub concat : List Bytes → Bytes
concat [] = []
concat (b ∷ bs) = b ++ concat bs

-- The object while it answers: the answer that the file system calls for.
pub data Answer : Type 0 where
  not_found unreadable empty : Answer
  has_content : Answer

unfoldable pub answer_for : World → Bytes → Answer
answer_for w path = elim (w.exists path) [
  | false ↦ not_found
  | true ↦ elim (w.open_file path) [
    | none ↦ unreadable
    | some content ↦ elim content [ [] ↦ empty | c ∷ cs ↦ has_content ]
  ]
]

-- The outcome that belongs to each answer.
unfoldable pub answered : World → Service → Answer → Outcome
answered w s not_found = send_response w (record s { response_status_code = 404 })
answered w s unreadable = send_response w (record s { response_status_code = 500 })
answered w s empty = send_response w (record s {
  resource_size_bytes = 0;
  response_headers = s.response_headers ++ content_length 0;
})
answered w s has_content = stop (faulted null_write)

pub respond_answer :
    (w : World) (s : Service)
    → s.resource_buffer ≡ none
    → respond w (process_request w s) ≡ answered w s (answer_for w (root ++ s.requested_resource))
unfolding respond process_request answer_for answered send_file store_file read_file
respond_answer w s h = ground arith

-- Header fields `NAME:VALUE` that arrive with no error, with no colon in the bytes behind them, are
-- stored in order, and the answer follows from the file under the root at the requested path: 404
-- where none exists, 500 where it cannot be opened, 200 with `content-length: 0` where it is empty;
-- where it has content, the handler writes through the null pointer.
pub headers_answer :
    (e : Errors) (w : World) (ec : ErrorCode) (s : Service) (fs : List Field) (rest : Bytes)
    → ec.value ≡ 0
    → s.resource_buffer ≡ none
    → All IsField fs
    → Lacks b':' rest
    → s.request ≡ render fs rest
    → on_headers_received e w ec s
      ≡ answered w
          (record s { request = []; request_headers = assign_all fs s.request_headers })
          (answer_for w (root ++ s.requested_resource))
unfolding on_headers_received finish_headers
headers_answer e w ec s fs rest h none_yet hf hr same =
    let (l, loop, stored) =
      header_loop_fields fs rest (header_fuel s.request) (start_loop s.request s.request_headers) hf
        hr (ap open_stream same) (omega (arith, length-render fs rest, ap length same)) in
    let fields =
      λ (d : Dict). respond_answer w (record s { request = []; request_headers = d }) none_yet in
    rw (error_check-none e w ec s h, loop) (fields l.headers ∙ rw stored refl)

concat_headers :
    (line headers : Bytes) (buffer : Option Bytes)
    → concat (
        line
        ∷ ((if ltb 0 (length (headers ++ crlf)) then (headers ++ crlf) ∷ [] else [])
            ++ resource_parts 0 buffer))
      ≡ line ++ (headers ++ crlf)
unfolding concat
concat_headers line [] buffer = refl
concat_headers line (c ∷ cs) buffer = ground (arith, append-nil ((c ∷ cs) ++ crlf))

-- When the shutdown succeeds and no resource is loaded, `send_response` shuts the receiving side
-- down, makes exactly one write, and waits for it. The bytes are `HTTP/1.1`, at once followed by the
-- text of the status with no blank between them, the end of the line, the header fields, and the
-- empty line.
pub send_response_bytes :
    (w : World) (s : Service) {text : Bytes}
    → (w.shutdown_result shutdown_receive).value ≡ 0
    → http_status_table s.response_status_code ≡ some text
    → s.resource_size_bytes ≡ 0
    → (buffers : List Bytes) × (s' : Service) × (send_response w s
        ≡ act (shutdown shutdown_receive) (act (write buffers) (stop (awaits sent_handler s'))))
      × (concat buffers ≡ (http_version ++ (text ++ crlf)) ++ (s.response_headers ++ crlf))
unfolding send_response shutdown_then
send_response_bytes w s {text} up known no_resource =
    let s' = record s {
      response_status_line = http_version ++ (text ++ crlf);
      response_headers = s.response_headers ++ crlf;
    } in
    (
      response_buffers s',
      s',
      rw known (unfold write_response in ground arith),
      (unfold response_buffers in
          rw no_resource (concat_headers _ s.response_headers s.resource_buffer)),
    )

-- The text of a status starts with a word, the number, and a blank.
pub record IsStatusText (text : Bytes) : Type 0 where
  pub first : ℕ
  pub others : Bytes
  pub message : Bytes
  pub shape : text ≡ first ∷ (others ++ b' ' ∷ message)
  pub word : IsWord (first ∷ others)

abbrev three : ℕ → ℕ → ℕ → Bytes → Bytes
three a b c message = a ∷ b ∷ c ∷ b' ' ∷ message

status_text :
    (a b c : ℕ) (message : Bytes)
    → is_space a ≡ false
    → is_space b ≡ false
    → is_space c ≡ false
    → IsStatusText (three a b c message)
status_text a b c message ha hb hc = record {
  first = a;
  others = b ∷ c ∷ [];
  message = message;
  shape = refl;
  word = (ha, (hb, (hc, tt)));
}

pick :
    (b : Bool) (t text : Bytes) (next : Option Bytes)
    → IsStatusText t
    → (next ≡ some text → IsStatusText text)
    → (if b then some t else next) ≡ some text
    → IsStatusText text
pick true t text next h k e = let same : t ≡ text = cc in subst IsStatusText same h
pick false t text next h k e = k e

pub table_text : (code : ℕ) (text : Bytes) → http_status_table code ≡ some text → IsStatusText text
unfolding http_status_table is_space
table_text code text =
    pick (code == 200) _ text _ (status_text b'2' b'0' b'0' (codes "OK") refl refl refl) (
      pick (code == 404) _ text _ (status_text b'4' b'0' b'4' (codes "Not Found") refl refl refl) (
        pick (code == 413) _ text _
          (status_text b'4' b'1' b'3' (codes "Request Entity Too Large") refl refl refl)
          (pick (code == 500) _ text _
            (status_text b'5' b'0' b'0' (codes "Server Error") refl refl refl)
            (pick (code == 501) _ text _
              (status_text b'5' b'0' b'1' (codes "Not Implemented") refl refl refl)
              (pick (code == 505) _ text _
                (status_text b'5' b'0' b'5' (codes "HTTP Version Not Supported") refl refl refl)
                (λ e. cc))))))
