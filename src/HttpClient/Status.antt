-- ===== src/HttpClient/Status.antt =====
-- What `on_status_line_received` makes of a status line.
use boost_asio_study.Base.{
  subst, bytes_eq_refl, codes, ℕ, ◌<◌, true, false, [], ◌∷◌, ◌++◌, some, ◌≡◌, ◌≢◌, refl, ◌∙◌, arith,
  Bytes, Lacks, bytes_eq_iff,
}
use boost_asio_study.Asio.{ErrorCode, Errors}
use boost_asio_study.Decimal.{
  to_string-AllDigits, stoul-to_string, to_string_cons, AllDigits, to_string, ulong_mod,
}
use boost_asio_study.HttpClient.{
  Request, crlf, http_version, on_status_line_received, read_status_line, with_status_code,
  read_status_message, unless_failed, unless_cancelled, on_finish, invalid_response, read_until,
  awaits, headers_handler, act, stop,
}
use boost_asio_study.Stream.{open_stream, is_space, extract_word}
use boost_asio_study.Stream.Laws.{
  blank, IsWord, getline_found, get_next, extract_word_found, extract_word_space,
}

-- `HTTP/1.1 CODE MESSAGE`, the end of the line, and what follows.
abbrev pub status_line : Bytes → Bytes → Bytes → Bytes
status_line code message rest =
    http_version ++ b' ' ∷ (code ++ b' ' ∷ (message ++ b'\r' ∷ b'\n' ∷ rest))

AllDigits-IsWord : (s : Bytes) → AllDigits s → IsWord s
unfolding is_space
AllDigits-IsWord [] h = tt
AllDigits-IsWord (c ∷ cs) h = (ground arith, AllDigits-IsWord cs h.1)

pub version_IsWord : IsWord http_version
unfolding is_space
version_IsWord = (refl, (refl, (refl, (refl, (refl, (refl, (refl, (refl, tt))))))))

-- The code of a status line is read as a word, whatever is read before it.
extract_code :
    (n : ℕ) (rest : Bytes)
    → extract_word [] (open_stream (b' ' ∷ (to_string n ++ b' ' ∷ rest)))
      ≡ (to_string n, open_stream (b' ' ∷ rest))
extract_code n rest =
    let (c, cs, e) = to_string_cons n in
    let w : IsWord (c ∷ cs) = subst IsWord e (AllDigits-IsWord _ (to_string-AllDigits n)) in
    extract_word_space [] b' ' _ blank ∙ rw e (extract_word_found [] c cs rest b' ' w blank)

read_status_message_stored :
    (e : Errors) (r : Request) (n : ℕ) (message rest : Bytes)
    → r.was_cancelled ≡ false
    → Lacks b'\r' message
    → read_status_message e r n (open_stream (b' ' ∷ (message ++ b'\r' ∷ b'\n' ∷ rest)))
      ≡ act (read_until (crlf ++ crlf)) (
          stop (
            awaits headers_handler (record r {
              response = record (r.response) {
                status_code = some n;
                status_message = b' ' ∷ message;
                response_buf = rest;
              };
            })))
unfolding read_status_message unless_cancelled
read_status_message_stored e r n message rest live hm = rw (
  getline_found b'\r' [] (b' ' ∷ message) (b'\n' ∷ rest) ((λ q. omega arith), hm),
  get_next b'\n' rest,
  live,
)

read_status_line_stored :
    (e : Errors) (r : Request) (n : ℕ) (message rest : Bytes)
    → r.was_cancelled ≡ false
    → n < ulong_mod
    → Lacks b'\r' message
    → r.response.response_buf ≡ status_line (to_string n) message rest
    → read_status_line e r
      ≡ act (read_until (crlf ++ crlf)) (
          stop (
            awaits headers_handler (record r {
              response = record (r.response) {
                status_code = some n;
                status_message = b' ' ∷ message;
                response_buf = rest;
              };
            })))
unfolding read_status_line with_status_code read_status_message
read_status_line_stored e r n message rest live small hm same =
    let tail = to_string n ++ b' ' ∷ (message ++ b'\r' ∷ b'\n' ∷ rest) in
    rw
      (
        same,
        extract_word_found [] b'H' (codes "TTP/1.1") tail b' ' version_IsWord blank,
        extract_code n (message ++ b'\r' ∷ b'\n' ∷ rest),
        bytes_eq_refl http_version,
        stoul-to_string n small,
      )
      (read_status_message_stored e r n message rest live hm)

-- A status line whose code is a printed number, received with no error while the request is not
-- cancelled: the number and the message (with the blank in front of it) are stored, exactly what
-- follows the line stays in the buffer, and the request goes on to read the header fields.
pub status_stored :
    (e : Errors) (ec : ErrorCode) (r : Request) (n : ℕ) (message rest : Bytes)
    → ec.value ≡ 0
    → r.was_cancelled ≡ false
    → n < ulong_mod
    → Lacks b'\r' message
    → r.response.response_buf ≡ status_line (to_string n) message rest
    → on_status_line_received e ec r
      ≡ act (read_until (crlf ++ crlf)) (
          stop (
            awaits headers_handler (record r {
              response = record (r.response) {
                status_code = some n;
                status_message = b' ' ∷ message;
                response_buf = rest;
              };
            })))
unfolding on_status_line_received unless_failed
status_stored e ec r n message rest h live small hm same =
    rw h (read_status_line_stored e r n message rest live small hm same)

-- A status line whose first word is not `HTTP/1.1` finishes the request with `invalid_response`,
-- when it is received with no error.
pub wrong_version :
    (e : Errors) (ec : ErrorCode) (r : Request) (v : ℕ) (vs : Bytes) (c : ℕ) (rest : Bytes)
    → ec.value ≡ 0
    → IsWord (v ∷ vs)
    → v ∷ vs ≢ http_version
    → is_space c ≡ true
    → r.response.response_buf ≡ v ∷ (vs ++ c ∷ rest)
    → on_status_line_received e ec r
      ≡ on_finish
          (invalid_response e)
          (record r { response = record (r.response) { response_buf = c ∷ rest } })
unfolding on_status_line_received unless_failed read_status_line
wrong_version e ec r v vs c rest h w ne blank same =
    rw (h, same, extract_word_found [] v vs rest c w blank)
      (ground (arith, bytes_eq_iff (v ∷ vs) http_version))
