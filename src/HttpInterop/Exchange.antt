-- ===== src/HttpInterop/Exchange.antt =====
-- A request of the HTTP client that the HTTP server answers, from both ends.
use boost_asio_study.Asio.{ErrorCode, Errors, Completion, shutdown_receive, shutdown_both}
use boost_asio_study.Base.{
  ap, subst, false, true, ℕ, [], ◌∷◌, ◌++◌, Option, some, ◌≡◌, ◌≢◌, refl, ◌∙◌, sym, arith, Bytes,
  codes, Lacks, append_assoc, subst, append_cancel_left,
}
use boost_asio_study.HttpClient
use boost_asio_study.HttpClient.{Request, invalid_response, request_text, log, call_back, finished}
use boost_asio_study.HttpClient.Asking.{IsReady, asked, request_text_lem}
use boost_asio_study.HttpClient.Exchange.{left_over, response_refused}
use boost_asio_study.HttpClient.Lifecycle.{completes, run}
use boost_asio_study.HttpServer
use boost_asio_study.HttpServer.{World, root}
use boost_asio_study.HttpServer.Lifecycle.{started, run as serve}
use boost_asio_study.HttpServer.Requests.{words}
use boost_asio_study.HttpText.{render}
use boost_asio_study.HttpServer.Responses.{
  Answer, not_found, unreadable, empty, has_content, answer_for,
}
use boost_asio_study.HttpServer.Serving.{Serves, response_text, get_served}
use boost_asio_study.Stream.{is_space}
use boost_asio_study.Stream.Laws.{IsWord}

-- The first word of a text, and the blank and the bytes behind it.
record StartsWrong (text : Bytes) : Type 0 where
  first : ℕ
  others : Bytes
  blank : ℕ
  rest : Bytes
  shape : text ≡ first ∷ (others ++ blank ∷ rest)
  word : IsWord (first ∷ others)
  wrong : first ∷ others ≢ HttpClient.http_version
  is_blank : is_space blank ≡ true

number_word :
    (a b c : ℕ) (rest : Bytes)
    → is_space a ≡ false
    → is_space b ≡ false
    → is_space c ≡ false
    → StartsWrong (codes "HTTP/1.1" ++ a ∷ b ∷ c ∷ b' ' ∷ rest)
unfolding is_space
number_word a b c rest ha hb hc = record {
  first = b'H';
  others = codes "TTP/1.1" ++ a ∷ b ∷ c ∷ [];
  blank = b' ';
  rest = rest;
  shape = refl;
  word = (refl, (refl, (refl, (refl, (refl, (refl, (refl, (refl, (ha, (hb, (hc, tt)))))))))));
  wrong = λ q. cc;
  is_blank = refl;
}

response-StartsWrong :
    (answer : Answer) (text : Bytes) → response_text answer ≡ some text → StartsWrong text
unfolding response_text is_space
response-StartsWrong not_found text q =
    let same : codes "HTTP/1.1404 Not Found\r\n\r\n" ≡ text = cc in
    subst StartsWrong same (number_word b'4' b'0' b'4' (codes "Not Found\r\n\r\n") refl refl refl)
response-StartsWrong unreadable text q =
    let same : codes "HTTP/1.1500 Server Error\r\n\r\n" ≡ text = cc in
    subst StartsWrong same
      (number_word b'5' b'0' b'0' (codes "Server Error\r\n\r\n") refl refl refl)
response-StartsWrong empty text q =
    let same : codes "HTTP/1.1200 OK\r\ncontent-length: 0\r\n\r\n" ≡ text = cc in
    subst StartsWrong same
      (number_word b'2' b'0' b'0' (codes "OK\r\ncontent-length: 0\r\n\r\n") refl refl refl)
response-StartsWrong has_content text q = cc

behind_line :
    (line line_rest second bytes : Bytes) (a b : ℕ)
    → (line ++ a ∷ b ∷ line_rest) ++ second ≡ line ++ a ∷ b ∷ bytes
    → line_rest ++ second ≡ bytes
behind_line line line_rest second bytes a b same =
    let tail : a ∷ b ∷ (line_rest ++ second) ≡ a ∷ b ∷ bytes =
      append_cancel_left line _ _ (sym (append_assoc line (a ∷ b ∷ line_rest) second) ∙ same) in
    cc

-- A request of the client for a resource, which reaches the server in any two parts of which the
-- first has the request line; neither side meets an error; and the server has an answer, which it has for any
-- resource but a file with content. Then the
-- service writes exactly that answer, once, and is deleted. But when the answer has reached the
-- client, its callback gets `invalid_response`, because no blank separates the version from the
-- status, and these are all the operations of the client.
pub exchange_rejected :
    (e : Errors) (w : World) (r : Request) (ready : IsReady r) (c : ℕ) (cs line_rest text : Bytes)
    (first second written : Completion) (sr : ErrorCode)
    (resolved connected sent answered : Completion)
    → r.uri ≡ c ∷ cs
    → IsWord (c ∷ cs)
    → Lacks b'\r' r.host
    → (w.shutdown_result shutdown_receive).value ≡ 0
    → (w.shutdown_result shutdown_both).value ≡ 0
    → first.ec.value ≡ 0
    → second.ec.value ≡ 0
    → written.ec.value ≡ 0
    → first.received ++ second.received ≡ request_text r.uri r.host
    → first.received
      ≡ words (codes "GET") (c ∷ cs) HttpServer.http_version ++ b'\r' ∷ b'\n' ∷ line_rest
    → response_text (answer_for w (root ++ c ∷ cs)) ≡ some text
    → sr.value ≡ 0
    → resolved.ec.value ≡ 0
    → connected.ec.value ≡ 0
    → sent.ec.value ≡ 0
    → answered.ec.value ≡ 0
    → answered.received ≡ text
    → Serves (some text) (serve e started ((w, first) ∷ (w, second) ∷ (w, written) ∷ []))
      × (rest : Bytes) × (run e (HttpClient.execute e r) (
            completes sr resolved
            ∷ completes sr connected
            ∷ completes sr sent
            ∷ completes sr answered
            ∷ [])
          ≡ record {
            actions =
                asked r
                ++ log (invalid_response e)
                  ∷ call_back (invalid_response e) (left_over r rest)
                  ∷ [];
            exit = finished;
          })
exchange_rejected e w r ready c cs line_rest text first second written sr resolved connected sent
      answered uri hr hh up_receive up_both h1 h2 h3 whole line known up h4 h5 h6 h7 same =
    let start = response-StartsWrong _ text known in
    let served =
      get_served e w c cs ((codes "HOST", b' ' ∷ r.host) ∷ []) line_rest first second written hr
        ((omega arith, ((λ q. omega arith), hh)), tt) up_receive up_both h1 h2 h3 line
        (behind_line (words (codes "GET") (c ∷ cs) HttpServer.http_version) line_rest
          second.received (render ((codes "HOST", b' ' ∷ r.host) ∷ []) HttpServer.crlf) b'\r' b'\n'
          (ap (λ (b : Bytes). b ++ second.received) (sym line)
            ∙ whole
            ∙ ap (λ (u : Bytes). request_text u r.host) uri
            ∙ request_text_lem (c ∷ cs) r.host)) in
    (
      subst
          (λ (t : Option Bytes).
            Serves t (serve e started ((w, first) ∷ (w, second) ∷ (w, written) ∷ [])))
          known served,
      start.blank ∷ start.rest,
      response_refused e r ready sr resolved connected sent answered start.first start.others
          start.blank start.rest up h4 h5 h6 h7 start.word start.wrong start.is_blank
          (same ∙ start.shape),
    )
