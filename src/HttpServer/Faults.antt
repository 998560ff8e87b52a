-- ===== src/HttpServer/Faults.antt =====
-- A GET request that ends the service in a fault.
use boost_asio_study.Asio.{Errors, Completion, Fault, null_write}
use boost_asio_study.Base.{ℕ, List, [], ◌∷◌, ◌++◌, ◌≡◌, refl, ap, Bytes, All}
use boost_asio_study.HttpText.{Field, IsField, render}
use boost_asio_study.HttpServer.{
  World, Action, faulted, Outcome, crlf, root, get_method, http_version,
}
use boost_asio_study.HttpServer.Lifecycle.{continue, run, started}
use boost_asio_study.HttpServer.Requests.{words}
use boost_asio_study.HttpServer.Responses.{has_content, answer_for, answered}
use boost_asio_study.HttpServer.Serving.{at, reads, request_answered}
use boost_asio_study.Stream.Laws.{IsWord}

run_faulted :
    (e : Errors) (done : List Action) (f : Fault) (events : List (World × Completion))
    → run e (at done (faulted f)) events ≡ at done (faulted f)
unfolding run continue
run_faulted e done f [] = refl
run_faulted e done f ((w, c) ∷ events) = run_faulted e done f events

-- A request for a file with content ends in the write through the null pointer.
pub file_faults :
    (e : Errors) (w : World) (r : ℕ) (rs : Bytes) (fs : List Field) (line_rest : Bytes)
    (first second : Completion) (later : List (World × Completion))
    → answer_for w (root ++ r ∷ rs) ≡ has_content
    → IsWord (r ∷ rs)
    → All IsField fs
    → first.ec.value ≡ 0
    → second.ec.value ≡ 0
    → first.received ≡ words get_method (r ∷ rs) http_version ++ b'\r' ∷ b'\n' ∷ line_rest
    → line_rest ++ second.received ≡ render fs crlf
    → (run e started ((w, first) ∷ (w, second) ∷ later)).exit ≡ faulted null_write
unfolding answered
file_faults e w r rs fs line_rest first second later content hr hf h1 h2 q1 q2 =
    rw (request_answered e w r rs fs line_rest first second later hr hf h1 h2 q1 q2)
      (rw content (ap (λ (o : Outcome). o.exit) (run_faulted e reads null_write later)))
