-- ===== src/HttpClient/Program.antt =====
-- The setters and getters of `HTTPRequest` and `HTTPResponse`, and `main` with its `HTTPClient`.
use boost_asio_study.Asio.{ErrorCode, Errors, IsErrors, failed, Completion}
use boost_asio_study.Base.{
  ℕ, Bool, true, List, [], ◌∷◌, ◌++◌, Option, Bytes, codes, ◌≡◌, refl, arith, if◌then◌else◌, ◌∙◌,
}
use boost_asio_study.Decimal.{to_string}
use boost_asio_study.Dict.{Dict}
use boost_asio_study.HttpClient.{
  Response, Request, create_request, Action, resolve, call_back, log, resolved_handler, awaits,
  finished, Outcome, act, stop, execute, cancel, dispatch, on_finish, unless_failed,
  unless_cancelled, on_host_name_resolved,
}
use boost_asio_study.HttpClient.Lifecycle.{Event, completes, cancels, run, continue}

set_host : Bytes → Request → Request
set_host host r = record r { host = host }

set_port : ℕ → Request → Request
set_port port r = record r { port = port }

set_uri : Bytes → Request → Request
set_uri uri r = record r { uri = uri }

set_callback : Bool → Request → Request
set_callback callback r = record r { callback = callback }

get_host : Request → Bytes
get_host r = r.host

get_port : Request → ℕ
get_port r = r.port

get_uri : Request → Bytes
get_uri r = r.uri

get_id : Request → ℕ
get_id r = r.id

get_status_code : Response → Option ℕ
get_status_code r = r.status_code

get_status_message : Response → Bytes
get_status_message r = r.status_message

get_headers : Response → Dict
get_headers r = r.headers

-- The stream reads from the buffer.
get_response : Response → Bytes
get_response r = r.response_buf

google : Bytes
google = codes "http://google.com/"

-- `client.create_request(id)`, and the four setters.
unfoldable pub configured : ℕ → Request
unfolding set_host set_port set_uri set_callback google
configured id =
    set_callback true
      (set_port 80 (set_uri (codes "/index.html") (set_host google (create_request id))))

-- What comes of the two requests; the second is cancelled after what completes for it `before`. An
-- exception may leave that call of `cancel`.
pub record Requests : Type 0 where
  pub one : Outcome
  pub two : Outcome
  pub thrown : Option ErrorCode

unfoldable pub main : Errors → Option ErrorCode → List Event → List Event → List Event → Requests
main e sock first before second = record {
  one = run e (execute e (configured 1)) first;
  two = run e (execute e (configured 2)) (before ++ cancels sock ∷ second);
  thrown = (cancel sock (configured 2)).thrown;
}

-- With all four fields set, as `main` sets them, `execute` passes its `assert`s and resolves the host.
execute-configured :
    (e : Errors) (id : ℕ)
    → execute e (configured id)
      ≡ act (resolve google (to_string 80)) (stop (awaits resolved_handler (configured id)))
unfolding execute configured unless_cancelled
execute-configured e id = refl

run_finished :
    (e : Errors) (events : List Event) (o : Outcome) → o.exit ≡ finished → run e o events ≡ o
unfolding run continue
run_finished e [] o h = refl
run_finished e (completes sr c ∷ events) o h = simp h (run_finished e events o h)
run_finished e (cancels sock ∷ events) o h = simp h (run_finished e events o h)

-- A cancelled request whose host name is resolved, or not: its end.
resolved_cancelled :
    (e : Errors) (documented : IsErrors e) (ec : ErrorCode) (r : Request)
    → r.was_cancelled ≡ true
    → let code = if failed ec then ec else e.operation_aborted in
      on_host_name_resolved e ec r
      ≡ record { actions = log code ∷ call_back code r ∷ []; exit = finished }
unfolding on_host_name_resolved unless_failed unless_cancelled on_finish
resolved_cancelled e documented ec r marked = ground (arith, documented.aborted_value)

-- Behind what was done, a handler's outcome.
abbrev after_actions : List Action → Outcome → Outcome
after_actions done o = record { actions = done ++ o.actions; exit = o.exit }

cancel_first :
    (e : Errors) (sock : Option ErrorCode) (a : Action) (r : Request) (shutdown_result : ErrorCode)
    (c : Completion) (later : List Event)
    → run e
        (act a (stop (awaits resolved_handler r)))
        (cancels sock ∷ completes shutdown_result c ∷ later)
      ≡ run e
          (after_actions
            (a ∷ (cancel sock r).actions)
            (on_host_name_resolved e c.ec (cancel sock r).request))
          later
unfolding run continue dispatch
cancel_first e sock a r sr c later = refl

-- The second request of `main`, if `cancel` comes before its host name is resolved: whatever
-- completes then, and after that, it only resolves the host and cancels that, and its callback is
-- called once, with the error of the resolver or with `operation_aborted`; it never connects.
main_cancelled :
    (e : Errors) (documented : IsErrors e) (sock : Option ErrorCode) (first later : List Event)
    (shutdown_result : ErrorCode) (c : Completion)
    → let r = (cancel sock (configured 2)).request in
      let code = if failed c.ec then c.ec else e.operation_aborted in
      (main e sock first [] (completes shutdown_result c ∷ later)).two ≡ record {
        actions =
            (resolve google (to_string 80) ∷ (cancel sock (configured 2)).actions)
            ++ (log code ∷ call_back code r ∷ []);
        exit = finished;
      }
unfolding main cancel
main_cancelled e documented sock first later sr c =
    let marked : Request = (cancel sock (configured 2)).request in
    let host = resolve google (to_string 80) in
    let done : List Action = host ∷ (cancel sock (configured 2)).actions in
    rw (execute-configured e 2) (
      cancel_first e sock host (configured 2) sr c later
      ∙ rw (resolved_cancelled e documented c.ec marked refl) (run_finished e later _ refl))
