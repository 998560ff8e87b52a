-- ===== src/HttpClient/Rounds.antt =====
-- What each handler of an `HTTPRequest` leaves: the completions and the callback still to come.
use boost_asio_study.Asio.{
  ErrorCode, Errors, failed, code_eq, Side, shutdown_send, Fault, system_error, Completion,
}
use boost_asio_study.Base.{
  ℕ, suc, ◌≤◌, ◌<◌, List, [], ◌∷◌, Option, none, some, ◌≡◌, refl, arith, if_both, bytes_eq, not,
}
use boost_asio_study.Decimal.{Stoul, parsed, logic_error}
use boost_asio_study.HttpClient.{
  http_version, Request, Action, call_back, Handler, resolved_handler, connected_handler,
  sent_handler, status_handler, headers_handler, body_handler, Exit, awaits, finished, faulted,
  Outcome, act, stop, on_finish, unless_cancelled, unless_failed, on_host_name_resolved,
  on_connection_established, on_request_sent, read_status_message, with_status_code,
  read_status_line, on_status_line_received, HeaderLoop, finish_headers, on_headers_received,
  on_response_body_received, dispatch,
}
use boost_asio_study.Stream.{Stream, open_stream, extract_word}

-- The calls of the callback.
unfoldable pub callbacks : List Action → ℕ
callbacks [] = 0
callbacks (call_back ec r ∷ rest) = suc (callbacks rest)
callbacks (_ ∷ rest) = callbacks rest

-- How many completions a request can still take.
abbrev pub rounds : Exit → ℕ
rounds (awaits resolved_handler r) = 6
rounds (awaits connected_handler r) = 5
rounds (awaits sent_handler r) = 4
rounds (awaits status_handler r) = 3
rounds (awaits headers_handler r) = 2
rounds (awaits body_handler r) = 1
rounds _ = 0

-- The callback has been called exactly if the request is finished.
abbrev pub called_by : Exit → ℕ
called_by finished = 1
called_by _ = 0

pub record Within (n : ℕ) (o : Outcome) : Type 0 where
  pub sooner : rounds o.exit < n
  pub called : callbacks o.actions ≡ called_by o.exit

pub Within-mono : {m n : ℕ} {o : Outcome} → m ≤ n → Within m o → Within n o
Within-mono h v = record { sooner = omega arith; called = v.called }

on_finish-Within : (n : ℕ) (ec : ErrorCode) (r : Request) → 0 < n → Within n (on_finish ec r)
unfolding on_finish callbacks
on_finish-Within n ec r h = ground arith

pub unless_cancelled-Within :
    (n : ℕ) (e : Errors) (r : Request) (next : Outcome)
    → 0 < n
    → Within n next
    → Within n (unless_cancelled e r next)
unfolding unless_cancelled
unless_cancelled-Within n e r next h v =
    if_both (Within n) r.was_cancelled (on_finish-Within n e.operation_aborted r h) v

unless_failed-Within :
    (n : ℕ) (ec : ErrorCode) (r : Request) (next : Outcome)
    → 0 < n
    → Within n next
    → Within n (unless_failed ec r next)
unfolding unless_failed
unless_failed-Within n ec r next h v = if_both (Within n) (failed ec) (on_finish-Within n ec r h) v

-- An operation is started, and its handler comes later.
pub await-Within :
    (a : Action) (h : Handler) (r : Request) (n : ℕ)
    → callbacks (a ∷ []) ≡ 0
    → rounds (awaits h r) < n
    → Within n (act a (stop (awaits h r)))
unfolding callbacks
await-Within a h r n none_called lt = record { sooner = lt; called = none_called }

pub fault-Within : (n : ℕ) (f : Fault) → 0 < n → Within n (stop (faulted f))
unfolding callbacks
fault-Within n f h = record { sooner = h; called = refl }

on_host_name_resolved-Within :
    (e : Errors) (ec : ErrorCode) (r : Request) → Within 6 (on_host_name_resolved e ec r)
unfolding on_host_name_resolved callbacks
on_host_name_resolved-Within e ec r = unless_failed-Within 6 ec r _ (omega arith) (
    unless_cancelled-Within 6 e r _ (omega arith)
      (await-Within Action.connect connected_handler r 6 refl (omega arith)))

on_connection_established-Within :
    (e : Errors) (ec : ErrorCode) (r : Request) → Within 5 (on_connection_established e ec r)
unfolding on_connection_established callbacks
on_connection_established-Within e ec r = unless_failed-Within 5 ec r _ (omega arith) (
    unless_cancelled-Within 5 e _ _ (omega arith)
      (await-Within (Action.write _) sent_handler _ 5 refl (omega arith)))

shutdown-Within :
    (n : ℕ) (side : Side) (o : Outcome) → Within n o → Within n (act (Action.shutdown side) o)
unfolding callbacks
shutdown-Within n side o v = record { sooner = v.sooner; called = v.called }

on_request_sent-Within :
    (e : Errors) (shutdown_result ec : ErrorCode) (r : Request)
    → Within 4 (on_request_sent e shutdown_result ec r)
unfolding on_request_sent callbacks
on_request_sent-Within e shutdown_result ec r = unless_failed-Within 4 ec r _ (omega arith) (
    shutdown-Within 4 shutdown_send _ (
      if_both (Within 4) (failed shutdown_result)
        (fault-Within 4 (system_error shutdown_result) (omega arith))
        (unless_cancelled-Within 4 e r _ (omega arith)
          (await-Within (Action.read_until _) status_handler r 4 refl (omega arith)))))

with_status_code-Within :
    (e : Errors) (r : Request) (code : Stoul) (response_stream : Stream)
    → Within 3 (with_status_code e r code response_stream)
unfolding with_status_code read_status_message callbacks
with_status_code-Within e r (parsed n) response_stream =
    unless_cancelled-Within 3 e _ _ (omega arith)
      (await-Within (Action.read_until _) headers_handler _ 3 refl (omega arith))
with_status_code-Within e r logic_error response_stream = on_finish-Within 3 _ _ (omega arith)

on_status_line_received-Within :
    (e : Errors) (ec : ErrorCode) (r : Request) → Within 3 (on_status_line_received e ec r)
unfolding on_status_line_received read_status_line
on_status_line_received-Within e ec r =
    let (version, response_stream) = extract_word [] (open_stream r.response.response_buf) in
    unless_failed-Within 3 ec r _ (omega arith) (
      if_both (Within 3) (not (bytes_eq version http_version))
        (on_finish-Within 3 _ _ (omega arith)) (with_status_code-Within e r _ _))

finish_headers-Within :
    (e : Errors) (r : Request) (l : Option HeaderLoop) → Within 2 (finish_headers e r l)
unfolding finish_headers callbacks
finish_headers-Within e r none = fault-Within 2 Fault.endless_loop (omega arith)
finish_headers-Within e r (some l) =
    unless_cancelled-Within 2 e _ _ (omega arith)
      (await-Within Action.read_all body_handler _ 2 refl (omega arith))

on_headers_received-Within :
    (e : Errors) (ec : ErrorCode) (r : Request) → Within 2 (on_headers_received e ec r)
unfolding on_headers_received
on_headers_received-Within e ec r =
    unless_failed-Within 2 ec r _ (omega arith) (finish_headers-Within e r _)

on_response_body_received-Within :
    (e : Errors) (ec : ErrorCode) (r : Request) → Within 1 (on_response_body_received e ec r)
unfolding on_response_body_received
on_response_body_received-Within e ec r =
    if_both (Within 1) (code_eq ec e.eof) (on_finish-Within 1 e.success r (omega arith))
      (on_finish-Within 1 ec r (omega arith))

pub dispatch-Within :
    (e : Errors) (shutdown_result : ErrorCode) (h : Handler) (r : Request) (c : Completion)
    → Within (rounds (awaits h r)) (dispatch e shutdown_result h r c)
unfolding dispatch
dispatch-Within e sr resolved_handler r c = on_host_name_resolved-Within e c.ec r
dispatch-Within e sr connected_handler r c = on_connection_established-Within e c.ec r
dispatch-Within e sr sent_handler r c = on_request_sent-Within e sr c.ec r
dispatch-Within e sr status_handler r c = on_status_line_received-Within e c.ec _
dispatch-Within e sr headers_handler r c = on_headers_received-Within e c.ec _
dispatch-Within e sr body_handler r c = on_response_body_received-Within e c.ec _
