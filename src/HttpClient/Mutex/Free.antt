-- ===== src/HttpClient/Mutex/Free.antt =====
-- The mutex is free whenever the callback is called.
use boost_asio_study.Asio.{Completion, ErrorCode, Errors, failed, code_eq, shutdown_send}
use boost_asio_study.Base.{
  ap, Bool, true, false, List, [], ◌∷◌, Option, none, some, ◌≡◌, refl, bytes_eq, if◌then◌else◌,
  Bool-cases, inl, inr,
}
use boost_asio_study.Decimal.{Stoul, parsed, logic_error}
use boost_asio_study.HttpClient.{
  Request, Action, shutdown, read_until, Handler, resolved_handler, connected_handler, sent_handler,
  status_handler, headers_handler, body_handler, Exit, Outcome, act, stop, crlf, http_version,
  invalid_response, asserts, execute, cancel, dispatch, receive, on_host_name_resolved,
  on_connection_established, on_request_sent, read_status_message, with_status_code,
  read_status_line, on_status_line_received, HeaderLoop, finish_headers, on_headers_received,
  on_response_body_received, on_finish, unless_failed, unless_cancelled,
}
use boost_asio_study.Stream.{Stream, open_stream, extract_word}
use boost_asio_study.HttpClient.Mutex.{
  Op, lock, unlock, does, finish_ops, guarded_ops, cancel_ops, execute_ops, connected_ops, sent_ops,
  message_ops, code_ops, status_ops, headers_ops, handler_ops, actions, lets_go, unless_failed_ops,
}

-- The calls on the mutex are in order, and without them this is what is done.
pub record IsFree (done : List Action) (ops : List Op) : Type 0 where
  pub same : actions ops ≡ done
  pub free : lets_go false ops ≡ true

finish-IsFree : (ec : ErrorCode) (r : Request) → IsFree (on_finish ec r).actions (finish_ops ec r)
unfolding on_finish actions lets_go
finish-IsFree ec r = elim (Bool-cases (failed ec)) [
  | inl bad ↦ rw bad (record { same = refl; free = refl })
  | inr good ↦ rw good (record { same = refl; free = refl })
]

-- An operation that is started with the mutex locked is no call of the callback.
guarded_if :
    (e : Errors) (r : Request) (a : Action) (x : Exit) (gone : Bool)
    → lets_go true (does a ∷ unlock ∷ []) ≡ true
    → IsFree
        (if gone then on_finish e.operation_aborted r else act a (stop x)).actions
        (lock ∷ (if gone then unlock ∷ finish_ops e.operation_aborted r else does a ∷ unlock ∷ []))
unfolding actions lets_go
guarded_if e r a x true quiet =
    let v = finish-IsFree e.operation_aborted r in record { same = v.same; free = v.free }
guarded_if e r a x false quiet = record { same = refl; free = quiet }

guarded-IsFree :
    (e : Errors) (r : Request) (a : Action) (x : Exit)
    → lets_go true (does a ∷ unlock ∷ []) ≡ true
    → IsFree (unless_cancelled e r (act a (stop x))).actions (guarded_ops e r a)
unfolding unless_cancelled guarded_ops
guarded-IsFree e r a x quiet = guarded_if e r a x r.was_cancelled quiet

unless_failed-IsFree :
    (ec : ErrorCode) (r : Request) (o : Outcome) (ops : List Op)
    → IsFree o.actions ops
    → IsFree (unless_failed ec r o).actions (unless_failed_ops ec r ops)
unfolding unless_failed
unless_failed-IsFree ec r o ops v = elim (Bool-cases (failed ec)) [
  | inl bad ↦ rw bad (finish-IsFree ec r)
  | inr good ↦ rw good v
]

execute-IsFree : (e : Errors) (r : Request) → IsFree (execute e r).actions (execute_ops e r)
unfolding execute execute_ops actions lets_go
execute-IsFree e r = elim (Bool-cases (asserts r)) [
  | inl fine ↦ rw fine (guarded-IsFree e r _ _ refl)
  | inr bad ↦ rw bad (record { same = refl; free = refl })
]

sent-IsFree :
    (e : Errors) (sr ec : ErrorCode) (r : Request)
    → IsFree (on_request_sent e sr ec r).actions (unless_failed_ops ec r (sent_ops e sr r))
unfolding on_request_sent sent_ops actions lets_go
sent-IsFree e sr ec r = unless_failed-IsFree ec r _ _ (elim (Bool-cases (failed sr)) [
  | inl bad ↦ rw bad (record { same = refl; free = refl })
  | inr good ↦
      let v = guarded-IsFree e r (read_until crlf) (Exit.awaits status_handler r) refl in
      rw good (record { same = ap (◌∷◌ (shutdown shutdown_send)) v.same; free = v.free })
])

code-IsFree :
    (e : Errors) (r : Request) (number : Stoul) (after : Stream)
    → IsFree (with_status_code e r number after).actions (code_ops e r number after)
unfolding with_status_code code_ops read_status_message message_ops actions lets_go
code-IsFree e r (parsed n) after = guarded-IsFree e _ _ _ refl
code-IsFree e r logic_error after = finish-IsFree (invalid_response e) _

status-IsFree : (e : Errors) (r : Request) → IsFree (read_status_line e r).actions (status_ops e r)
unfolding read_status_line status_ops
status-IsFree e r =
    let first = extract_word [] (open_stream r.response.response_buf) in
    elim (Bool-cases (bytes_eq first.0 http_version)) [
      | inl good ↦ rw good (code-IsFree e r _ _)
      | inr bad ↦ rw bad (finish-IsFree (invalid_response e) _)
    ]

headers-IsFree :
    (e : Errors) (r : Request) (l : Option HeaderLoop)
    → IsFree (finish_headers e r l).actions (headers_ops e r l)
unfolding finish_headers headers_ops actions lets_go
headers-IsFree e r none = record { same = refl; free = refl }
headers-IsFree e r (some l) = guarded-IsFree e _ _ _ refl

dispatch-IsFree :
    (e : Errors) (sr : ErrorCode) (h : Handler) (r : Request) (c : Completion)
    → IsFree (dispatch e sr h r c).actions (handler_ops e sr h r c)
unfolding dispatch handler_ops on_host_name_resolved on_connection_established connected_ops
    on_status_line_received on_headers_received on_response_body_received actions lets_go
dispatch-IsFree e sr resolved_handler r c =
    unless_failed-IsFree c.ec r _ _ (guarded-IsFree e r _ _ refl)
dispatch-IsFree e sr connected_handler r c =
    unless_failed-IsFree c.ec r _ _ (guarded-IsFree e _ _ _ refl)
dispatch-IsFree e sr sent_handler r c = sent-IsFree e sr c.ec r
dispatch-IsFree e sr status_handler r c =
    unless_failed-IsFree c.ec (receive r c.received) _ _ (status-IsFree e (receive r c.received))
dispatch-IsFree e sr headers_handler r c =
    unless_failed-IsFree c.ec (receive r c.received) _ _ (headers-IsFree e (receive r c.received) _)
dispatch-IsFree e sr body_handler r c = elim (Bool-cases (code_eq c.ec e.eof)) [
  | inl end ↦ rw end (finish-IsFree e.success (receive r c.received))
  | inr more ↦ rw more (finish-IsFree c.ec (receive r c.received))
]

cancel-IsFree :
    (sock : Option ErrorCode) (r : Request) → IsFree (cancel sock r).actions (cancel_ops sock r)
unfolding cancel cancel_ops actions lets_go
cancel-IsFree none r = record { same = refl; free = refl }
cancel-IsFree (some ec) r = record { same = refl; free = refl }

-- `execute`, `cancel` and every handler, whatever completes, lock the mutex only when they do not hold
-- it, unlock it only when they do, and do not hold it at the end, nor when they call the callback,
-- so that a callback may call `cancel`; and the rest of what they do is what they do in the runs.
pub mutex_released :
    (e : Errors) (sr : ErrorCode) (h : Handler) (r : Request) (c : Completion)
    (sock : Option ErrorCode)
    → IsFree (execute e r).actions (execute_ops e r)
      × IsFree (cancel sock r).actions (cancel_ops sock r)
      × IsFree (dispatch e sr h r c).actions (handler_ops e sr h r c)
mutex_released e sr h r c sock =
    (execute-IsFree e r, cancel-IsFree sock r, dispatch-IsFree e sr h r c)
