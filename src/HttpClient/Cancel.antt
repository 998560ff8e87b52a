-- ===== src/HttpClient/Cancel.antt =====
-- What a request does after `cancel`.
use boost_asio_study.Asio.{ErrorCode, Errors, IsErrors, failed, Fault, Completion, system_error}
use boost_asio_study.Base.{
  ℕ, suc, true, not, List, [], ◌∷◌, none, some, Option, ◌≡◌, ◌≢◌, refl, arith, All, if_both,
  bytes_eq, Bool-cases, inl, inr,
}
use boost_asio_study.Decimal.{Stoul, parsed, logic_error}
use boost_asio_study.HttpClient.{
  Request, Action, resolve, connect, write, read_until, read_all, call_back, Handler,
  resolved_handler, connected_handler, sent_handler, status_handler, headers_handler, body_handler,
  awaits, faulted, Outcome, stop, on_finish, unless_cancelled, unless_failed, cancel, dispatch,
  on_host_name_resolved, on_connection_established, on_request_sent, on_status_line_received,
  read_status_line, read_status_message, with_status_code, on_headers_received, finish_headers,
  HeaderLoop, invalid_response, http_version,
}
use boost_asio_study.Stream.{Stream, open_stream, extract_word}

-- The asynchronous operations started.
unfoldable pub starts : List Action → ℕ
starts [] = 0
starts (resolve host service ∷ rest) = suc (starts rest)
starts (connect ∷ rest) = suc (starts rest)
starts (write bytes ∷ rest) = suc (starts rest)
starts (read_until delim ∷ rest) = suc (starts rest)
starts (read_all ∷ rest) = suc (starts rest)
starts (_ ∷ rest) = starts rest

-- The error codes that the callback is called with.
unfoldable pub results : List Action → List ErrorCode
results [] = []
results (call_back ec r ∷ rest) = ec ∷ results rest
results (_ ∷ rest) = results rest

-- The request is over: nothing is started, nothing is pending, and the callback gets an error.
pub record IsStopped (o : Outcome) : Type 0 where
  pub quiet : starts o.actions ≡ 0
  pub over : (h : Handler) (r : Request) → o.exit ≢ awaits h r
  pub failing : All (λ ec. failed ec ≡ true) (results o.actions)

on_finish-IsStopped : (ec : ErrorCode) (r : Request) → failed ec ≡ true → IsStopped (on_finish ec r)
unfolding on_finish starts results
on_finish-IsStopped ec r h = rw h (record { quiet = refl; over = λ k q p. cc; failing = (h, tt) })

fault-IsStopped : (f : Fault) → IsStopped (stop (faulted f))
unfolding starts results
fault-IsStopped f = record { quiet = refl; over = λ k q p. cc; failing = tt }

module _ (e : Errors) (documented : IsErrors e) where
  cancelled-IsStopped :
      (r : Request) (next : Outcome)
      → r.was_cancelled ≡ true
      → IsStopped (unless_cancelled e r next)
  unfolding unless_cancelled
  cancelled-IsStopped r next h =
      simp h (on_finish-IsStopped e.operation_aborted r (ground (arith, documented.aborted_value)))

  failed-IsStopped :
      (ec : ErrorCode) (r : Request) (next : Outcome)
      → IsStopped next
      → IsStopped (unless_failed ec r next)
  unfolding unless_failed
  failed-IsStopped ec r next v = elim (Bool-cases (failed ec)) [
    | inl bad ↦ rw bad (on_finish-IsStopped ec r bad)
    | inr fine ↦ rw fine v
  ]

  with_status_code-IsStopped :
      (r : Request) (code : Stoul) (s : Stream)
      → r.was_cancelled ≡ true
      → IsStopped (with_status_code e r code s)
  unfolding with_status_code read_status_message
  with_status_code-IsStopped r (parsed n) s h = cancelled-IsStopped _ _ h
  with_status_code-IsStopped r logic_error s h = on_finish-IsStopped (invalid_response e) _ refl

  read_status_line-IsStopped :
      (r : Request) → r.was_cancelled ≡ true → IsStopped (read_status_line e r)
  unfolding read_status_line
  read_status_line-IsStopped r h =
      let version = (extract_word [] (open_stream r.response.response_buf)).0 in
      if_both IsStopped (not (bytes_eq version http_version))
        (on_finish-IsStopped (invalid_response e) _ refl) (with_status_code-IsStopped r _ _ h)

  finish_headers-IsStopped :
      (r : Request) (l : Option HeaderLoop)
      → r.was_cancelled ≡ true
      → IsStopped (finish_headers e r l)
  unfolding finish_headers
  finish_headers-IsStopped r none h = fault-IsStopped Fault.endless_loop
  finish_headers-IsStopped r (some l) h = cancelled-IsStopped _ _ h

  request_sent-IsStopped :
      (sr ec : ErrorCode) (r : Request)
      → r.was_cancelled ≡ true
      → IsStopped (on_request_sent e sr ec r)
  unfolding on_request_sent starts results
  request_sent-IsStopped sr ec r h =
      let after =
        if_both IsStopped (failed sr) (fault-IsStopped (system_error sr))
          (cancelled-IsStopped r _ h) in
      failed-IsStopped ec r _
        (record { quiet = after.quiet; over = after.over; failing = after.failing })

  -- After `cancel`, whichever operation but the read of the body completes next, with or without an
  -- error: the request starts no further operation, none is pending, and the callback, if it is
  -- called, gets an error.
  pub cancel_stops :
      (sock : Option ErrorCode) (shutdown_result : ErrorCode) (h : Handler) (r : Request)
      (c : Completion)
      → h ≢ body_handler
      → IsStopped (dispatch e shutdown_result h (cancel sock r).request c)
  unfolding dispatch cancel on_host_name_resolved on_connection_established on_status_line_received
      on_headers_received
  cancel_stops sock sr resolved_handler r c ne =
      failed-IsStopped c.ec _ _ (cancelled-IsStopped _ _ refl)
  cancel_stops sock sr connected_handler r c ne =
      failed-IsStopped c.ec _ _ (cancelled-IsStopped _ _ refl)
  cancel_stops sock sr sent_handler r c ne = request_sent-IsStopped sr c.ec _ refl
  cancel_stops sock sr status_handler r c ne =
      failed-IsStopped c.ec _ _ (read_status_line-IsStopped _ refl)
  cancel_stops sock sr headers_handler r c ne =
      failed-IsStopped c.ec _ _ (finish_headers-IsStopped _ _ refl)
  cancel_stops sock sr body_handler r c ne = absurd (ne refl)
