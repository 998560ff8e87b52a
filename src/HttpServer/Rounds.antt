-- ===== src/HttpServer/Rounds.antt =====
-- What each handler of a `Service` leaves: the completions and the responses still to come.
use boost_asio_study.Asio.{
  null_write, code_eq, failed, ErrorCode, Errors, Side, out_of_range, endless_loop, assertion,
  Completion,
}
use boost_asio_study.HttpServer.Headers.{header_loop_total}
use boost_asio_study.Base.{
  bytes_eq, not, refl, ◌≢◌, inl, inr, Option, none, some, length, if_both, Bool-cases, ℕ, suc, ◌+◌,
  ◌≤◌, ◌<◌, List, [], ◌∷◌, ◌++◌, ◌≡◌, arith, Bytes,
}
use boost_asio_study.HttpServer.{
  get_method, open_stream, http_version, extract_word, start_loop, root, header_fuel, store_file,
  stop, crashed, send_file, processed, crlf, Handler, read_until, process_request, on_response_sent,
  on_request_line_received, on_headers_received, Processed, HeaderLoop, log, check_version, respond,
  checked, check_request_line, act, read_request_line, on_finish, finish_headers, error_check,
  Service, World, Outcome, Action, write, request_line_handler, headers_handler, sent_handler, Exit,
  awaits, deleted, faulted, http_status_table, shutdown_then, write_response, send_response,
  dispatch,
}

-- The responses written.
unfoldable pub writes : List Action → ℕ
writes [] = 0
writes (write buffers ∷ rest) = suc (writes rest)
writes (_ ∷ rest) = writes rest

-- How many completions a service can still take, and how many responses it may still write.
abbrev pub rounds : Exit → ℕ
rounds (awaits request_line_handler s) = 3
rounds (awaits headers_handler s) = 2
rounds (awaits sent_handler s) = 1
rounds _ = 0

abbrev pub budget : Exit → ℕ
budget (awaits request_line_handler s) = 1
budget (awaits headers_handler s) = 1
budget _ = 0

abbrev IsKnown : Service → Type 0
IsKnown s = (text : Bytes) × (http_status_table s.response_status_code ≡ some text)

-- A pending service has a status that the table knows; none ends in `at` or in an endless loop.
abbrev pub IsFine : Exit → Type 0
IsFine (awaits h s) = IsKnown s
IsFine deleted = Unit
IsFine (faulted f) = (f ≢ out_of_range) × (f ≢ endless_loop) × (f ≢ assertion)

pub record Within (n b : ℕ) (o : Outcome) : Type 0 where
  pub fine : IsFine o.exit
  pub sooner : rounds o.exit < n
  pub within : writes o.actions + budget o.exit ≤ b

shutdown_then-Within :
    (w : World) (side : Side) (n b : ℕ) (next : Outcome)
    → 0 < n
    → Within n b next
    → Within n b (shutdown_then w side next)
unfolding shutdown_then writes
shutdown_then-Within w side n b next h v = ground arith

write_response-Within :
    (s : Service) (text : Bytes)
    → http_status_table s.response_status_code ≡ some text
    → Within 2 1 (write_response s (some text))
unfolding write_response writes
write_response-Within s text k = record {
  fine = (text, k);
  sooner = omega arith;
  within = omega arith;
}

send_response-Within : (w : World) (s : Service) → IsKnown s → Within 2 1 (send_response w s)
unfolding send_response
send_response-Within w s (text, k) =
    shutdown_then-Within w Side.shutdown_receive 2 1 _ (omega arith)
      (rw k (write_response-Within s text k))

on_finish-Within : Within 2 1 on_finish
unfolding writes
on_finish-Within = record { fine = tt; sooner = omega arith; within = omega arith }

log-Within : (n b : ℕ) (ec : ErrorCode) (o : Outcome) → Within n b o → Within n b (act (log ec) o)
unfolding writes
log-Within n b ec o v = ground arith

pub Within-mono : {m n b : ℕ} {o : Outcome} → m ≤ n → Within m b o → Within n b o
Within-mono h v = record { fine = v.fine; sooner = omega arith; within = v.within }

answer_known :
    (w : World) (s : Service) (code : ℕ) {text : Bytes}
    → http_status_table code ≡ some text
    → Within 2 1 (send_response w (record s { response_status_code = code }))
answer_known w s code {text} h =
    send_response-Within w (record s { response_status_code = code }) (text, h)

-- Whatever `error_check` did, or else `next`.
checked-Within :
    (e : Errors) (w : World) (ec : ErrorCode) (s : Service) (n : ℕ) (next : Outcome)
    → 2 ≤ n
    → Within n 1 next
    → Within n 1 (checked (error_check e w ec s) next)
unfolding error_check http_status_table
checked-Within e w ec s n next h v = elim (Bool-cases (failed ec)) [
  | inl bad ↦ rw bad (
      log-Within n 1 ec _ (
        if_both (Within n 1) (code_eq ec e.not_found) (Within-mono h (answer_known w s 413 refl))
          (Within-mono h on_finish-Within)))
  | inr fine ↦ rw fine v
]

await_headers-Within :
    (s : Service)
    → IsKnown s
    → Within 3 1 (act (read_until (crlf ++ crlf)) (stop (awaits headers_handler s)))
unfolding writes
await_headers-Within s k = record { fine = k; sooner = omega arith; within = omega arith }

check_version-Within :
    (w : World) (s : Service) (version : Bytes) → IsKnown s → Within 3 1 (check_version w s version)
unfolding check_version http_status_table
check_version-Within w s version k =
    if_both (Within 3 1) (not (bytes_eq version http_version))
      (Within-mono (omega arith) (answer_known w s 505 refl)) (await_headers-Within s k)

check_request_line-Within :
    (w : World) (s : Service) (line : Bytes) → IsKnown s → Within 3 1 (check_request_line w s line)
unfolding check_request_line http_status_table
check_request_line-Within w s line k =
    let (request_method, line_stream) = extract_word [] (open_stream line) in
    let (resource, line_stream') = extract_word s.requested_resource line_stream in
    if_both (Within 3 1) (not (bytes_eq request_method get_method))
      (Within-mono (omega arith) (answer_known w s 501 refl))
      (check_version-Within w (record s { requested_resource = resource })
        (extract_word [] line_stream').0 k)

read_request_line-Within :
    (w : World) (s : Service) → IsKnown s → Within 3 1 (read_request_line w s)
unfolding read_request_line
read_request_line-Within w s k = check_request_line-Within w _ _ k

abbrev ProcessedFine : Processed → Type 0
ProcessedFine (processed s) = IsKnown s
ProcessedFine (crashed f) = f ≡ null_write

store_file-Fine :
    (s : Service) (size : ℕ) (r : Option (Option Bytes))
    → IsKnown s
    → ProcessedFine (store_file s size r)
unfolding store_file
store_file-Fine s size none k = refl
store_file-Fine s size (some buffer) k = k

send_file-Fine : (s : Service) (o : Option Bytes) → IsKnown s → ProcessedFine (send_file s o)
unfolding send_file http_status_table
send_file-Fine s none k = (_, refl)
send_file-Fine s (some content) k = store_file-Fine s (length content) _ k

process_request-Fine : (w : World) (s : Service) → IsKnown s → ProcessedFine (process_request w s)
unfolding process_request http_status_table
process_request-Fine w s k =
    if_both ProcessedFine (not (w.exists (root ++ s.requested_resource))) (_, refl)
      (send_file-Fine s _ k)

respond-Within : (w : World) (p : Processed) → ProcessedFine p → Within 2 1 (respond w p)
unfolding respond writes
respond-Within w (processed s) k = send_response-Within w s k
respond-Within w (crashed f) k = record {
  fine = (λ q. cc, λ q. cc, λ q. cc);
  sooner = omega arith;
  within = omega arith;
}

finish_headers-Within :
    (w : World) (s : Service) {l : Option HeaderLoop} (l' : HeaderLoop)
    → l ≡ some l'
    → IsKnown s
    → Within 2 1 (finish_headers w s l)
unfolding finish_headers
finish_headers-Within w s l' e k = rw e (respond-Within w _ (process_request-Fine w _ k))

on_headers_received-Within :
    (e : Errors) (w : World) (ec : ErrorCode) (s : Service)
    → IsKnown s
    → Within 2 1 (on_headers_received e w ec s)
unfolding on_headers_received
on_headers_received-Within e w ec s k =
    let (l, loop, _) =
      header_loop_total (header_fuel s.request) (start_loop s.request s.request_headers) s.request
        refl (omega arith) in
    checked-Within e w ec s 2 _ (omega arith) (finish_headers-Within w s l loop k)

on_response_sent-Within : (w : World) (ec : ErrorCode) → Within 1 0 (on_response_sent w ec)
unfolding on_response_sent
on_response_sent-Within w ec =
    let next =
      shutdown_then-Within w Side.shutdown_both 1 0 on_finish (omega arith)
        (record { fine = tt; sooner = omega arith; within = unfold writes in omega arith }) in
    if_both (Within 1 0) (failed ec) (log-Within 1 0 ec _ next) next

pub dispatch-Within :
    (e : Errors) (w : World) (h : Handler) (s : Service) (c : Completion)
    → IsKnown s
    → Within (rounds (awaits h s)) (budget (awaits h s)) (dispatch e w h s c)
unfolding dispatch on_request_line_received
dispatch-Within e w request_line_handler s c k =
    checked-Within e w c.ec _ 3 _ (omega arith) (read_request_line-Within w _ k)
dispatch-Within e w headers_handler s c k = on_headers_received-Within e w c.ec _ k
dispatch-Within e w sent_handler s c k = on_response_sent-Within w c.ec
