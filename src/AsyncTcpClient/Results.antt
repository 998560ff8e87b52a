-- ===== src/AsyncTcpClient/Results.antt =====
-- What the callback of a session is called with.
use boost_asio_study.Asio.{ErrorCode, Errors, IsErrors, Completion, failed}
use boost_asio_study.Base.{
  ℕ, List, [], ◌∷◌, ◌++◌, Option, none, some, ◌≡◌, arith, get_elem?-last, set-last, if◌then◌else◌,
  true, false, length, codes, Bytes, Lacks,
}
use boost_asio_study.AsyncTcpClient.{
  assign_id, Session, Handler, connected_handler, written_handler, read_handler, call_back, Outcome,
  on_request_complete, unless_done, on_connected, on_written, on_read, dispatch, Running, Client,
  tag, emulate_long_computation_op, shutdown_both, write, read_until, erase, connect, open_socket,
  erase_all, new_session, request_text, complete, complete_at, complete_pending, store,
}
use boost_asio_study.AsyncTcpClient.Runs.{requests, completes, step, trace_of}
use boost_asio_study.IdMap.{IdMap}
use boost_asio_study.Stream.Laws.{getline_found}

-- Once a request is cancelled, whatever is pending completes last: the socket is shut down,
-- the session leaves the map, and the callback is called, with the error of that operation if
-- it failed and else with `operation_aborted`.
pub cancelled_aborts :
    (e : Errors) (h : Handler) (completion : Completion) (s : Session)
    → s.was_cancelled ≡ true
    → failed s.ec ≡ false
    → let o = dispatch e h completion s in
      (o.pending ≡ none)
      × (o.actions
          ≡ shutdown_both
            ∷ erase s.id
            ∷ call_back s.id o.session.response
                (if failed completion.ec then completion.ec else e.operation_aborted)
            ∷ [])
unfolding dispatch on_connected on_written on_read unless_done on_request_complete
cancelled_aborts e connected_handler completion s marked fine = ground arith
cancelled_aborts e written_handler completion s marked fine = ground arith
cancelled_aborts e read_handler completion s marked fine = ground arith

-- A client whose last session is as given.
abbrev with_last : List Running → Session → Option Handler → IdMap → Client
with_last xs s p active = record {
  sessions = xs ++ record { session = s; pending = p } ∷ [];
  active = active;
}

complete-last :
    (e : Errors) (xs : List Running) (active : IdMap) (s : Session) (h : Handler)
    (completion : Completion) (o : Outcome)
    → dispatch e h completion s ≡ o
    → complete e (length xs) completion (with_last xs s (some h) active) ≡ record {
      client = with_last xs o.session o.pending (erase_all o.actions active);
      trace = tag (length xs) o.actions;
      thrown = none;
    }
unfolding complete complete_at complete_pending store
complete-last e xs active s h completion o q =
    let old : Running = record { session = s; pending = some h } in
    rw (get_elem?-last xs old)
      (rw q (rw (set-last xs old (record { session = o.session; pending = o.pending }))))

module _ (e : Errors) (request : Bytes) (id : ℕ) where
  abbrev fresh : Session
  fresh = new_session e request id

  dispatch_connected :
      (c : Completion)
      → failed c.ec ≡ false
      → dispatch e connected_handler c fresh
        ≡ record { session = fresh; pending = some written_handler; actions = write request ∷ [] }
  unfolding dispatch on_connected unless_done new_session
  dispatch_connected c fine = rw fine

  dispatch_written :
      (c : Completion)
      → failed c.ec ≡ false
      → dispatch e written_handler c fresh ≡ record {
        session = fresh;
        pending = some read_handler;
        actions = read_until (codes "\n") ∷ [];
      }
  unfolding dispatch on_written unless_done new_session
  dispatch_written c fine = rw fine

  dispatch_read :
      (c : Completion) (line rest : Bytes)
      → failed c.ec ≡ false
      → failed e.success ≡ false
      → Lacks b'\n' line
      → c.received ≡ line ++ b'\n' ∷ rest
      → dispatch e read_handler c fresh ≡ record {
        session = record fresh { response_buf = line ++ b'\n' ∷ rest; response = line };
        pending = none;
        actions = shutdown_both ∷ erase id ∷ call_back id line e.success ∷ [];
      }
  unfolding dispatch on_read on_request_complete new_session
  dispatch_read c line rest fine success lacks arrived =
      rw fine (rw arrived (rw (getline_found b'\n' [] line rest lacks) (rw success)))

-- A request that is neither cancelled nor fails: it writes its text, reads to the end of the line,
-- leaves the map, and gives its callback the first line that arrived, without the newline, and no error;
-- what arrives behind the newline is ignored. This holds from any state of the client.
pub request_answered :
    (e : Errors) (documented : IsErrors e) (c : Client) (opened : ErrorCode) (duration_sec id : ℕ)
    (connected written read : Completion) (line rest : Bytes)
    → failed opened ≡ false
    → failed connected.ec ≡ false
    → failed written.ec ≡ false
    → failed read.ec ≡ false
    → Lacks b'\n' line
    → read.received ≡ line ++ b'\n' ∷ rest
    → let i = length c.sessions in
      trace_of e
        (requests opened duration_sec id
          ∷ completes i connected
          ∷ completes i written
          ∷ completes i read
          ∷ [])
        c
      ≡ tag i (
          open_socket
          ∷ connect
          ∷ write (request_text duration_sec)
          ∷ read_until (codes "\n")
          ∷ shutdown_both
          ∷ erase id
          ∷ call_back id line e.success
          ∷ [])
unfolding trace_of step emulate_long_computation_op erase_all
request_answered e documented c opened d id connected written read line rest open_ok connected_ok
      written_ok read_ok lacks arrived =
    let request = request_text d in
    let success : failed e.success ≡ false = ground (arith, documented.success_value) in
    let active = assign_id id (length c.sessions) c.active in
    let last = complete-last e c.sessions active (new_session e request id) in
    rw open_ok (
      rw
        (last connected_handler connected _
          (dispatch_connected e request id connected connected_ok))
        (rw (last written_handler written _ (dispatch_written e request id written written_ok)) (
          rw (
            last read_handler read _
              (dispatch_read e request id read line rest read_ok success lacks arrived)))))
