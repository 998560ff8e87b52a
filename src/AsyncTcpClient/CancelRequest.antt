-- ===== src/AsyncTcpClient/CancelRequest.antt =====
-- What `cancelRequest` does, and what it does not reach when an id is used twice.
use boost_asio_study.Asio.{ErrorCode, Errors, Completion, failed}
use boost_asio_study.Base.{
  false, true, ◌∙◌, ℕ, [], ◌∷◌, none, some, ◌≡◌, arith, get_elem?, set, get_elem?-set, ◌==◌,
  if◌then◌else◌,
}
use boost_asio_study.AsyncTcpClient.{
  Session, Handler, connected_handler, written_handler, read_handler, Outcome, on_request_complete,
  unless_done, on_connected, on_written, on_read, dispatch, Running, Client, cancel_request,
  cancel_found, cancel_session, cancel_socket, erase_all, complete, complete_at, complete_pending,
  store,
}
use boost_asio_study.IdMap.{IdMap, find_id, find_id-erase_id}
use boost_asio_study.AsyncTcpClient.Registry.{IsRegistered, KeepsId, dispatch-KeepsId}

-- A session on which `m_was_cancelled` is set.
abbrev pub marked : Running → Running
marked r = record r { session = record (r.session) { was_cancelled = true } }

-- In a client whose map is as it should be, `cancelRequest` with the id of a session that has
-- an operation pending marks that session, leaves all the others and the map as they are, and
-- cancels what its socket does.
cancel_marks :
    (c : Client) (v : IsRegistered c) (cancelled : ErrorCode) (i : ℕ) (r : Running) (h : Handler)
    → get_elem? c.sessions i ≡ some r
    → r.pending ≡ some h
    → cancel_request cancelled r.session.id c ≡ record {
      client = record { sessions = set c.sessions i (marked r); active = c.active };
      trace = (i, cancel_socket) ∷ [];
      thrown = if failed cancelled then some cancelled else none;
    }
unfolding cancel_request cancel_found cancel_session
cancel_marks c v cancelled i r h here q =
    let found : find_id r.session.id c.active ≡ some i =
      v.present r.session.id i (rw here (rw q)) in
    rw found (rw here)

failed-dispatch :
    (e : Errors) (h : Handler) (completion : Completion) (s : Session)
    → failed completion.ec ≡ true
    → (dispatch e h completion s).pending ≡ none
unfolding dispatch on_connected on_written on_read unless_done on_request_complete
failed-dispatch e connected_handler completion s bad = rw bad
failed-dispatch e written_handler completion s bad = rw bad
failed-dispatch e read_handler completion s bad = rw bad

-- The end of a session takes its id out of the map.
find_id-ended :
    (k : ℕ) (o : Outcome) (m : IdMap)
    → KeepsId k o
    → o.pending ≡ none
    → find_id k (erase_all o.actions m) ≡ none
find_id-ended k o m keeps ended = ground (arith, keeps.erased m, find_id-erase_id k k m)

-- Two requests that are pending under one id: when an operation of the first one fails, its
-- end takes the id out of the map, and from then on `cancelRequest` with that id does nothing, though
-- the second request still has its operation pending.
pub shared_id_lost :
    (e : Errors) (c : Client) (i j : ℕ) (r s : Running) (h k : Handler) (completion : Completion)
    (cancelled : ErrorCode)
    → (i == j) ≡ false
    → get_elem? c.sessions i ≡ some r
    → get_elem? c.sessions j ≡ some s
    → r.pending ≡ some h
    → s.pending ≡ some k
    → s.session.id ≡ r.session.id
    → failed completion.ec ≡ true
    → let after = (complete e i completion c).client in
      (get_elem? after.sessions j ≡ some s)
      × (cancel_request cancelled s.session.id after
          ≡ record { client = after; trace = []; thrown = none })
unfolding complete complete_at complete_pending store cancel_request cancel_found
shared_id_lost e c i j r s h k completion cancelled ne here there rp sp same bad =
    let o : Outcome = dispatch e h completion r.session in
    let lost =
      find_id-ended r.session.id o c.active (dispatch-KeepsId e h completion r.session)
        (failed-dispatch e h completion r.session bad) in
    rw here (rw rp ((get_elem?-set c.sessions i j _ r here ∙ rw (ne, there), rw (same, lost))))
