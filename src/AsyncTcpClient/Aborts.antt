-- ===== src/AsyncTcpClient/Aborts.antt =====
-- What a cancelled request reports in any run of the client.
use boost_asio_study.Asio.{ErrorCode, Errors, IsErrors, Completion, failed}
use boost_asio_study.AsyncTcpClient.{
  Session, Handler, connected_handler, written_handler, read_handler, Action, call_back, Outcome,
  on_request_complete, unless_done, on_connected, on_written, on_read, dispatch, Running, Client,
  Result, tag, new_client, new_session, emulate_long_computation_op, cancel_request, cancel_found,
  cancel_session, complete, complete_at, complete_pending, store, shutdown_both, erase,
}
use boost_asio_study.AsyncTcpClient.Results.{cancelled_aborts}
use boost_asio_study.AsyncTcpClient.Runs.{Event, requests, cancels, completes, step, run}
use boost_asio_study.Base.{
  ◌∙◌, subst, ℕ, true, false, List, [], ◌∷◌, Option, none, some, ◌≡◌, ◌==◌, refl, arith, get_elem?,
  set, length, get_elem?-set, get_elem?-append, if◌then◌else◌, if_both, Option-cases, inl, inr, ap,
}
use boost_asio_study.IdMap.{find_id}

-- While an operation is pending for a session no error has been stored in it.
abbrev CleanPending : Option Handler → Session → Type 0
CleanPending none s = Unit
CleanPending (some h) s = failed s.ec ≡ false

abbrev Clean : Option Running → Type 0
Clean none = Unit
Clean (some r) = CleanPending r.pending r.session

record IsClean (c : Client) : Type 0 where
  clean : (i : ℕ) → Clean (get_elem? c.sessions i)

abbrev CleanOutcome : Outcome → Type 0
CleanOutcome o = CleanPending o.pending o.session

complete-CleanOutcome : (e : Errors) (s : Session) → CleanOutcome (on_request_complete e s)
unfolding on_request_complete
complete-CleanOutcome e s = tt

unless_done-CleanOutcome :
    (e : Errors) (ec : ErrorCode) (s : Session) (a : Action) (h : Handler)
    → failed s.ec ≡ false
    → CleanOutcome (unless_done e ec s a h)
unfolding unless_done
unless_done-CleanOutcome e ec s a h fine =
    if_both {A = Outcome} CleanOutcome (failed ec) (complete-CleanOutcome e (record s { ec = ec }))
      (if_both {A = Outcome} CleanOutcome s.was_cancelled (complete-CleanOutcome e s) fine)

dispatch-CleanOutcome :
    (e : Errors) (h : Handler) (c : Completion) (s : Session)
    → failed s.ec ≡ false
    → CleanOutcome (dispatch e h c s)
unfolding dispatch on_connected on_written on_read
dispatch-CleanOutcome e connected_handler c s fine = unless_done-CleanOutcome e c.ec s _ _ fine
dispatch-CleanOutcome e written_handler c s fine = unless_done-CleanOutcome e c.ec s _ _ fine
dispatch-CleanOutcome e read_handler c s fine =
    if_both {A = Outcome} CleanOutcome (failed c.ec) (complete-CleanOutcome e _)
      (complete-CleanOutcome e _)

emulate-IsClean :
    (e : Errors) (documented : IsErrors e) (opened : ErrorCode) (d k : ℕ) (c : Client)
    → IsClean c
    → IsClean (emulate_long_computation_op e opened d k c).client
unfolding emulate_long_computation_op new_session
emulate-IsClean e documented opened d k c v =
    if_both {A = Result} (λ r. IsClean r.client) (failed opened) v
      (record {
        clean = λ i. rw (get_elem?-append c.sessions i _) (
            if_both Clean (length c.sessions == i) (ground (arith, documented.success_value))
              (v.clean i));
      })

set-IsClean :
    (c c' : Client) (j : ℕ) (old new : Running)
    → IsClean c
    → get_elem? c.sessions j ≡ some old
    → CleanPending new.pending new.session
    → c'.sessions ≡ set c.sessions j new
    → IsClean c'
set-IsClean c c' j old new v found fine q = record {
  clean = λ i.
      rw q
        (rw (get_elem?-set c.sessions j i new old found) (if_both Clean (j == i) fine (v.clean i)));
}

marked_clean :
    (p : Option Handler) (s : Session)
    → CleanPending p s
    → CleanPending p (record s { was_cancelled = true })
marked_clean none s h = tt
marked_clean (some k) s h = h

cancel-IsClean :
    (cancelled : ErrorCode) (k : ℕ) (c : Client)
    → IsClean c
    → IsClean (cancel_request cancelled k c).client
unfolding cancel_request cancel_found cancel_session
cancel-IsClean cancelled k c v = elim (Option-cases (find_id k c.active)) [
  | inl missing ↦ rw missing v
  | inr (j, found) ↦ rw found (elim (Option-cases (get_elem? c.sessions j)) [
    | inl missing ↦ rw missing v
    | inr (r, there) ↦ rw there (
        set-IsClean c _ j r _ v there
          (marked_clean r.pending r.session (subst Clean there (v.clean j))) refl)
  ])
]

pending-IsClean :
    (e : Errors) (c : Client) (j : ℕ) (r : Running) (p : Option Handler) (completion : Completion)
    → IsClean c
    → get_elem? c.sessions j ≡ some r
    → CleanPending p r.session
    → IsClean (complete_pending e j p completion r.session c).client
unfolding complete_pending store
pending-IsClean e c j r none completion v found fine = v
pending-IsClean e c j r (some h) completion v found fine =
    set-IsClean c _ j r _ v found (dispatch-CleanOutcome e h completion r.session fine) refl

complete-IsClean :
    (e : Errors) (j : ℕ) (completion : Completion) (c : Client)
    → IsClean c
    → IsClean (complete e j completion c).client
unfolding complete complete_at
complete-IsClean e j completion c v = elim (Option-cases (get_elem? c.sessions j)) [
  | inl missing ↦ rw missing v
  | inr (r, there) ↦
      rw there
        (pending-IsClean e c j r r.pending completion v there (subst Clean there (v.clean j)))
]

run-IsClean :
    (e : Errors) (documented : IsErrors e) (events : List Event) (c : Client)
    → IsClean c
    → IsClean (run e events c)
unfolding run step
run-IsClean e documented [] c v = v
run-IsClean e documented (requests opened d k ∷ events) c v =
    run-IsClean e documented events _ (emulate-IsClean e documented opened d k c v)
run-IsClean e documented (cancels cancelled k ∷ events) c v =
    run-IsClean e documented events _ (cancel-IsClean cancelled k c v)
run-IsClean e documented (completes j completion ∷ events) c v =
    run-IsClean e documented events _ (complete-IsClean e j completion c v)

complete_pending_lem :
    (e : Errors) (c : Client) (i : ℕ) (r : Running) (h : Handler) (completion : Completion)
    → get_elem? c.sessions i ≡ some r
    → r.pending ≡ some h
    → (complete e i completion c).trace ≡ tag i (dispatch e h completion r.session).actions
unfolding complete complete_at complete_pending store
complete_pending_lem e c i r h completion found waiting = rw found (rw waiting)

-- After any run of the client: if an operation is pending for a session that was cancelled, and
-- that operation completes, then the socket is shut down, the session leaves the map, and the callback
-- is called, with the error of that operation if it failed and else with `operation_aborted`; and
-- no further operation is started.
pub cancelled_reported :
    (e : Errors) (documented : IsErrors e) (events : List Event) (i : ℕ) (r : Running) (h : Handler)
    (completion : Completion)
    → get_elem? (run e events new_client).sessions i ≡ some r
    → r.pending ≡ some h
    → r.session.was_cancelled ≡ true
    → (complete e i completion (run e events new_client)).trace
      ≡ tag i (
          shutdown_both
          ∷ erase r.session.id
          ∷ call_back r.session.id
              (dispatch e h completion r.session).session.response
              (if failed completion.ec then completion.ec else e.operation_aborted)
          ∷ [])
cancelled_reported e documented events i r h completion found waiting marked =
    let c : Client = run e events new_client in
    let v = run-IsClean e documented events new_client (record { clean = λ j. tt }) in
    let clean : CleanPending r.pending r.session = subst Clean found (v.clean i) in
    let fine : failed r.session.ec ≡ false = subst (λ p. CleanPending p r.session) waiting clean in
    complete_pending_lem e c i r h completion found waiting
    ∙ ap (tag i) (cancelled_aborts e h completion r.session marked fine).1
