-- ===== src/AsyncTcpClient/Callbacks.antt =====
-- How often the callback of a session is called.
use boost_asio_study.Asio.{ErrorCode, Errors, Completion, failed}
use boost_asio_study.Base.{
  get_elem?-length, ℕ, suc, ◌+◌, List, [], ◌∷◌, ◌++◌, Option, none, some, ◌≡◌, refl, arith,
  get_elem?, set, get_elem?-set, ap, length, get_elem?-append, ◌==◌, if◌then◌else◌, if_both,
  Option-cases, inl, inr,
}
use boost_asio_study.AsyncTcpClient.{
  Session, Handler, connected_handler, written_handler, read_handler, Action, call_back, Outcome,
  on_request_complete, unless_done, on_connected, on_written, on_read, dispatch, Running, Client,
  Result, Trace, tag, new_client, emulate_long_computation_op, cancel_request, cancel_found,
  cancel_session, connect, cancel_socket, open_socket, complete, complete_at, complete_pending,
  store,
}
use boost_asio_study.AsyncTcpClient.Runs.{Event, requests, cancels, completes, step, run, trace_of}
use boost_asio_study.IdMap.{find_id}

unfoldable pub calls : List Action → ℕ
calls [] = 0
calls (call_back id response ec ∷ rest) = suc (calls rest)
calls (_ ∷ rest) = calls rest

-- The calls for the session at a position.
unfoldable pub callbacks_at : ℕ → Trace → ℕ
unfolding calls
callbacks_at i [] = 0
callbacks_at i ((j, a) ∷ rest) = (if i == j then calls (a ∷ []) else 0) + callbacks_at i rest

-- 1 for a session with nothing pending.
abbrev pub over : Option Handler → ℕ
over none = 1
over (some h) = 0

abbrev pub over_at : Option Running → ℕ
over_at none = 0
over_at (some r) = over r.pending

record IsCounted (o : Outcome) : Type 0 where
  counted : calls o.actions ≡ over o.pending

on_request_complete-IsCounted : (e : Errors) (s : Session) → IsCounted (on_request_complete e s)
unfolding on_request_complete calls
on_request_complete-IsCounted e s = record { counted = refl }

unless_done-IsCounted :
    (e : Errors) (ec : ErrorCode) (s : Session) (a : Action) (h : Handler)
    → calls (a ∷ []) ≡ 0
    → IsCounted (unless_done e ec s a h)
unfolding unless_done
unless_done-IsCounted e ec s a h z =
    if_both IsCounted (failed ec) (on_request_complete-IsCounted e _) (
      if_both IsCounted s.was_cancelled (on_request_complete-IsCounted e s)
        (record { counted = z }))

dispatch-IsCounted :
    (e : Errors) (h : Handler) (c : Completion) (s : Session) → IsCounted (dispatch e h c s)
unfolding dispatch on_connected on_written on_read calls
dispatch-IsCounted e connected_handler c s = unless_done-IsCounted e c.ec s _ _ refl
dispatch-IsCounted e written_handler c s = unless_done-IsCounted e c.ec s _ _ refl
dispatch-IsCounted e read_handler c s =
    if_both IsCounted (failed c.ec) (on_request_complete-IsCounted e _)
      (on_request_complete-IsCounted e _)

calls_cons : (a : Action) (rest : List Action) → calls (a ∷ rest) ≡ calls (a ∷ []) + calls rest
unfolding calls
calls_cons (call_back id response ec) rest = omega arith
calls_cons _ rest = omega arith

callbacks_at-tag :
    (i j : ℕ) (actions : List Action)
    → callbacks_at i (tag j actions) ≡ (if i == j then calls actions else 0)
unfolding callbacks_at calls
callbacks_at-tag i j [] = ground arith
callbacks_at-tag i j (a ∷ rest) = ground (arith, callbacks_at-tag i j rest, calls_cons a rest)

callbacks_at-append :
    (i : ℕ) (xs ys : Trace) → callbacks_at i (xs ++ ys) ≡ callbacks_at i xs + callbacks_at i ys
unfolding callbacks_at
callbacks_at-append i [] ys = omega arith
callbacks_at-append i ((j, a) ∷ xs) ys = omega (arith, callbacks_at-append i xs ys)

-- What a call adds to the callbacks of a session is what it changes of its being over.
abbrev Balanced : ℕ → List Running → Trace → List Running → Type 0
Balanced i before trace after =
    callbacks_at i trace + over_at (get_elem? before i) ≡ over_at (get_elem? after i)

unchanged-Balanced : (i : ℕ) (xs : List Running) → Balanced i xs [] xs
unfolding callbacks_at
unchanged-Balanced i xs = omega arith

appended-Balanced :
    (r : Running) (i : ℕ) (xs : List Running)
    → over r.pending ≡ 0
    → Balanced i xs (tag (length xs) (open_socket ∷ connect ∷ [])) (xs ++ r ∷ [])
unfolding callbacks_at calls
appended-Balanced r i xs h = ground (arith, get_elem?-length xs, get_elem?-append xs i r)

emulate-Balanced :
    (e : Errors) (opened : ErrorCode) (d k i : ℕ) (c : Client)
    → let r = emulate_long_computation_op e opened d k c in
      Balanced i c.sessions r.trace r.client.sessions
unfolding emulate_long_computation_op
emulate-Balanced e opened d k i c =
    if_both {A = Result} (λ r. Balanced i c.sessions r.trace r.client.sessions) (failed opened)
      (unchanged-Balanced i c.sessions) (appended-Balanced _ i c.sessions refl)

-- A session is replaced by one of which the same operation, or none, is pending.
set-Balanced :
    (i j : ℕ) (actions : List Action) (old new : Running) (xs : List Running)
    → get_elem? xs j ≡ some old
    → calls actions + over old.pending ≡ over new.pending
    → Balanced i xs (tag j actions) (set xs j new)
set-Balanced i j actions old new xs h z =
    ground (arith, callbacks_at-tag i j actions, get_elem?-set xs j i new old h)

cancel-Balanced :
    (cancelled : ErrorCode) (k i : ℕ) (c : Client)
    → let r = cancel_request cancelled k c in Balanced i c.sessions r.trace r.client.sessions
unfolding cancel_request cancel_found cancel_session calls
cancel-Balanced cancelled k i c = elim (Option-cases (find_id k c.active)) [
  | inl missing ↦ rw missing (unchanged-Balanced i c.sessions)
  | inr (j, found) ↦ rw found (elim (Option-cases (get_elem? c.sessions j)) [
    | inl missing ↦ rw missing (unchanged-Balanced i c.sessions)
    | inr (r, here) ↦
        rw here (set-Balanced i j (cancel_socket ∷ []) r _ c.sessions here (omega arith))
  ])
]

pending-Balanced :
    (e : Errors) (i j : ℕ) (r : Running) (p : Option Handler) (completion : Completion) (c : Client)
    → get_elem? c.sessions j ≡ some r
    → r.pending ≡ p
    → let r = complete_pending e j p completion r.session c in
      Balanced i c.sessions r.trace r.client.sessions
unfolding complete_pending store
pending-Balanced e i j r none completion c here q = unchanged-Balanced i c.sessions
pending-Balanced e i j r (some h) completion c here q =
    set-Balanced i j _ r _ c.sessions here
      (omega (arith, ap over q, (dispatch-IsCounted e h completion r.session).counted))

step-Balanced :
    (e : Errors) (event : Event) (i : ℕ) (c : Client)
    → let r = step e event c in Balanced i c.sessions r.trace r.client.sessions
unfolding step complete complete_at
step-Balanced e (requests opened d k) i c = emulate-Balanced e opened d k i c
step-Balanced e (cancels cancelled k) i c = cancel-Balanced cancelled k i c
step-Balanced e (completes j completion) i c = elim (Option-cases (get_elem? c.sessions j)) [
  | inl missing ↦ rw missing (unchanged-Balanced i c.sessions)
  | inr (r, here) ↦ rw here (pending-Balanced e i j r r.pending completion c here refl)
]

run-Balanced :
    (e : Errors) (events : List Event) (i : ℕ) (c : Client)
    → Balanced i c.sessions (trace_of e events c) (run e events c).sessions
unfolding run trace_of
run-Balanced e [] i c = unchanged-Balanced i c.sessions
run-Balanced e (event ∷ events) i c =
    let r = step e event c in
    omega (
      arith,
      step-Balanced e event i c,
      run-Balanced e events i r.client,
      callbacks_at-append i r.trace (trace_of e events r.client),
    )

-- For every run of a client, with any calls, cancellations and completions in any order, with
-- any errors: the callback of a session has been called exactly once if nothing is pending for it,
-- and not at all while an operation is; and no callback is called for a session that is not there.
pub session_callbacks :
    (e : Errors) (events : List Event) (i : ℕ)
    → callbacks_at i (trace_of e events new_client)
      ≡ over_at (get_elem? (run e events new_client).sessions i)
session_callbacks e events i = omega (arith, run-Balanced e events i new_client)
