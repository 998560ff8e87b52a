-- ===== src/AsyncTcpClient/Registry.antt =====
-- `m_active_sessions`: which sessions are in it, and what that means for `cancelRequest`.
use boost_asio_study.Asio.{ErrorCode, Errors, Completion, failed}
use boost_asio_study.Base.{
  get_elem?-length, ap, ℕ, List, [], ◌∷◌, ◌++◌, Option, none, some, ◌≡◌, refl, arith, get_elem?,
  set, get_elem?-set, get_elem?-append, ◌==◌, if◌then◌else◌, if_both, Option-cases, inl, inr,
  length,
}
use boost_asio_study.AsyncTcpClient.{
  erase_id, Session, Handler, connected_handler, written_handler, read_handler, Action, Outcome,
  on_request_complete, unless_done, on_connected, on_written, on_read, dispatch, Running, Client,
  new_client, emulate_long_computation_op, cancel_request, cancel_found, Result, cancel_session,
  erase_all, new_session, complete, complete_at, complete_pending, store,
}
use boost_asio_study.AsyncTcpClient.Runs.{Event, requests, cancels, completes, step, run}
use boost_asio_study.IdMap.{IdMap, find_id, find_id-assign_id, find_id-erase_id}

-- The id of a session for which an operation is pending.
abbrev pub pending_id : Option Running → Option ℕ
pending_id none = none
pending_id (some r) = elim (r.pending) [ none ↦ none | some h ↦ some r.session.id ]

abbrev id_at : List Running → ℕ → Option ℕ
id_at xs i = pending_id (get_elem? xs i)

-- The map has exactly the sessions with a pending operation, each under its id.
pub record IsRegistered (c : Client) : Type 0 where
  pub listed :
      (k i : ℕ) → find_id k c.active ≡ some i → pending_id (get_elem? c.sessions i) ≡ some k
  pub present :
      (k i : ℕ) → pending_id (get_elem? c.sessions i) ≡ some k → find_id k c.active ≡ some i

-- Each new request has an id that is not in the map.
unfoldable pub FreshIds : Errors → List Event → Client → Type 0
FreshIds e [] c = Unit
FreshIds e (requests opened d k ∷ events) c =
    (find_id k c.active ≡ none) × FreshIds e events (step e (requests opened d k) c).client
FreshIds e (event ∷ events) c = FreshIds e events (step e event c).client

-- A handler's end erases the id of its session, and a handler that goes on erases nothing.
abbrev pub erase_ended : Option Handler → ℕ → IdMap → IdMap
erase_ended none k m = erase_id k m
erase_ended (some h) k m = m

pub record KeepsId (k : ℕ) (o : Outcome) : Type 0 where
  pub kept : o.session.id ≡ k
  pub erased : (m : IdMap) → erase_all o.actions m ≡ erase_ended o.pending k m

complete-KeepsId : (e : Errors) (s : Session) → KeepsId s.id (on_request_complete e s)
unfolding on_request_complete erase_all
complete-KeepsId e s = record { kept = refl; erased = λ m. refl }

unless_done-KeepsId :
    (e : Errors) (ec : ErrorCode) (s : Session) (a : Action) (h : Handler)
    → ((m : IdMap) → erase_all (a ∷ []) m ≡ m)
    → KeepsId s.id (unless_done e ec s a h)
unfolding unless_done
unless_done-KeepsId e ec s a h z =
    if_both (KeepsId s.id) (failed ec) (complete-KeepsId e (record s { ec = ec })) (
      if_both (KeepsId s.id) s.was_cancelled (complete-KeepsId e s)
        (record { kept = refl; erased = z }))

pub dispatch-KeepsId :
    (e : Errors) (h : Handler) (c : Completion) (s : Session) → KeepsId s.id (dispatch e h c s)
unfolding dispatch on_connected on_written on_read erase_all
dispatch-KeepsId e connected_handler c s = unless_done-KeepsId e c.ec s _ _ (λ m. refl)
dispatch-KeepsId e written_handler c s = unless_done-KeepsId e c.ec s _ _ (λ m. refl)
dispatch-KeepsId e read_handler c s =
    let buffered : Session = record s { response_buf = s.response_buf ++ c.received } in
    if_both (KeepsId s.id) (failed c.ec) (complete-KeepsId e (record buffered { ec = c.ec }))
      (complete-KeepsId e (record buffered { response = _ }))

-- The maps that a call leaves: nothing changes, a pending session is dropped, or one is added.
module _ (c c' : Client) (v : IsRegistered c) where
  same-IsRegistered :
      ((i : ℕ) → id_at c'.sessions i ≡ id_at c.sessions i) → c'.active ≡ c.active → IsRegistered c'
  same-IsRegistered hs hm = record {
    listed = λ k i q. ground (arith, hs i, v.listed k i);
    present = λ k i q. ground (arith, hs i, v.present k i);
  }

  dropped-IsRegistered :
      (id j : ℕ)
      → id_at c.sessions j ≡ some id
      → ((i : ℕ) → id_at c'.sessions i ≡ (if j == i then none else id_at c.sessions i))
      → ((k : ℕ) → find_id k c'.active ≡ (if id == k then none else find_id k c.active))
      → IsRegistered c'
  dropped-IsRegistered id j hj hs hm = record {
    listed = λ k i q. ground (arith, hs i, hm k, v.listed k i);
    present = λ k i q. ground (arith, hs i, hm k, v.present k i, v.present id j);
  }

  added-IsRegistered :
      (id j : ℕ)
      → id_at c.sessions j ≡ none
      → find_id id c.active ≡ none
      → ((i : ℕ) → id_at c'.sessions i ≡ (if j == i then some id else id_at c.sessions i))
      → ((k : ℕ) → find_id k c'.active ≡ (if id == k then some j else find_id k c.active))
      → IsRegistered c'
  added-IsRegistered id j hj fresh hs hm = record {
    listed = λ k i q. ground (arith, hs i, hm k, v.listed k i, v.listed k j);
    present = λ k i q. ground (arith, hs i, hm k, v.present k i);
  }

append_pending :
    (c : Client) (i k : ℕ) (new : Running)
    → pending_id (some new) ≡ some k
    → id_at (c.sessions ++ new ∷ []) i
      ≡ (if length c.sessions == i then some k else id_at c.sessions i)
append_pending c i k new q = ground (arith, get_elem?-append c.sessions i new)

emulate-IsRegistered :
    (e : Errors) (opened : ErrorCode) (d k : ℕ) (c : Client)
    → IsRegistered c
    → find_id k c.active ≡ none
    → IsRegistered (emulate_long_computation_op e opened d k c).client
unfolding emulate_long_computation_op new_session
emulate-IsRegistered e opened d k c v fresh =
    if_both {A = Result} (λ r. IsRegistered r.client) (failed opened) v
      (added-IsRegistered c _ v k (length c.sessions) (ap pending_id (get_elem?-length c.sessions))
        fresh (λ i. append_pending c i k _ refl)
        (λ j. find_id-assign_id k j (length c.sessions) c.active))

-- A replaced session keeps its id, and the same operation, or another, is pending for it.
set_pending :
    (c : Client) (j i : ℕ) (old new : Running)
    → get_elem? c.sessions j ≡ some old
    → pending_id (some new) ≡ pending_id (some old)
    → id_at (set c.sessions j new) i ≡ id_at c.sessions i
set_pending c j i old new here q = ground (arith, get_elem?-set c.sessions j i new old here)

set_ended :
    (c : Client) (j i : ℕ) (old new : Running)
    → get_elem? c.sessions j ≡ some old
    → new.pending ≡ none
    → id_at (set c.sessions j new) i ≡ (if j == i then none else id_at c.sessions i)
set_ended c j i old new here q = ground (arith, get_elem?-set c.sessions j i new old here)

cancel-IsRegistered :
    (cancelled : ErrorCode) (k : ℕ) (c : Client)
    → IsRegistered c
    → IsRegistered (cancel_request cancelled k c).client
unfolding cancel_request cancel_found cancel_session
cancel-IsRegistered cancelled k c v = elim (Option-cases (find_id k c.active)) [
  | inl missing ↦ rw missing v
  | inr (j, found) ↦ rw found (elim (Option-cases (get_elem? c.sessions j)) [
    | inl missing ↦ rw missing v
    | inr (r, here) ↦ rw here (same-IsRegistered c _ v (λ i. set_pending c j i r _ here refl) refl)
  ])
]

store-IsRegistered :
    (c : Client) (j : ℕ) (r : Running) (h : Handler) (o : Outcome) (p : Option Handler)
    → IsRegistered c
    → get_elem? c.sessions j ≡ some r
    → r.pending ≡ some h
    → KeepsId r.session.id o
    → o.pending ≡ p
    → IsRegistered (store j o c).client
unfolding store
store-IsRegistered c j r h o none v here before keeps after =
    dropped-IsRegistered c _ v r.session.id j (ground (arith)) (λ i. set_ended c j i r _ here after)
      (λ k. ground (arith, keeps.erased c.active, find_id-erase_id r.session.id k c.active))
store-IsRegistered c j r h o (some h') v here before keeps after =
    same-IsRegistered c _ v (λ i. set_pending c j i r _ here (ground (arith, keeps.kept)))
      (ground (arith, keeps.erased c.active))

pending-IsRegistered :
    (e : Errors) (c : Client) (j : ℕ) (r : Running) (p : Option Handler) (completion : Completion)
    → IsRegistered c
    → get_elem? c.sessions j ≡ some r
    → r.pending ≡ p
    → IsRegistered (complete_pending e j p completion r.session c).client
unfolding complete_pending
pending-IsRegistered e c j r none completion v here q = v
pending-IsRegistered e c j r (some h) completion v here q =
    store-IsRegistered c j r h _ _ v here q (dispatch-KeepsId e h completion r.session) refl

complete-IsRegistered :
    (e : Errors) (j : ℕ) (completion : Completion) (c : Client)
    → IsRegistered c
    → IsRegistered (complete e j completion c).client
unfolding complete complete_at
complete-IsRegistered e j completion c v = elim (Option-cases (get_elem? c.sessions j)) [
  | inl missing ↦ rw missing v
  | inr (r, here) ↦ rw here (pending-IsRegistered e c j r r.pending completion v here refl)
]

run-IsRegistered :
    (e : Errors) (events : List Event) (c : Client)
    → IsRegistered c
    → FreshIds e events c
    → IsRegistered (run e events c)
unfolding run FreshIds step
run-IsRegistered e [] c v fresh = v
run-IsRegistered e (requests opened d k ∷ events) c v fresh =
    run-IsRegistered e events _ (emulate-IsRegistered e opened d k c v fresh.0) fresh.1
run-IsRegistered e (cancels cancelled k ∷ events) c v fresh =
    run-IsRegistered e events _ (cancel-IsRegistered cancelled k c v) fresh
run-IsRegistered e (completes j completion ∷ events) c v fresh =
    run-IsRegistered e events _ (complete-IsRegistered e j completion c v) fresh

new_client-IsRegistered : IsRegistered new_client
unfolding find_id
new_client-IsRegistered = record { listed = λ k i q. cc; present = λ k i q. cc }

-- If every request is made under an id that is not in `m_active_sessions` at that time, then after any
-- run of calls, cancellations and completions the map holds exactly the sessions for which an
-- operation is pending, each under its id.
pub active-IsRegistered :
    (e : Errors) (events : List Event)
    → FreshIds e events new_client
    → IsRegistered (run e events new_client)
active-IsRegistered e events fresh =
    run-IsRegistered e events new_client new_client-IsRegistered fresh
