-- ===== src/AsyncTcpClient/MainRuns.antt =====
-- What `main` leaves when none of its calls throws, whatever completes during its sleeps.
use boost_asio_study.IdMap.{find_id}
use boost_asio_study.Asio.{Errors, Completion, failed}
use boost_asio_study.Base.{
  zero, suc, ◌∙◌, suc, ◌<◌, length-set, inr, inl, Option-cases, length-append, ◌+◌, ℕ, false, List,
  [], ◌∷◌, ◌++◌, none, ◌≡◌, refl, sym, ap, arith, get_elem?, All, append_assoc, subst,
}
use boost_asio_study.AsyncTcpClient.{
  Running, true, some, Handler, Option, Session, find_id, length, Client, Result, new_client,
  emulate_long_computation_op, cancel_request, cancel_found, cancel_session, store, complete,
  complete_at, complete_pending,
}
use boost_asio_study.AsyncTcpClient.Callbacks.{callbacks_at, over_at, session_callbacks}
use boost_asio_study.AsyncTcpClient.DistinctIds.{requested, IsDistinct, distinct-IsRegistered}
use boost_asio_study.AsyncTcpClient.Program.{
  World, completions, main_calls, perform_calls, unless_thrown, main_end, main, returned,
}
use boost_asio_study.AsyncTcpClient.Registry.{IsRegistered, pending_id}
use boost_asio_study.AsyncTcpClient.Runs.{Event, requests, cancels, completes, step, run, trace_of}

-- A call that does not throw.
abbrev Quiet : Event → Type 0
Quiet (requests opened d k) = failed opened ≡ false
Quiet (cancels cancelled k) = failed cancelled ≡ false
Quiet (completes i completion) = Unit

step-Quiet :
    (e : Errors) (event : Event) (c : Client) → Quiet event → (step e event c).thrown ≡ none
unfolding step emulate_long_computation_op cancel_request cancel_found cancel_session complete
    complete_at complete_pending store
step-Quiet e (requests opened d k) c h = rw h
step-Quiet e (cancels cancelled k) c h = ground arith
step-Quiet e (completes i completion) c h = ground arith

-- The calls with what completes between them.
abbrev in_order : List (Event × List Event) → List Event
in_order [] = []
in_order ((call, meanwhile) ∷ calls) = call ∷ (meanwhile ++ in_order calls)

run-append :
    (e : Errors) (xs ys : List Event) (c : Client) → run e (xs ++ ys) c ≡ run e ys (run e xs c)
unfolding run
run-append e [] ys c = refl
run-append e (x ∷ xs) ys c = run-append e xs ys (step e x c).client

trace_of-append :
    (e : Errors) (xs ys : List Event) (c : Client)
    → trace_of e (xs ++ ys) c ≡ trace_of e xs c ++ trace_of e ys (run e xs c)
unfolding run trace_of
trace_of-append e [] ys c = refl
trace_of-append e (x ∷ xs) ys c = rw (trace_of-append e xs ys (step e x c).client) (
    rw (
      append_assoc (step e x c).trace (trace_of e xs (step e x c).client)
        (trace_of e ys (run e xs (step e x c).client))))

abbrev ran : Errors → List Event → Client → Result
ran e events c = record { client = run e events c; trace = trace_of e events c; thrown = none }

perform-Quiet :
    (e : Errors) (calls : List (Event × List Event)) (c : Client)
    → All (λ x. Quiet x.0) calls
    → perform_calls e calls c ≡ ran e (in_order calls) c
unfolding perform_calls run trace_of unless_thrown
perform-Quiet e [] c h = refl
perform-Quiet e ((call, meanwhile) ∷ calls) c h =
    let next = (step e call c).client in
    rw (
      step-Quiet e call c h.0,
      perform-Quiet e calls (run e meanwhile next) h.1,
      run-append e meanwhile (in_order calls) next,
      trace_of-append e meanwhile (in_order calls) next,
    )

requested-append : (xs ys : List Event) → requested (xs ++ ys) ≡ requested xs ++ requested ys
unfolding requested
requested-append [] ys = refl
requested-append (requests opened d k ∷ xs) ys = ap (◌∷◌ k) (requested-append xs ys)
requested-append (cancels cancelled k ∷ xs) ys = requested-append xs ys
requested-append (completes i completion ∷ xs) ys = requested-append xs ys

requested-completions : (xs : List (ℕ × Completion)) → requested (completions xs) ≡ []
unfolding requested
requested-completions [] = refl
requested-completions (x ∷ xs) = requested-completions xs

main_requested : (w : World) → requested (in_order (main_calls w)) ≡ 1 ∷ 2 ∷ 3 ∷ []
unfolding main_calls requested
main_requested w = simp (requested-append, requested-completions)

pending-length :
    (e : Errors) (j : ℕ) (s : Session) (p : Option Handler) (completion : Completion) (c : Client)
    → length (complete_pending e j p completion s c).client.sessions ≡ length c.sessions
unfolding complete_pending store
pending-length e j s none completion c = refl
pending-length e j s (some h) completion c = length-set c.sessions j _

-- A request adds a session, and nothing else changes their number.
step-length :
    (e : Errors) (event : Event) (c : Client)
    → Quiet event
    → length (step e event c).client.sessions ≡ length c.sessions + length (requested (event ∷ []))
unfolding step emulate_long_computation_op cancel_request cancel_found cancel_session complete
    complete_at complete_pending store requested
step-length e (requests opened d k) c h = rw h (length-append c.sessions _)
step-length e (cancels cancelled k) c h = elim (Option-cases (find_id k c.active)) [
  | inl missing ↦ rw missing (omega arith)
  | inr (j, found) ↦ rw found (elim (Option-cases (get_elem? c.sessions j)) [
    | inl missing ↦ rw missing (omega arith)
    | inr (r, here) ↦ rw here (
        omega (
          arith,
          length-set c.sessions j
              (record r { session = record (r.session) { was_cancelled = true } }),
        ))
  ])
]
step-length e (completes j completion) c h = elim (Option-cases (get_elem? c.sessions j)) [
  | inl missing ↦ rw missing (omega arith)
  | inr (r, here) ↦ rw here (omega (arith, pending-length e j r.session r.pending completion c))
]

run-length :
    (e : Errors) (events : List Event) (c : Client)
    → All Quiet events
    → length (run e events c).sessions ≡ length c.sessions + length (requested events)
unfolding run requested
run-length e [] c h = omega arith
run-length e (event ∷ events) c h = omega (
  arith,
  step-length e event c h.0,
  run-length e events (step e event c).client h.1,
  ap length (requested-append (event ∷ []) events),
  length-append (requested (event ∷ [])) (requested events),
)

completions-Quiet :
    (xs : List (ℕ × Completion)) (ys : List Event) → All Quiet ys → All Quiet (completions xs ++ ys)
completions-Quiet [] ys h = h
completions-Quiet (x ∷ xs) ys h = (tt, completions-Quiet xs ys h)

-- Nothing is pending for any session.
abbrev AllOver : List Running → Type 0
AllOver = All (λ r. r.pending ≡ none)

over_at-AllOver :
    (xs : List Running) (i : ℕ) → AllOver xs → i < length xs → over_at (get_elem? xs i) ≡ 1
over_at-AllOver [] i h lt = absurd (omega arith)
over_at-AllOver (x ∷ xs) zero h lt = rw h.0
over_at-AllOver (x ∷ xs) (suc i) h lt = over_at-AllOver xs i h.1 (omega arith)

pending_id-AllOver : (xs : List Running) (i : ℕ) → AllOver xs → pending_id (get_elem? xs i) ≡ none
pending_id-AllOver [] i h = refl
pending_id-AllOver (x ∷ xs) zero h = rw h.0
pending_id-AllOver (x ∷ xs) (suc i) h = pending_id-AllOver xs i h.1

find_id-AllOver :
    (c : Client) (k : ℕ) → IsRegistered c → AllOver c.sessions → find_id k c.active ≡ none
find_id-AllOver c k v h = elim (Option-cases (find_id k c.active)) [
  | inl missing ↦ missing
  | inr (i, found) ↦
      let q : some k ≡ none = sym (v.listed k i found) ∙ pending_id-AllOver c.sessions i h in cc
]

-- If none of the sockets of `main` fails to open and `cancel` does not throw, and by the end of `close`
-- nothing is pending any more, whatever completed until then and in whatever order: `main` returns
-- 0, the map of active sessions is empty, and each of the three requests has called back exactly
-- once.
pub main_returns :
    (e : Errors) (w : World) (k i : ℕ)
    → failed (w.opened 1) ≡ false
    → failed (w.opened 2) ≡ false
    → failed (w.opened 3) ≡ false
    → failed w.cancelled ≡ false
    → AllOver (perform_calls e (main_calls w) new_client).client.sessions
    → i < 3
    → let r = perform_calls e (main_calls w) new_client in
      (main e w ≡ returned 0)
      × (find_id k r.client.active ≡ none)
      × (length r.client.sessions ≡ 3)
      × (callbacks_at i r.trace ≡ 1)
unfolding main main_end main_calls
main_returns e w k i one two three cancel over lt =
    let events = in_order (main_calls w) in
    let all = perform-Quiet e (main_calls w) new_client (one, (two, (cancel, (three, tt)))) in
    let quiet : All Quiet events = (
      one,
      completions-Quiet w.first _
          (two, (cancel, completions-Quiet w.second _ (three, completions-Quiet w.last [] tt))),
    ) in
    let distinct : IsDistinct (requested events) =
      subst IsDistinct (sym (main_requested w)) (omega arith) in
    let c : Client = run e events new_client in
    let over_c : AllOver c.sessions = subst (λ (r : Result). AllOver r.client.sessions) all over in
    let count : length c.sessions ≡ 3 =
      omega (arith, run-length e events new_client quiet, ap length (main_requested w)) in
    rw all (
      refl,
      find_id-AllOver c k (distinct-IsRegistered e events distinct) over_c,
      count,
      session_callbacks e events i ∙ over_at-AllOver c.sessions i over_c (omega (arith, count)),
    )
