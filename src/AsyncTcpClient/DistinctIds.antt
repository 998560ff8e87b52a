-- ===== src/AsyncTcpClient/DistinctIds.antt =====
-- Requests under different ids, and what that means for `main`.
use boost_asio_study.Asio.{ErrorCode, Errors, Completion, failed}
use boost_asio_study.Base.{
  length, ℕ, List, [], ◌∷◌, Option, none, some, ◌≡◌, ◌≢◌, refl, arith, get_elem?, All, if_both,
  Option-cases, inl, inr,
}
use boost_asio_study.AsyncTcpClient.{
  Handler, dispatch, Running, Client, Result, new_client, emulate_long_computation_op,
  cancel_request, cancel_found, cancel_session, store, complete, complete_at, complete_pending,
}
use boost_asio_study.AsyncTcpClient.Registry.{
  FreshIds, IsRegistered, active-IsRegistered, dispatch-KeepsId, erase_ended,
}
use boost_asio_study.AsyncTcpClient.Runs.{Event, requests, cancels, completes, step, run}
use boost_asio_study.IdMap.{IdMap, find_id, find_id-assign_id, find_id-erase_id}

-- The ids of the requests, in order.
unfoldable pub requested : List Event → List ℕ
requested [] = []
requested (requests opened d k ∷ events) = k ∷ requested events
requested (event ∷ events) = requested events

-- No id stands in the list twice.
abbrev pub IsDistinct : List ℕ → Type 0
IsDistinct [] = Unit
IsDistinct (k ∷ ks) = All (λ j. j ≢ k) ks × IsDistinct ks

abbrev Absent : Client → ℕ → Type 0
Absent c j = find_id j c.active ≡ none

emulate-Absent :
    (e : Errors) (opened : ErrorCode) (d k j : ℕ) (c : Client)
    → j ≢ k
    → Absent c j
    → Absent (emulate_long_computation_op e opened d k c).client j
unfolding emulate_long_computation_op
emulate-Absent e opened d k j c ne none_yet =
    if_both {A = Result} (λ r. Absent r.client j) (failed opened) none_yet
      (ground (arith, find_id-assign_id k j (length c.sessions) c.active))

cancel-Absent :
    (cancelled : ErrorCode) (k j : ℕ) (c : Client)
    → Absent c j
    → Absent (cancel_request cancelled k c).client j
unfolding cancel_request cancel_found cancel_session
cancel-Absent cancelled k j c none_yet = elim (Option-cases (find_id k c.active)) [
  | inl missing ↦ rw missing none_yet
  | inr (i, found) ↦ rw found (elim (Option-cases (get_elem? c.sessions i)) [
    | inl missing ↦ rw missing none_yet
    | inr (r, here) ↦ rw here none_yet
  ])
]

erase_ended-Absent :
    (p : Option Handler) (k j : ℕ) (m : IdMap)
    → find_id j m ≡ none
    → find_id j (erase_ended p k m) ≡ none
erase_ended-Absent none k j m none_yet = ground (arith, find_id-erase_id k j m)
erase_ended-Absent (some h) k j m none_yet = none_yet

pending-Absent :
    (e : Errors) (i j : ℕ) (r : Running) (p : Option Handler) (completion : Completion) (c : Client)
    → Absent c j
    → Absent (complete_pending e i p completion r.session c).client j
unfolding complete_pending store
pending-Absent e i j r none completion c none_yet = none_yet
pending-Absent e i j r (some h) completion c none_yet =
    let o = dispatch e h completion r.session in
    rw ((dispatch-KeepsId e h completion r.session).erased c.active)
      (erase_ended-Absent o.pending r.session.id j c.active none_yet)

complete-Absent :
    (e : Errors) (i j : ℕ) (completion : Completion) (c : Client)
    → Absent c j
    → Absent (complete e i completion c).client j
unfolding complete complete_at
complete-Absent e i j completion c none_yet = elim (Option-cases (get_elem? c.sessions i)) [
  | inl missing ↦ rw missing none_yet
  | inr (r, here) ↦ rw here (pending-Absent e i j r r.pending completion c none_yet)
]

-- A property of each of some ids that a call keeps.
All-keep :
    (P Q R : ℕ → Type 0) (ks : List ℕ)
    → ((k : ℕ) → R k → P k → Q k)
    → All R ks
    → All P ks
    → All Q ks
All-keep P Q R [] keep r h = tt
All-keep P Q R (k ∷ ks) keep r h = (keep k r.0 h.0, All-keep P Q R ks keep r.1 h.1)

All-map : (P Q : ℕ → Type 0) (ks : List ℕ) → ((k : ℕ) → P k → Q k) → All P ks → All Q ks
All-map P Q [] keep h = tt
All-map P Q (k ∷ ks) keep h = (keep k h.0, All-map P Q ks keep h.1)

distinct-FreshIds :
    (e : Errors) (events : List Event) (c : Client)
    → IsDistinct (requested events)
    → All (Absent c) (requested events)
    → FreshIds e events c
unfolding requested FreshIds step
distinct-FreshIds e [] c d absent = tt
distinct-FreshIds e (requests opened n k ∷ events) c d absent = (
  absent.0,
  distinct-FreshIds e events _ d.1 (
      All-keep (Absent c) (Absent (emulate_long_computation_op e opened n k c).client) (λ j. j ≢ k)
        (requested events) (λ j ne h. emulate-Absent e opened n k j c ne h) d.0 absent.1),
)
distinct-FreshIds e (cancels cancelled k ∷ events) c d absent = distinct-FreshIds e events _ d (
    All-map (Absent c) (Absent (cancel_request cancelled k c).client) (requested events)
      (λ j. cancel-Absent cancelled k j c) absent)
distinct-FreshIds e (completes i completion ∷ events) c d absent = distinct-FreshIds e events _ d (
    All-map (Absent c) (Absent (complete e i completion c).client) (requested events)
      (λ j. complete-Absent e i j completion c) absent)

new_client-Absent : (ks : List ℕ) → All (Absent new_client) ks
unfolding find_id
new_client-Absent [] = tt
new_client-Absent (k ∷ ks) = (refl, new_client-Absent ks)

-- If no two requests are made under the same id, then whatever is cancelled and completes, the map of
-- active sessions holds exactly the sessions with a pending operation, each under its id.
pub distinct-IsRegistered :
    (e : Errors) (events : List Event)
    → IsDistinct (requested events)
    → IsRegistered (run e events new_client)
distinct-IsRegistered e events d =
    active-IsRegistered e events
      (distinct-FreshIds e events new_client d (new_client-Absent (requested events)))
