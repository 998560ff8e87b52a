-- ===== src/LoopServer/Silent.antt =====
-- A client of a synchronous server that sends nothing, and its connection does not end.
use boost_asio_study.Asio.{ErrorCode, Errors, failed}
use boost_asio_study.Base.{
  ◌∙◌, true, false, List, [], ◌∷◌, ◌++◌, map, ◌≡◌, refl, All, ap, append_assoc, codes, Bool-cases,
  inl, inr,
}
use boost_asio_study.Calls.{perform, passes, end_by, read_until, waits, exited}
use boost_asio_study.LoopServer.{
  Handled, handle_client, handle_client_parallel, Round, waiting, serve, serve_parallel, main_end,
}
use boost_asio_study.LoopServer.Clients.{
  Accepts, add_all, serve-append, serve-unfinished, handle_client_kept, handle_client_parallel_kept,
}
use boost_asio_study.LoopServer.Stops.{stopped_after, serve_parallel-stop}

-- The results of the calls for a client, up to the first error, or of both calls.
abbrev pub Ends : List ErrorCode → Type 0
Ends [] = ⊥
Ends (read ∷ []) = failed read ≡ true
Ends (read ∷ written ∷ results) = Unit

-- What the loop server makes of a client that sends nothing, and no end of its connection.
abbrev pub silent_service : Handled
silent_service = record {
  made = read_until (codes "\n") ∷ [];
  finished = false;
  escaped = false;
  deleted = false;
}

silent_lem : (e : Errors) → handle_client e [] ≡ silent_service
unfolding handle_client perform
silent_lem e = refl

-- A service one of whose calls has an error, or all of whose calls return, has returned.
ended_lem :
    (e : Errors) (results : List ErrorCode)
    → Ends results
    → (handle_client e results).finished ≡ true
unfolding handle_client perform passes end_by
ended_lem e [] h = elim h [ ]
ended_lem e (ec ∷ []) h = rw h refl
ended_lem e (read ∷ written ∷ results) h = elim (Bool-cases (failed read)) [
  | inl bad ↦ rw bad refl
  | inr good ↦ elim (Bool-cases (failed written)) [
    | inl bad ↦ rw good (rw bad refl)
    | inr fine ↦ rw good (rw fine refl)
  ]
]

append-Accepts :
    (before after : List Round)
    → All Accepts before
    → All Accepts after
    → All Accepts (before ++ after)
append-Accepts [] after acc later = later
append-Accepts (round ∷ before) after acc later = (acc.0, append-Accepts before after acc.1 later)

rounds_ended :
    (e : Errors) (rounds : List Round)
    → All (λ r. Ends r.client) rounds
    → All (λ r. (handle_client e r.client).finished ≡ true) rounds
rounds_ended e [] h = tt
rounds_ended e (round ∷ rounds) h = (ended_lem e round.client h.0, rounds_ended e rounds h.1)

-- A client that sends nothing, behind clients whose calls have each an error or all return, and in
-- front of any clients, with a stop that would be seen after them. The loop server handles the
-- clients before, in order, goes on after those with errors too, reads from the silent client, and
-- waits: no later client is handled, and `main` waits in `join`. The parallel server handles the
-- silent one and all the others, each as it would alone, and its `main` returns 0.
pub client_blocks :
    (e : Errors) (before after rest : List Round) (silent last : Round)
    → All (λ r. Ends r.client) before
    → silent.client ≡ []
    → All Accepts before
    → Accepts silent
    → All Accepts after
    → last.stop ≡ true
    → let rounds = (before ++ silent ∷ after) ++ last ∷ rest in
      let loop = serve (handle_client e) rounds in
      let parallel = serve_parallel (handle_client_parallel e) rounds in
      (loop ≡ record {
        handled = map (λ r. handle_client e r.client) before ++ silent_service ∷ [];
        end = waiting;
      })
      × (main_end loop ≡ waits)
      × (parallel ≡ stopped_after (handle_client_parallel e) (before ++ silent ∷ after))
      × (main_end parallel ≡ exited 0)
client_blocks e before after rest silent last done sends_none acc takes later stop =
    let quiet : handle_client e silent.client ≡ silent_service =
      ap (handle_client e) sends_none ∙ silent_lem e in
    let loop =
      ap (serve (handle_client e)) (append_assoc before (silent ∷ after) (last ∷ rest))
      ∙ serve-append (handle_client e) before (silent ∷ after ++ last ∷ rest) acc
          (rounds_ended e before done)
      ∙ ap (add_all (map (λ r. handle_client e r.client) before)) (
          serve-unfinished (handle_client e) silent (after ++ last ∷ rest) takes
            (ap (λ (h : Handled). h.finished) quiet) (handle_client_kept e silent.client)
          ∙ ap (λ (h : Handled). record { handled = h ∷ []; end = waiting }) quiet) in
    let parallel =
      serve_parallel-stop (handle_client_parallel e) (before ++ silent ∷ after) rest last
        (handle_client_parallel_kept e) (append-Accepts before (silent ∷ after) acc (takes, later))
        stop in
    (loop, ap main_end loop, parallel, ap main_end parallel)
