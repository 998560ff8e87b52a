-- ===== src/LoopServer/Stops.antt =====
-- How the synchronous servers come to their end.
use boost_asio_study.Asio.{ErrorCode, Errors, failed}
use boost_asio_study.Base.{
  append-nil, ℕ, ◌≤◌, true, false, List, [], ◌∷◌, ◌++◌, map, length, ◌≡◌, refl, arith, Bool-cases,
  inl, inr, All, ap, ◌∙◌,
}
use boost_asio_study.Calls.{
  handshake, caught, Call, returned, escapes, exited, Performed, Program, perform, passes, end_by,
}
use boost_asio_study.LoopServer.{
  handle_calls, main_end, Handled, is_finished, handle_client, handle_client_parallel,
  handle_client_ssl, Round, stopped, Served, serve, serve_parallel, main, main_parallel, main_ssl,
  run, run_parallel, run_ssl, run_after, new_acceptor, new_ssl_acceptor,
}
use boost_asio_study.LoopServer.Clients.{
  handle_client_parallel_kept, Accepts, serve-append, serve_parallel-append,
}

-- With a result for each call in a `try` block the function around it returns.
caught_finished :
    (e : Errors) (calls : List Call) (results : List ErrorCode)
    → length calls ≤ length results
    → is_finished (perform e (caught calls) results).end ≡ true
unfolding perform end_by
caught_finished e [] results h = refl
caught_finished e (call ∷ calls) [] h = absurd (omega arith)
caught_finished e (call ∷ calls) (ec ∷ results) h = elim (Bool-cases (passes e returned ec)) [
  | inl good ↦ rw good (caught_finished e calls results (omega arith))
  | inr bad ↦ rw bad refl
]

-- A client whose calls have all returned, with or without errors.
abbrev Answered : ℕ → Round → Type 0
Answered calls round = calls ≤ length round.client

rounds_finished :
    (handle : List ErrorCode → Handled) (calls : ℕ) (rounds : List Round)
    → ((results : List ErrorCode) → calls ≤ length results → (handle results).finished ≡ true)
    → All (Answered calls) rounds
    → All (λ r. (handle r.client).finished ≡ true) rounds
rounds_finished handle calls [] ends h = tt
rounds_finished handle calls (round ∷ rounds) ends h =
    (ends round.client h.0, rounds_finished handle calls rounds ends h.1)

-- What a loop has done that saw `m_stop` after these rounds.
abbrev pub stopped_after : (List ErrorCode → Handled) → List Round → Served
stopped_after handle before = record { handled = map (λ r. handle r.client) before; end = stopped }

module _ (handle : List ErrorCode → Handled) (before after : List Round) (last : Round) where
  pub serve-stop :
      All Accepts before
      → All (λ r. (handle r.client).finished ≡ true) before
      → last.stop ≡ true
      → serve handle (before ++ last ∷ after) ≡ stopped_after handle before
  unfolding serve
  serve-stop acc done stop =
      serve-append handle before (last ∷ after) acc done ∙ simp (stop, append-nil)

  pub serve_parallel-stop :
      ((results : List ErrorCode) → (handle results).escaped ≡ false)
      → All Accepts before
      → last.stop ≡ true
      → serve_parallel handle (before ++ last ∷ after) ≡ stopped_after handle before
  unfolding serve_parallel
  serve_parallel-stop kept acc stop =
      serve_parallel-append handle before (last ∷ after) kept acc ∙ simp (stop, append-nil)

handle_client_finished :
    (e : Errors) (results : List ErrorCode)
    → 2 ≤ length results
    → (handle_client e results).finished ≡ true
unfolding handle_client
handle_client_finished e results h = caught_finished e handle_calls results h

handle_client_ssl_finished :
    (e : Errors) (results : List ErrorCode)
    → 3 ≤ length results
    → (handle_client_ssl e results).finished ≡ true
unfolding handle_client_ssl
handle_client_ssl_finished e results h = caught_finished e (handshake ∷ handle_calls) results h

-- The results of a constructor whose calls all succeed.
abbrev Succeeds : List ErrorCode → Type 0
Succeeds = All (λ ec. failed ec ≡ false)

constructed_end :
    (e : Errors) (q : Program) (results : List ErrorCode)
    → All (λ c. c.1 ≡ escapes) q
    → length results ≡ length q
    → Succeeds results
    → (perform e q results).end ≡ exited 0
unfolding perform passes
constructed_end e [] results all n good = refl
constructed_end e ((call, check) ∷ q) [] all n good = absurd (omega arith)
constructed_end e ((call, check) ∷ q) (ec ∷ results) all n good =
    rw all.0 (rw good.0 (constructed_end e q results all.1 (omega arith) good.1))

pub run_after_lem : (p : Performed) (s : Served) → p.end ≡ exited 0 → run_after p s ≡ s
unfolding run_after
run_after_lem p s h = rw h

-- The three servers, if their acceptors are constructed, with rounds that come to clients whose calls
-- all return, with errors or without, until `m_stop` is seen: `main` returns 0, and each of those
-- clients has been handled, in order, just as it would have been alone. What would come later is
-- not begun.
pub servers_stop :
    (e : Errors) (constructed secured : List ErrorCode) (before after : List Round) (last : Round)
    → length constructed ≡ 2
    → Succeeds constructed
    → length secured ≡ 8
    → Succeeds secured
    → All Accepts before
    → All (Answered 3) before
    → last.stop ≡ true
    → (run e constructed (before ++ last ∷ after) ≡ stopped_after (handle_client e) before)
      × (main e constructed (before ++ last ∷ after) ≡ exited 0)
      × (run_parallel e constructed (before ++ last ∷ after)
          ≡ stopped_after (handle_client_parallel e) before)
      × (main_parallel e constructed (before ++ last ∷ after) ≡ exited 0)
      × (run_ssl e secured (before ++ last ∷ after) ≡ stopped_after (handle_client_ssl e) before)
      × (main_ssl e secured (before ++ last ∷ after) ≡ exited 0)
unfolding run run_parallel run_ssl main main_parallel main_ssl
servers_stop e constructed secured before after last two made eight secure acc answered stop =
    let plain_end = constructed_end e new_acceptor constructed (refl, (refl, tt)) two made in
    let ssl_end =
      constructed_end e new_ssl_acceptor secured
        (refl, (refl, (refl, (refl, (refl, (refl, (refl, (refl, tt)))))))) eight secure in
    let done =
      rounds_finished (handle_client e) 3 before
        (λ results h. handle_client_finished e results (omega arith)) answered in
    let ssl_done =
      rounds_finished (handle_client_ssl e) 3 before (handle_client_ssl_finished e) answered in
    let loop =
      run_after_lem _ _ plain_end ∙ serve-stop (handle_client e) before after last acc done stop in
    let parallel =
      run_after_lem _ _ plain_end
      ∙ serve_parallel-stop (handle_client_parallel e) before after last
          (handle_client_parallel_kept e) acc stop in
    let ssl =
      run_after_lem _ _ ssl_end
      ∙ serve-stop (handle_client_ssl e) before after last acc ssl_done stop in
    (loop, ap main_end loop, parallel, ap main_end parallel, ssl, ap main_end ssl)
