-- ===== src/LoopServer/Clients.antt =====
-- What a client of a synchronous server means for the others.
use boost_asio_study.Asio.{ErrorCode, Errors, failed}
use boost_asio_study.Base.{
  inr, inl, Bool-cases, ◌∙◌, true, false, List, [], ◌∷◌, ◌++◌, map, ◌≡◌, refl, All, ap,
}
use boost_asio_study.Calls.{Call, end_by, perform, passes, caught, returned}
use boost_asio_study.LoopServer.{
  handle_calls, is_escaped, perform, Handled, handle_client, handle_client_parallel, Round, waiting,
  Served, add_handled, serve, serve_parallel,
}

-- A round that comes to a client.
abbrev pub Accepts : Round → Type 0
Accepts round = (round.stop ≡ false) × (failed round.accepted ≡ false)

module _ (handle : List ErrorCode → Handled) (round : Round) (after : List Round) where
  serve-finished :
      Accepts round
      → (handle round.client).finished ≡ true
      → serve handle (round ∷ after) ≡ add_handled (handle round.client) (serve handle after)
  unfolding serve
  serve-finished acc done = simp (acc.0, acc.1, done)

  pub serve-unfinished :
      Accepts round
      → (handle round.client).finished ≡ false
      → (handle round.client).escaped ≡ false
      → serve handle (round ∷ after) ≡ record { handled = handle round.client ∷ []; end = waiting }
  unfolding serve
  serve-unfinished acc stuck kept = simp (acc.0, acc.1, stuck, kept)

  serve_parallel-cons :
      Accepts round
      → (handle round.client).escaped ≡ false
      → serve_parallel handle (round ∷ after)
        ≡ add_handled (handle round.client) (serve_parallel handle after)
  unfolding serve_parallel
  serve_parallel-cons acc kept = simp (acc.0, acc.1, kept)

-- Clients in front of a run.
abbrev pub add_all : List Handled → Served → Served
add_all hs s = record { handled = hs ++ s.handled; end = s.end }

-- What becomes of rounds that come to clients that all end, in front of further rounds.
pub serve-append :
    (handle : List ErrorCode → Handled) (before after : List Round)
    → All Accepts before
    → All (λ r. (handle r.client).finished ≡ true) before
    → serve handle (before ++ after)
      ≡ add_all (map (λ r. handle r.client) before) (serve handle after)
serve-append handle [] after acc done = refl
serve-append handle (round ∷ before) after acc done =
    serve-finished handle round (before ++ after) acc.0 done.0
    ∙ ap (add_handled (handle round.client)) (serve-append handle before after acc.1 done.1)

pub serve_parallel-append :
    (handle : List ErrorCode → Handled) (before after : List Round)
    → ((results : List ErrorCode) → (handle results).escaped ≡ false)
    → All Accepts before
    → serve_parallel handle (before ++ after)
      ≡ add_all (map (λ r. handle r.client) before) (serve_parallel handle after)
serve_parallel-append handle [] after kept acc = refl
serve_parallel-append handle (round ∷ before) after kept acc =
    serve_parallel-cons handle round (before ++ after) acc.0 (kept round.client)
    ∙ ap (add_handled (handle round.client)) (serve_parallel-append handle before after kept acc.1)

-- An exception in a `try` block does not leave it: whatever its calls result in, the function behind
-- it returns, or a call has not returned.
caught_kept :
    (e : Errors) (calls : List Call) (results : List ErrorCode)
    → is_escaped (perform e (caught calls) results).end ≡ false
unfolding perform end_by
caught_kept e [] results = refl
caught_kept e (call ∷ calls) [] = refl
caught_kept e (call ∷ calls) (ec ∷ results) = elim (Bool-cases (passes e returned ec)) [
  | inl good ↦ rw good (caught_kept e calls results)
  | inr bad ↦ rw bad refl
]

pub handle_client_kept :
    (e : Errors) (results : List ErrorCode) → (handle_client e results).escaped ≡ false
unfolding handle_client
handle_client_kept e results = caught_kept e handle_calls results

pub handle_client_parallel_kept :
    (e : Errors) (results : List ErrorCode) → (handle_client_parallel e results).escaped ≡ false
unfolding handle_client_parallel
handle_client_parallel_kept e results = caught_kept e handle_calls results
