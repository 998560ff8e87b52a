-- ===== src/AsyncServers/Http.antt =====
-- The HTTP server, 05-02-01-http_server.cpp, with all its clients.
use boost_asio_study.Asio.{Errors, Completion, Fault, null_write, shutdown_receive, shutdown_both}
use boost_asio_study.AsyncServers.{ServiceKind, Serving, Event, start, run}
use boost_asio_study.AsyncServers.Halts.{fatal_ends}
use boost_asio_study.AsyncServers.Independence.{alone, run-alone, addressed, heard, run-heard}
use boost_asio_study.Base.{
  subst, ℕ, ◌+◌, ◌≤◌, ◌⊎◌, Bool, true, false, List, [], ◌∷◌, ◌++◌, some, get_or, length, Bytes, All,
  ◌≡◌, refl, ◌∙◌, arith, ap,
}
use boost_asio_study.HttpAcceptor.{Acceptor, new_acceptor}
use boost_asio_study.HttpAcceptor
use boost_asio_study.HttpAcceptor.Accepts.{counts, listener}
use boost_asio_study.HttpServer.{
  World, Outcome, Exit, deleted, faulted, crlf, root, get_method, http_version,
}
use boost_asio_study.HttpServer.Faults.{file_faults}
use boost_asio_study.HttpServer.Lifecycle
use boost_asio_study.HttpServer.Lifecycle.{
  started, started-awaits, continue, service_writes, service_ends,
}
use boost_asio_study.HttpServer.Requests.{words}
use boost_asio_study.HttpServer.Responses.{has_content, answer_for}
use boost_asio_study.HttpServer.Rounds.{writes}
use boost_asio_study.HttpServer.Serving.{Serves, response_text, get_served}
use boost_asio_study.HttpText.{Field, IsField, render}
use boost_asio_study.Listener
use boost_asio_study.Stream.Laws.{IsWord}

-- An exception out of a thread of the pool ends the process, as a write through null does.
abbrev pub is_faulted : Exit → Bool
is_faulted (faulted f) = true
is_faulted _ = false

abbrev pub http_service : Errors → ServiceKind Outcome (World × Completion)
http_service e = record {
  begun = started;
  continue = λ c o. continue e c.0 c.1 o o.exit;
  is_fatal = λ o. is_faulted o.exit;
}

module _ (e : Errors) where
  abbrev pub http_start : Serving Acceptor HttpAcceptor.Action Outcome
  http_start = start listener (http_service e) new_acceptor

  abbrev pub http_run :
      List (Event (World × Completion)) → Serving Acceptor HttpAcceptor.Action Outcome
  http_run events = run listener (http_service e) events http_start

  -- The service at a position.
  abbrev pub http_at : List (Event (World × Completion)) → ℕ → Outcome
  http_at events i = get_or (http_run events).services i started

  abbrev pub http_addressed : ℕ → List (Event (World × Completion)) → List (World × Completion)
  http_addressed i events = addressed listener (http_service e) i events http_start

  alone-run :
      (completions : List (World × Completion)) (o : Outcome)
      → alone listener (http_service e) completions o ≡ Lifecycle.run e o completions
  unfolding alone Lifecycle.run
  alone-run [] o = refl
  alone-run ((w, c) ∷ completions) o = alone-run completions (continue e w c o o.exit)

  http_at-run :
      (events : List (Event (World × Completion))) (i : ℕ)
      → http_at events i ≡ Lifecycle.run e started (http_addressed i events)
  http_at-run events i =
      run-alone listener (http_service e) i events http_start
      ∙ alone-run (http_addressed i events) started

  -- Any number of clients, with everything that completes for them, the accepts and the calls of
  -- `Stop` in any order: the services are as many as the connections that were accepted, one accept
  -- is pending or the socket that listens was closed, once; and a service of which three operations,
  -- or more, have completed has written at most one response, and is deleted or has ended in a fault.
  pub clients_answered :
      (events : List (Event (World × Completion))) (i : ℕ)
      → 3 ≤ length (http_addressed i events)
      → let x = http_run events in
        let o = http_at events i in
        (length x.services
          ≡ Listener.connections listener
              (heard listener (http_service e) events http_start)
              (Listener.started listener new_acceptor))
        × (x.listening.pending + (counts x.listening.actions).closes ≡ 1)
        × (writes o.actions ≤ 1)
        × ((o.exit ≡ deleted) ⊎ ((f : Fault) × (o.exit ≡ faulted f)))
  clients_answered events i many_own =
      let (same, many) = run-heard listener (http_service e) events http_start in
      let heard_events = heard listener (http_service e) events http_start in
      (
        omega (arith, many),
        rw same ((Listener.listening_lem listener heard_events new_acceptor).0),
        rw (http_at-run events i) (service_writes e (http_addressed i events)),
        rw (http_at-run events i) (service_ends e (http_addressed i events) many_own),
      )

  -- A request for a file with content ends the server for all clients: after the two parts of a GET
  -- request of one of them, whatever the others have done, nothing that completes later changes the
  -- acceptor or any service.
  pub file_ends_server :
      (w : World) (r : ℕ) (rs : Bytes) (fs : List Field) (line_rest : Bytes)
      (first second : Completion) (events later : List (Event (World × Completion))) (i : ℕ)
      → answer_for w (root ++ r ∷ rs) ≡ has_content
      → IsWord (r ∷ rs)
      → All IsField fs
      → first.ec.value ≡ 0
      → second.ec.value ≡ 0
      → first.received ≡ words get_method (r ∷ rs) http_version ++ b'\r' ∷ b'\n' ∷ line_rest
      → line_rest ++ second.received ≡ render fs crlf
      → http_addressed i events ≡ (w, first) ∷ (w, second) ∷ []
      → ((http_at events i).exit ≡ faulted null_write)
        × (http_run (events ++ later) ≡ http_run events)
  file_ends_server w r rs fs line_rest first second events later i content hr hf h1 h2 q1 q2 own =
      let fault : (http_at events i).exit ≡ faulted null_write =
        rw (http_at-run events i)
          (rw own (file_faults e w r rs fs line_rest first second [] content hr hf h1 h2 q1 q2)) in
      (
        fault,
        fatal_ends listener (http_service e) events later i http_start
            (ap is_faulted started-awaits) (ap is_faulted fault),
      )

  -- A GET request is answered as if its client were the only one, whatever the services of the other
  -- clients do in between: 404, 500 or an empty 200 in one write, and the service is deleted.
  pub get_served_among :
      (w : World) (r : ℕ) (rs : Bytes) (fs : List Field) (line_rest bytes : Bytes)
      (first second sent : Completion) (events : List (Event (World × Completion))) (i : ℕ)
      → response_text (answer_for w (root ++ r ∷ rs)) ≡ some bytes
      → IsWord (r ∷ rs)
      → All IsField fs
      → (w.shutdown_result shutdown_receive).value ≡ 0
      → (w.shutdown_result shutdown_both).value ≡ 0
      → first.ec.value ≡ 0
      → second.ec.value ≡ 0
      → sent.ec.value ≡ 0
      → first.received ≡ words get_method (r ∷ rs) http_version ++ b'\r' ∷ b'\n' ∷ line_rest
      → line_rest ++ second.received ≡ render fs crlf
      → http_addressed i events ≡ (w, first) ∷ (w, second) ∷ (w, sent) ∷ []
      → Serves (some bytes) (http_at events i)
  get_served_among w r rs fs line_rest bytes first second sent events i text hr hf up_receive
        up_both h1 h2 h3 q1 q2 own =
      rw (http_at-run events i) (
        rw own (
          subst
            (λ answer.
              Serves answer (Lifecycle.run e started ((w, first) ∷ (w, second) ∷ (w, sent) ∷ [])))
            text
            (get_served e w r rs fs line_rest first second sent hr hf up_receive up_both h1 h2 h3 q1
              q2)))
