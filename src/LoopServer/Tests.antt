-- ===== src/LoopServer/Tests.antt =====
-- The servers with a few clients, and the theorems at concrete inputs.
use boost_asio_study.LoopServer.Threads.{
  Server, start, loop_server, Reach, here, next, construct, test_go, test_stop, accept, handle,
  store, join, joining, accepting, returned, left, accepted_round,
}
use boost_asio_study.LoopServer.Threads.Interleavings.{interleaving_serves}
use boost_asio_study.LoopServer.Threads.Waits.{stop_waits}
use boost_asio_study.Asio.Sample.{sample, no_error, connection_reset}
use boost_asio_study.Base.{
  ◌≤◌, ◌++◌, suc, length, List, arith, false, true, [], ◌∷◌, map, ◌≡◌, refl,
}
use boost_asio_study.Calls.{waits, exited, perform, passes, end_by}
use boost_asio_study.LoopServer.Stops.{stopped_after, servers_stop}
use boost_asio_study.LoopServer.{
  main_end, new_acceptor, ErrorCode, run_after, run, run_parallel, run_ssl, main, main_parallel,
  main_ssl, handle_client, handle_client_parallel, handle_client_ssl, Round, waiting, serve,
  serve_parallel,
}
use boost_asio_study.LoopServer.Silent.{silent_service, client_blocks}

-- A client whose connection breaks, and one that sends nothing.
abbrev breaks : Round
breaks = record { stop = false; accepted = no_error; client = connection_reset ∷ [] }

abbrev silent : Round
silent = record { stop = false; accepted = no_error; client = [] }

-- The test that sees `m_stop`.
abbrev seen : Round
seen = record { stop = true; accepted = no_error; client = [] }

-- A client whose calls all return.
abbrev answered : Round
answered = record {
  stop = false;
  accepted = no_error;
  client = no_error ∷ connection_reset ∷ no_error ∷ [];
}

client_blocks_example :
    let rounds = (breaks ∷ silent ∷ answered ∷ []) ++ seen ∷ [] in
    let loop = serve (handle_client sample) rounds in
    let parallel = serve_parallel (handle_client_parallel sample) rounds in
    (loop ≡ record {
      handled = map (λ r. handle_client sample r.client) (breaks ∷ []) ++ silent_service ∷ [];
      end = waiting;
    })
    × (main_end loop ≡ waits)
    × (parallel ≡ stopped_after (handle_client_parallel sample) (breaks ∷ silent ∷ answered ∷ []))
    × (main_end parallel ≡ exited 0)
client_blocks_example =
    client_blocks sample (breaks ∷ []) (answered ∷ []) [] silent seen (refl, tt) refl
      ((refl, refl), tt) (refl, refl) ((refl, refl), tt) refl

servers_stop_example :
    let last = record breaks { stop = true } in
    let two = no_error ∷ no_error ∷ [] in
    let eight =
      no_error ∷ no_error ∷ no_error ∷ no_error ∷ no_error ∷ no_error ∷ no_error ∷ no_error ∷ [] in
    (run sample two (answered ∷ last ∷ []) ≡ stopped_after (handle_client sample) (answered ∷ []))
    × (main sample two (answered ∷ last ∷ []) ≡ exited 0)
    × (run_parallel sample two (answered ∷ last ∷ [])
        ≡ stopped_after (handle_client_parallel sample) (answered ∷ []))
    × (main_parallel sample two (answered ∷ last ∷ []) ≡ exited 0)
    × (run_ssl sample eight (answered ∷ last ∷ [])
        ≡ stopped_after (handle_client_ssl sample) (answered ∷ []))
    × (main_ssl sample eight (answered ∷ last ∷ []) ≡ exited 0)
servers_stop_example =
    servers_stop sample (no_error ∷ no_error ∷ [])
      (no_error ∷ no_error ∷ no_error ∷ no_error ∷ no_error ∷ no_error ∷ no_error ∷ no_error ∷ [])
      (answered ∷ []) [] (record breaks { stop = true }) refl (refl, (refl, tt)) refl
      (refl, (refl, (refl, (refl, (refl, (refl, (refl, (refl, tt)))))))) ((refl, refl), tt)
      (omega arith, tt) refl

-- `Stop` finds the other thread in `accept`; one more client comes and fails.
abbrev before_stop : List ErrorCode
before_stop = no_error ∷ no_error ∷ []

abbrev waiting_server : Server
waiting_server = record start {
  m_stop = true;
  main = joining;
  worker = accepting;
  constructed = before_stop;
}

waiting_server-Reach : Reach sample (loop_server sample) start waiting_server
unfolding perform passes
waiting_server-Reach =
    next (next (next here (construct before_stop refl refl)) (test_go refl refl)) (store refl)

abbrev joined_server : Server
joined_server = record waiting_server {
  main = returned;
  worker = left;
  late = 1;
  rounds = accepted_round no_error (connection_reset ∷ []) ∷ [];
}

joined_server-Reach : Reach sample (loop_server sample) waiting_server joined_server
unfolding perform passes handle_client end_by
joined_server-Reach =
    next
      (next
        (next (next here (accept refl)) (handle no_error (connection_reset ∷ []) refl refl refl))
        (test_stop refl refl))
      (join refl refl)

Reach-trans :
    {s t u : Server}
    → Reach sample (loop_server sample) s t
    → Reach sample (loop_server sample) t u
    → Reach sample (loop_server sample) s u
Reach-trans r here = r
Reach-trans r (next q st) = next (Reach-trans r q) st

stop_waits_example :
    (joined_server.late ≡ 1) × (length joined_server.rounds ≡ suc (length waiting_server.rounds))
stop_waits_example =
    stop_waits sample (loop_server sample) waiting_server-Reach refl refl joined_server-Reach refl

interleaving_serves_example :
    let served =
      run_after
        (perform sample new_acceptor before_stop)
        (serve (handle_client sample) (joined_server.rounds ++ seen ∷ [])) in
    (joined_server.late ≤ 1)
    × (joined_server.m_stop ≡ true)
    × (served ≡ stopped_after (handle_client sample) joined_server.rounds)
    × (main_end served ≡ exited 0)
interleaving_serves_example =
    interleaving_serves sample (loop_server sample) seen []
      (Reach-trans waiting_server-Reach joined_server-Reach) refl refl
