-- ===== src/LoopServer/Threads/Interleavings.antt =====
-- What holds of the two threads in every interleaving.
use boost_asio_study.Asio.{Errors}
use boost_asio_study.Base.{
  ◌≤◌, true, false, List, [], ◌∷◌, ◌++◌, ◌≡◌, ◌≢◌, refl, sym, ◌∙◌, ap, arith, All,
}
use boost_asio_study.Calls.{perform, exited}
use boost_asio_study.LoopServer.{Round, run_after, main_end}
use boost_asio_study.LoopServer.Clients.{Accepts}
use boost_asio_study.LoopServer.Stops.{stopped_after, run_after_lem}
use boost_asio_study.LoopServer.Threads.{
  Kind, Worker, constructing, testing, accepting, handling, left, aborted, sleeping, returned,
  Server, start, accepted_round, Step, construct, construct_throws, test_go, test_stop, accept,
  accept_throws, handle, store, join, Reach, here, next,
}

pub record IsSound (e : Errors) (k : Kind) (s : Server) : Type 0 where
  pub late_le : s.late ≤ 1
  pub in_time : s.m_stop ≡ false → s.late ≡ 0
  pub on_time : s.worker ≡ accepting → s.late ≡ 0
  pub stopped : s.worker ≡ left → s.m_stop ≡ true
  pub joined : s.main ≡ returned → s.worker ≡ left
  pub set : s.main ≢ sleeping → s.m_stop ≡ true
  pub built :
      s.worker ≢ constructing
      → s.worker ≢ aborted
      → (perform e k.constructs s.constructed).end ≡ exited 0
  pub came : All Accepts s.rounds
  pub done : All (λ r. k.Returns r.client) s.rounds

pub start-IsSound : (e : Errors) (k : Kind) → IsSound e k start
start-IsSound e k = record {
  late_le = omega arith;
  in_time = λ q. refl;
  on_time = λ q. refl;
  stopped = λ q. cc;
  joined = λ q. cc;
  set = λ q. absurd (q refl);
  built = λ q r. absurd (q refl);
  came = tt;
  done = tt;
}

All-snoc :
    (P : Round → Type 0) (xs : List Round) (x : Round) → All P xs → P x → All P (xs ++ x ∷ [])
All-snoc P [] x h p = (p, tt)
All-snoc P (y ∷ xs) x h p = (h.0, All-snoc P xs x h.1 p)

-- The thread of `Run` moves, while `main` has not returned, and leaves the rest as it is.
worker-IsSound :
    (e : Errors) (k : Kind) (s : Server) (w : Worker)
    → IsSound e k s
    → s.worker ≢ left
    → (w ≡ accepting → s.m_stop ≡ false)
    → (w ≡ left → s.m_stop ≡ true)
    → (w ≢ aborted → (perform e k.constructs s.constructed).end ≡ exited 0)
    → IsSound e k (record s { worker = w })
worker-IsSound e k s w v stays go gone built = record {
  late_le = v.late_le;
  in_time = v.in_time;
  on_time = λ q. v.in_time (go q);
  stopped = gone;
  joined = λ q. absurd (stays (v.joined q));
  set = v.set;
  built = λ q r. built r;
  came = v.came;
  done = v.done;
}

running :
    (e : Errors) (k : Kind) (s : Server) (w : Worker)
    → IsSound e k s
    → s.worker ≡ w
    → w ≢ constructing
    → w ≢ aborted
    → (perform e k.constructs s.constructed).end ≡ exited 0
running e k s w v at old alive = v.built (λ q. old (sym at ∙ q)) (λ q. alive (sym at ∙ q))

Step-IsSound : (e : Errors) (k : Kind) {s t : Server} → Step e k s t → IsSound e k s → IsSound e k t
Step-IsSound e k (construct {s} results at good) v =
    let moved =
      worker-IsSound e k (record s { constructed = results }) testing
        (record {
          late_le = v.late_le;
          in_time = v.in_time;
          on_time = v.on_time;
          stopped = v.stopped;
          joined = v.joined;
          set = v.set;
          built = λ q r. good;
          came = v.came;
          done = v.done;
        }) in
    moved (λ q. cc) (λ q. cc) (λ q. cc) (λ q. good)
Step-IsSound e k (construct_throws {s} results at bad) v =
    worker-IsSound e k s aborted v (λ q. cc) (λ q. cc) (λ q. cc) (λ q. absurd (q refl))
Step-IsSound e k (test_go {s} at go) v =
    worker-IsSound e k s accepting v (λ q. cc) (λ q. go) (λ q. cc)
      (λ q. running e k s testing v at (λ r. cc) (λ r. cc))
Step-IsSound e k (test_stop {s} at stop) v =
    worker-IsSound e k s left v (λ q. cc) (λ q. cc) (λ q. stop)
      (λ q. running e k s testing v at (λ r. cc) (λ r. cc))
Step-IsSound e k (accept {s} at) v = record {
  late_le = ground (arith, v.on_time at);
  in_time = λ q. rw q (v.in_time q);
  on_time = λ q. cc;
  stopped = λ q. cc;
  joined = λ q. cc (v.joined q);
  set = v.set;
  built = λ q r. running e k s accepting v at (λ c. cc) (λ c. cc);
  came = v.came;
  done = v.done;
}
Step-IsSound e k (accept_throws {s} at) v =
    worker-IsSound e k s aborted v (λ q. cc) (λ q. cc) (λ q. cc) (λ q. absurd (q refl))
Step-IsSound e k (handle {s} ec results at good returns) v =
    let moved =
      worker-IsSound e k s testing v (λ q. cc) (λ q. cc) (λ q. cc)
        (λ q. running e k s handling v at (λ r. cc) (λ r. cc)) in
    record {
      late_le = moved.late_le;
      in_time = moved.in_time;
      on_time = moved.on_time;
      stopped = moved.stopped;
      joined = moved.joined;
      set = moved.set;
      built = moved.built;
      came = All-snoc Accepts s.rounds (accepted_round ec results) v.came (refl, good);
      done = All-snoc (λ r. k.Returns r.client) s.rounds (accepted_round ec results) v.done returns;
    }
Step-IsSound e k (store at) v = record {
  late_le = v.late_le;
  in_time = λ q. cc;
  on_time = v.on_time;
  stopped = λ q. refl;
  joined = λ q. cc;
  set = λ q. refl;
  built = v.built;
  came = v.came;
  done = v.done;
}
Step-IsSound e k (join at gone) v = record {
  late_le = v.late_le;
  in_time = v.in_time;
  on_time = v.on_time;
  stopped = v.stopped;
  joined = λ q. gone;
  set = λ q. v.stopped gone;
  built = v.built;
  came = v.came;
  done = v.done;
}

pub Reach-IsSound :
    (e : Errors) (k : Kind) {s t : Server} → Reach e k s t → IsSound e k s → IsSound e k t
Reach-IsSound e k here v = v
Reach-IsSound e k (next r st) v = Step-IsSound e k st (Reach-IsSound e k r v)

-- The threads of a server in any interleaving, up to the return of `main`: they have done just what the
-- loop of `Run` does as a function, on the rounds of the clients that came and a last round that sees
-- `m_stop`, and `main` returns 0; and at most one client was accepted after `Stop` had set `m_stop`.
pub interleaving_serves :
    (e : Errors) (k : Kind) {s : Server} (last : Round) (after : List Round)
    → Reach e k start s
    → s.main ≡ returned
    → last.stop ≡ true
    → let served =
        run_after (perform e k.constructs s.constructed) (k.serves (s.rounds ++ last ∷ after)) in
      (s.late ≤ 1)
      × (s.m_stop ≡ true)
      × (served ≡ stopped_after k.handle s.rounds)
      × (main_end served ≡ exited 0)
interleaving_serves e k {s} last after reach gone stop =
    let v = Reach-IsSound e k reach (start-IsSound e k) in
    let served =
      run_after_lem _ _ (running e k s left v (v.joined gone) (λ q. cc) (λ q. cc))
      ∙ k.serves-stop s.rounds after last v.came v.done stop in
    (v.late_le, v.stopped (v.joined gone), served, ap main_end served)
