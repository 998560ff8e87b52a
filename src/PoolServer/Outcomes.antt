-- ===== src/PoolServer/Outcomes.antt =====
-- How `main` of the asynchronous servers ends.
use boost_asio_study.Asio.{ErrorCode, failed}
use boost_asio_study.Base.{
  ap, ◌∙◌, subst, ◌⊎◌, ℕ, ◌<◌, ◌^◌, true, false, List, [], ◌∷◌, ◌++◌, none, some, ◌≡◌, refl, arith,
  map, ◌==◌, Bool-cases, inl, inr, sym,
}
use boost_asio_study.PoolServer.{
  Action, bind, acceptor, stop_acceptor, stop_io, sleep, Server, World, throws, Exit, returned,
  terminated, new_server, server_start, server_stop, sleep_and_stop, exit_of, server_main,
  thread_pool_size, thread_pool_size_bounds,
}
use boost_asio_study.PoolServer.Joins.{
  starts, joins, early_joins, IsStarting, Grows, joined_threads, starts-append, joins-append,
  acceptor_calls, early_joins-append, none_early, start_threads-Grows, join_threads_lem,
}

module _ {A : Type 0} (w : World) where
  -- How `main` may end, with what it did: it returns 0 with at least one thread created and every one
  -- joined; or the value of the error of `bind` or `listen` with none created; or the process is
  -- terminated with none joined, as the thread after those created could not be created, or a
  -- handler has ended in a fault. In each case fewer than 2 ^ 32 threads are created, and none is joined before the
  -- `io_service` is stopped.
  abbrev pub JoinsThreads : Server A × Exit → Type 0
  JoinsThreads (s, x) =
      (starts s.actions < 2 ^ 32)
      × (early_joins s.actions ≡ 0)
      × (((x ≡ returned 0)
            × (w.pool_dies ≡ false)
            × (0 < starts s.actions)
            × (joins s.actions ≡ starts s.actions))
          ⊎ ((ec : ErrorCode) × (x ≡ returned ec.value)
              × (failed ec ≡ true)
              × ((ec ≡ w.bound) ⊎ (ec ≡ w.listening))
              × (starts s.actions ≡ 0)
              × (joins s.actions ≡ 0))
          ⊎ ((x ≡ terminated)
              × (joins s.actions ≡ 0)
              × ((w.creates (starts s.actions) ≡ false)
                  ⊎ ((w.pool_dies ≡ true) × (0 < starts s.actions)))))

  -- The sleep and `Stop`.
  stopped_lem :
      (s : Server A)
      → IsStarting s
      → let actions = (server_stop (record s { actions = s.actions ++ sleep ∷ [] })).actions in
        (starts actions ≡ s.threads) × (joins actions ≡ s.threads) × (early_joins actions ≡ 0)
  unfolding server_stop starts joins early_joins
  stopped_lem s v =
      let slept = s.actions ++ sleep ∷ [] in
      let tail : List (Action A) = stop_acceptor ∷ stop_io ∷ joined_threads A s.threads in
      let asleep : joins slept ≡ 0 =
        omega (arith, joins-append s.actions (sleep ∷ []), v.joined_none) in
      let rest = join_threads_lem A s.threads in
      (
        omega (
          arith,
          starts-append slept tail,
          starts-append s.actions (sleep ∷ []),
          v.created,
          rest.0,
        ),
        omega (
          arith,
          joins-append slept tail,
          joins-append s.actions (sleep ∷ []),
          v.joined_none,
          rest.1,
        ),
        early_joins-append slept tail asleep refl,
      )

  slept_lem :
      (s : Server A)
      → IsStarting s
      → let actions = s.actions ++ sleep ∷ [] in (starts actions ≡ s.threads) × (joins actions ≡ 0)
  unfolding starts joins
  slept_lem s v = (
    omega (arith, starts-append s.actions (sleep ∷ []), v.created),
    omega (arith, joins-append s.actions (sleep ∷ []), v.joined_none),
  )

  dead_lem :
      (s : Server A)
      → IsStarting s
      → s.threads < 2 ^ 32
      → (starts (s.actions ++ sleep ∷ []) < 2 ^ 32)
        × (early_joins (s.actions ++ sleep ∷ []) ≡ 0)
        × (joins (s.actions ++ sleep ∷ []) ≡ 0)
  dead_lem s v few =
      let (created, joined) = slept_lem s v in (omega (arith, created), none_early _ joined, joined)

  -- Behind a `Start` that has returned.
  ran-JoinsThreads :
      (s : Server A)
      → IsStarting s
      → 0 < s.threads
      → s.threads < 2 ^ 32
      → JoinsThreads (sleep_and_stop w.pool_dies s)
  unfolding sleep_and_stop
  ran-JoinsThreads s v some_thread few =
      let (early_few, early, none_joined) = dead_lem s v few in
      let (created, joined, in_order) = stopped_lem s v in
      elim (Bool-cases w.pool_dies) [
        | inl dies ↦ rw dies (
          early_few,
          early,
          inr (inr (refl, none_joined, inr (refl, omega (arith, (slept_lem s v).0)))),
        )
        | inr lives ↦ rw lives (
          omega (arith, created),
          in_order,
          inl (refl, refl, omega (arith, created), omega (arith, created, joined)),
        )
      ]

-- What a `Start` leaves behind in which `bind` or `listen` throws.
abbrev refused_server : (A : Type 0) → ℕ → ErrorCode → Server A
refused_server A port ec = record {
  threads = 0;
  actions = bind port ∷ [];
  failure = some (throws ec);
}

refused-JoinsThreads :
    (A : Type 0) (w : World) (port : ℕ) (ec : ErrorCode)
    → failed ec ≡ true
    → (ec ≡ w.bound) ⊎ (ec ≡ w.listening)
    → JoinsThreads w (refused_server A port ec, returned ec.value)
unfolding starts joins early_joins
refused-JoinsThreads A w port ec bad which =
    (omega arith, refl, inr (inl (ec, refl, bad, which, refl, refl)))

module _ {A : Type 0} (w : World) where
  begun-IsStarting :
      (port : ℕ) (calls : List A)
      → IsStarting
          (record { threads = 0; actions = bind port ∷ map acceptor calls; failure = none })
  unfolding starts joins
  begun-IsStarting port calls = record {
    created = omega (arith, (acceptor_calls calls).0);
    joined_none = omega (arith, (acceptor_calls calls).1);
  }

  -- The threads are created, or one of them is not.
  grown-JoinsThreads :
      (k : ℕ) (s s' : Server A)
      → s.threads ≡ 0
      → 0 < k
      → k < 2 ^ 32
      → Grows w k s s'
      → JoinsThreads w (exit_of w.pool_dies s'.failure s')
  unfolding exit_of
  grown-JoinsThreads k s s' empty some_thread few g = elim (g.outcome) [
    | inl (fine, all) ↦
        subst (λ x. JoinsThreads w (exit_of w.pool_dies x s')) (sym fine)
          (ran-JoinsThreads w s' g.starting (omega (arith, empty, all)) (omega (arith, empty, all)))
    | inr (lost, refused) ↦
        subst (λ x. JoinsThreads w (exit_of w.pool_dies x s')) (sym lost)
          ((
            omega (arith, g.few, empty, g.starting.created),
            none_early _ g.starting.joined_none,
            inr (
                inr
                  (refl, g.starting.joined_none, inl (ap w.creates g.starting.created ∙ refused))),
          ))
  ]

  started-JoinsThreads :
      (port k : ℕ) (calls : List A)
      → 0 < k
      → k < 2 ^ 32
      → let s : Server A = server_start w calls port k new_server in
        JoinsThreads w (exit_of w.pool_dies s.failure s)
  unfolding server_start exit_of
  started-JoinsThreads port k calls some_thread few =
      let pool : (k == 0) ≡ false = ground arith in
      elim (Bool-cases (failed w.bound)) [
        | inl bad ↦ rw (pool, bad) (refused-JoinsThreads A w port w.bound bad (inl refl))
        | inr fine ↦ elim (Bool-cases (failed w.listening)) [
          | inl bad ↦
              rw (pool, fine, bad) (refused-JoinsThreads A w port w.listening bad (inr refl))
          | inr good ↦
              rw (pool, fine, good)
                (grown-JoinsThreads k _ _ refl some_thread few
                  (start_threads-Grows w k _ (begun-IsStarting port calls) refl))
        ]
      ]

  pub server_main-JoinsThreads :
      (calls : List A) (port : ℕ) → JoinsThreads w (server_main w calls port)
  unfolding server_main
  server_main-JoinsThreads calls port =
      let bounds = thread_pool_size_bounds w.hardware_concurrency in
      started-JoinsThreads port (thread_pool_size w.hardware_concurrency) calls bounds.0 bounds.1
