-- ===== src/PoolServer/Joins.antt =====
-- The threads that `Server` of the asynchronous servers creates and joins.
use boost_asio_study.Base.{
  ◌⊎◌, ℕ, zero, suc, ◌+◌, ◌≤◌, Bool, true, false, List, [], ◌∷◌, ◌++◌, none, some, ◌≡◌, refl, arith,
  map, Bool-cases, inl, inr, if◌then◌else◌,
}
use boost_asio_study.PoolServer.{
  Action, acceptor, start_thread, stop_io, join_thread, Server, World, no_thread, start_threads,
  join_threads,
}

module _ {A : Type 0} where
  abbrev pub one_start : Action A → ℕ
  one_start start_thread = 1
  one_start _ = 0

  abbrev pub one_join : Action A → ℕ
  one_join join_thread = 1
  one_join _ = 0

  abbrev pub is_stop : Action A → Bool
  is_stop stop_io = true
  is_stop _ = false

  -- How many threads are created, how many are joined, and how many are joined before the
  -- `io_service` is stopped.
  unfoldable pub starts : List (Action A) → ℕ
  starts [] = 0
  starts (a ∷ actions) = one_start a + starts actions

  unfoldable pub joins : List (Action A) → ℕ
  joins [] = 0
  joins (a ∷ actions) = one_join a + joins actions

  unfoldable pub early_joins : List (Action A) → ℕ
  early_joins [] = 0
  early_joins (a ∷ actions) =
      let rest = early_joins actions in if is_stop a then 0 else one_join a + rest

  pub starts-append : (xs ys : List (Action A)) → starts (xs ++ ys) ≡ starts xs + starts ys
  unfolding starts
  starts-append [] ys = omega arith
  starts-append (x ∷ xs) ys = omega (arith, starts-append xs ys)

  pub joins-append : (xs ys : List (Action A)) → joins (xs ++ ys) ≡ joins xs + joins ys
  unfolding joins
  joins-append [] ys = omega arith
  joins-append (x ∷ xs) ys = omega (arith, joins-append xs ys)

  pub acceptor_calls :
      (calls : List A) → (starts (map acceptor calls) ≡ 0) × (joins (map acceptor calls) ≡ 0)
  unfolding starts joins
  acceptor_calls [] = (refl, refl)
  acceptor_calls (call ∷ calls) =
      (omega (arith, (acceptor_calls calls).0), omega (arith, (acceptor_calls calls).1))

  pub early_joins-append :
      (xs ys : List (Action A)) → joins xs ≡ 0 → early_joins ys ≡ 0 → early_joins (xs ++ ys) ≡ 0
  unfolding joins early_joins
  early_joins-append [] ys h k = k
  early_joins-append (x ∷ xs) ys h k = ground (arith, early_joins-append xs ys (omega (arith, h)) k)

  pub none_early : (xs : List (Action A)) → joins xs ≡ 0 → early_joins xs ≡ 0
  unfolding joins early_joins
  none_early [] h = refl
  none_early (x ∷ xs) h = ground (arith, none_early xs (omega (arith, h)))

  -- While `Start` creates threads, the pool has as many as were created, and none was joined.
  pub record IsStarting (s : Server A) : Type 0 where
    pub created : starts s.actions ≡ s.threads
    pub joined_none : joins s.actions ≡ 0

  add-IsStarting :
      (s : Server A)
      → IsStarting s
      → IsStarting (record s { threads = s.threads + 1; actions = s.actions ++ start_thread ∷ [] })
  unfolding starts joins
  add-IsStarting s v = record {
    created = omega (arith, starts-append s.actions (start_thread ∷ []), v.created);
    joined_none = omega (arith, joins-append s.actions (start_thread ∷ []), v.joined_none);
  }

  -- What creating `k` threads comes to: all are created, or one is not.
  pub record Grows (w : World) (k : ℕ) (s s' : Server A) : Type 0 where
    pub starting : IsStarting s'
    pub few : s'.threads ≤ s.threads + k
    pub outcome :
        ((s'.failure ≡ none) × (s'.threads ≡ s.threads + k))
        ⊎ ((s'.failure ≡ some no_thread) × (w.creates s'.threads ≡ false))

  pub start_threads-Grows :
      (w : World) (k : ℕ) (s : Server A)
      → IsStarting s
      → s.failure ≡ none
      → Grows w k s (start_threads w k s)
  unfolding start_threads
  start_threads-Grows w zero s v quiet = record {
    starting = v;
    few = omega arith;
    outcome = inl (quiet, omega arith);
  }
  start_threads-Grows w (suc k) s v quiet = elim (Bool-cases (w.creates s.threads)) [
    | inl created ↦
        (let more =
            start_threads-Grows w k
              (record s { threads = s.threads + 1; actions = s.actions ++ start_thread ∷ [] })
              (add-IsStarting s v) quiet in
          rw created (record {
            starting = more.starting;
            few = omega (arith, more.few);
            outcome = elim (more.outcome) [
              | inl (fine, all) ↦ inl (fine, omega (arith, all))
              | inr lost ↦ inr lost
            ];
          }))
    | inr lost ↦ rw lost (record {
      starting = record { created = v.created; joined_none = v.joined_none };
      few = omega arith;
      outcome = inr (refl, lost);
    })
  ]

abbrev pub joined_threads : (A : Type 0) → ℕ → List (Action A)
joined_threads A n = join_threads n

pub join_threads_lem :
    (A : Type 0) (n : ℕ) → (starts (joined_threads A n) ≡ 0) × (joins (joined_threads A n) ≡ n)
unfolding starts joins join_threads
join_threads_lem A zero = (refl, refl)
join_threads_lem A (suc n) =
    (omega (arith, (join_threads_lem A n).0), omega (arith, (join_threads_lem A n).1))
