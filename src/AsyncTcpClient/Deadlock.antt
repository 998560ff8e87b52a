-- ===== src/AsyncTcpClient/Deadlock.antt =====
-- Two threads of `AsyncTCPClient` that wait for one another.
use boost_asio_study.AsyncTcpClient.Locks.{
  Mutex, active_sessions_guard, cancel_guard, LockOp, acquire, release, handler_locks, cancel_locks,
  mutex_eq, Threads, owner, unlocked, Step, lock, unlock, Reach, here, next, started,
}
use boost_asio_study.Base.{
  get_elem?-set_self, get_elem?-set_other, ℕ, true, false, List, [], ◌∷◌, ◌++◌, some, ◌≡◌, ◌==◌,
  refl, arith, get_elem?, set, get_elem?-set, ◌∙◌,
}

pub owner-unlocked :
    (m n : Mutex) (held : List (Mutex × ℕ))
    → mutex_eq n m ≡ false
    → owner m (unlocked n held) ≡ owner m held
unfolding owner unlocked
owner-unlocked m n [] ne = refl
owner-unlocked active_sessions_guard active_sessions_guard (x ∷ held) ne = cc
owner-unlocked active_sessions_guard (cancel_guard j) ((active_sessions_guard, t) ∷ held) ne = refl
owner-unlocked active_sessions_guard (cancel_guard j) ((cancel_guard k, t) ∷ held) ne =
    ground (arith, owner-unlocked active_sessions_guard (cancel_guard j) held ne)
owner-unlocked (cancel_guard i) active_sessions_guard ((active_sessions_guard, t) ∷ held) ne =
    owner-unlocked (cancel_guard i) active_sessions_guard held ne
owner-unlocked (cancel_guard i) active_sessions_guard ((cancel_guard k, t) ∷ held) ne =
    ground (arith, owner-unlocked (cancel_guard i) active_sessions_guard held ne)
owner-unlocked (cancel_guard i) (cancel_guard j) ((active_sessions_guard, t) ∷ held) ne =
    owner-unlocked (cancel_guard i) (cancel_guard j) held ne
owner-unlocked (cancel_guard i) (cancel_guard j) ((cancel_guard k, t) ∷ held) ne =
    ground (arith, owner-unlocked (cancel_guard i) (cancel_guard j) held ne)

pub mutex_eq-true : (m n : Mutex) → mutex_eq m n ≡ true → m ≡ n
mutex_eq-true active_sessions_guard active_sessions_guard h = refl
mutex_eq-true active_sessions_guard (cancel_guard j) h = cc
mutex_eq-true (cancel_guard i) active_sessions_guard h = cc
mutex_eq-true (cancel_guard i) (cancel_guard j) h = ground (arith)

-- Thread `t` holds `m` and waits for `n`, which thread `u` holds; `u` waits for `m`.
pub record IsDeadlocked (t u : ℕ) (m n : Mutex) (t_rest u_rest : List LockOp) (s : Threads)
    : Type 0 where
  pub t_waits : get_elem? s.programs t ≡ some (acquire n ∷ t_rest)
  pub u_waits : get_elem? s.programs u ≡ some (acquire m ∷ u_rest)
  pub m_taken : owner m s.held ≡ some t
  pub n_taken : owner n s.held ≡ some u

-- A thread that waits for a mutex that is held does not move, and the mutex stays held if its holder
-- does not move.
Step-waits :
    {s s' : Threads} (v : ℕ) (m : Mutex) (by : ℕ) (rest : List LockOp)
    → Step s s'
    → get_elem? s.programs v ≡ some (acquire m ∷ rest)
    → owner m s.held ≡ some by
    → get_elem? s'.programs v ≡ some (acquire m ∷ rest)
Step-waits v m by rest (lock s t n p ready free) waits taken =
    ground (arith, get_elem?-set s.programs t v p (acquire n ∷ p) ready)
Step-waits v m by rest (unlock s t n p ready mine) waits taken =
    ground (arith, get_elem?-set s.programs t v p (release n ∷ p) ready)

Step-taken :
    {s s' : Threads} (v : ℕ) (m n : Mutex) (rest : List LockOp)
    → Step s s'
    → get_elem? s.programs v ≡ some (acquire n ∷ rest)
    → owner m s.held ≡ some v
    → owner m s'.held ≡ some v
unfolding owner
Step-taken v m n rest (lock s t k p ready free) waits taken = ground (arith, mutex_eq-true k m)
Step-taken v m n rest (unlock s t k p ready mine) waits taken =
    ground (arith, mutex_eq-true k m, owner-unlocked m k s.held)

module _ (t u : ℕ) (m n : Mutex) (t_rest u_rest : List LockOp) where
  Step-IsDeadlocked :
      {s s' : Threads}
      → Step s s'
      → IsDeadlocked t u m n t_rest u_rest s
      → IsDeadlocked t u m n t_rest u_rest s'
  Step-IsDeadlocked st d = record {
    t_waits = Step-waits t n u t_rest st d.t_waits d.n_taken;
    u_waits = Step-waits u m t u_rest st d.u_waits d.m_taken;
    m_taken = Step-taken t m n t_rest st d.t_waits d.m_taken;
    n_taken = Step-taken u n m u_rest st d.u_waits d.n_taken;
  }

  Reach-IsDeadlocked :
      {s s' : Threads}
      → IsDeadlocked t u m n t_rest u_rest s
      → Reach s s'
      → IsDeadlocked t u m n t_rest u_rest s'
  Reach-IsDeadlocked d here = d
  Reach-IsDeadlocked d (next r st) = Step-IsDeadlocked st (Reach-IsDeadlocked d r)

module _ (programs : List (List LockOp)) (t u i : ℕ) (after more : List LockOp)
    (distinct : (t == u) ≡ false)
    (cancels : get_elem? programs t ≡ some (cancel_locks (some i) ++ after))
    (handles : get_elem? programs u ≡ some (handler_locks i false true ++ more)) where
  abbrev t_left : List LockOp
  t_left = release (cancel_guard i) ∷ (release active_sessions_guard ∷ after)

  abbrev u_left : List LockOp
  u_left = release active_sessions_guard ∷ (release (cancel_guard i) ∷ more)

  abbrev one_locked : Threads
  one_locked = record {
    programs = set programs t (acquire (cancel_guard i) ∷ t_left);
    held = (active_sessions_guard, t) ∷ [];
  }

  abbrev both_locked : Threads
  both_locked = record {
    programs = set one_locked.programs u (acquire active_sessions_guard ∷ u_left);
    held = (cancel_guard i, u) ∷ ((active_sessions_guard, t) ∷ []);
  }

  one_locked-Reach : Reach (started programs) one_locked
  unfolding cancel_locks owner
  one_locked-Reach = next here (lock (started programs) t active_sessions_guard _ cancels refl)

  u_ready : get_elem? one_locked.programs u ≡ some (handler_locks i false true ++ more)
  u_ready = get_elem?-set_other programs t u _ distinct ∙ handles

  both_locked-Reach : Reach (started programs) both_locked
  unfolding handler_locks owner
  both_locked-Reach = next one_locked-Reach (lock one_locked u (cancel_guard i) _ u_ready refl)

  both_locked-IsDeadlocked :
      IsDeadlocked t u active_sessions_guard (cancel_guard i) t_left u_left both_locked
  unfolding owner
  both_locked-IsDeadlocked = record {
    t_waits =
        get_elem?-set_other one_locked.programs u t _ (ground arith)
        ∙ get_elem?-set_self programs t _ _ cancels;
    u_waits = get_elem?-set_self one_locked.programs u _ _ u_ready;
    m_taken = refl;
    n_taken = ground arith;
  }

  -- One thread runs `cancelRequest` on a session, and another one a handler of that session,
  -- which had been cancelled before. From the start the threads can come to a state in which each
  -- of the two holds the mutex that the other one waits for, and however the threads go on from
  -- there, the two never move again.
  pub cancel_deadlock :
      (d : Threads) × Reach (started programs) d
      × ((s : Threads)
          → Reach d s
          → IsDeadlocked t u active_sessions_guard (cancel_guard i) t_left u_left s)
  cancel_deadlock = (
    both_locked,
    both_locked-Reach,
    λ s r.
        Reach-IsDeadlocked t u active_sessions_guard (cancel_guard i) t_left u_left
          both_locked-IsDeadlocked r,
  )
