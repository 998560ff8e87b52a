-- ===== src/AsyncTcpClient/Locks.antt =====
-- The mutexes of `AsyncTCPClient`: which ones each call and each handler locks and unlocks, in order,
-- and the threads that run them as a step relation.
use boost_asio_study.Base.{
  ℕ, Bool, true, false, List, [], ◌∷◌, ◌++◌, Option, none, some, ◌≡◌, ◌==◌, if◌then◌else◌,
  get_elem?, set,
}

-- `m_active_sessions_guard`, and `m_cancel_guard` of the session at a position.
pub data Mutex : Type 0 where
  active_sessions_guard : Mutex
  cancel_guard : ℕ → Mutex

pub data LockOp : Type 0 where
  acquire : Mutex → LockOp
  release : Mutex → LockOp

-- `onRequestComplete`
abbrev pub complete_locks : List LockOp
complete_locks = acquire active_sessions_guard ∷ release active_sessions_guard ∷ []

-- `emulateLongComputationOp`
abbrev pub emulate_locks : List LockOp
emulate_locks = acquire active_sessions_guard ∷ release active_sessions_guard ∷ []

-- The handlers of the connect and of the write, by whether the operation failed, and whether the
-- session was cancelled: `cancel_lock` is held to the end of the handler.
unfoldable pub handler_locks : ℕ → Bool → Bool → List LockOp
handler_locks i has_failed was_cancelled =
    if has_failed
    then complete_locks
    else acquire (cancel_guard i)
      ∷ ((if was_cancelled then complete_locks else []) ++ release (cancel_guard i) ∷ [])

-- `cancelRequest`, by the session that it finds; the destructors unlock in reverse order.
unfoldable pub cancel_locks : Option ℕ → List LockOp
cancel_locks none = acquire active_sessions_guard ∷ release active_sessions_guard ∷ []
cancel_locks (some i) =
    acquire active_sessions_guard
    ∷ acquire (cancel_guard i)
    ∷ release (cancel_guard i)
    ∷ release active_sessions_guard
    ∷ []

abbrev pub mutex_eq : Mutex → Mutex → Bool
mutex_eq active_sessions_guard active_sessions_guard = true
mutex_eq (cancel_guard i) (cancel_guard j) = i == j
mutex_eq _ _ = false

-- What each thread has still to do, and the locked mutexes with the threads that hold them.
pub record Threads : Type 0 where
  pub programs : List (List LockOp)
  pub held : List (Mutex × ℕ)

unfoldable pub owner : Mutex → List (Mutex × ℕ) → Option ℕ
owner m [] = none
owner m ((n, t) ∷ held) = let rest = owner m held in if mutex_eq n m then some t else rest

unfoldable pub unlocked : Mutex → List (Mutex × ℕ) → List (Mutex × ℕ)
unlocked m [] = []
unlocked m ((n, t) ∷ held) =
    let rest = unlocked m held in if mutex_eq n m then rest else (n, t) ∷ rest

-- A thread locks a mutex that nobody holds, or unlocks one that it holds.
pub data Step : Threads → Threads → Type 0 where
  lock :
      (s : Threads) (t : ℕ) (m : Mutex) (rest : List LockOp)
      → get_elem? s.programs t ≡ some (acquire m ∷ rest)
      → owner m s.held ≡ none
      → Step s (record { programs = set s.programs t rest; held = (m, t) ∷ s.held })
  unlock :
      (s : Threads) (t : ℕ) (m : Mutex) (rest : List LockOp)
      → get_elem? s.programs t ≡ some (release m ∷ rest)
      → owner m s.held ≡ some t
      → Step s (record { programs = set s.programs t rest; held = unlocked m s.held })

pub data Reach (s : Threads) : Threads → Type 0 where
  here : Reach s s
  next : {t u : Threads} → Reach s t → Step t u → Reach s u

abbrev pub started : List (List LockOp) → Threads
started programs = record { programs = programs; held = [] }
